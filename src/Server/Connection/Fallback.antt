-- ===== src/Server/Connection/Fallback.antt =====
-- bin/server.rs, `handle_connection`, for a connection that is not let in.
use mathlib.Core.List.{flatten}
use anytls_rs_legacy.Common.{
  ◌≤◌, subst, text_same, text_key, ◌⊎◌, ℕ, zero, suc, ◌≡◌, ◌≢◌, refl, ◌∙◌, sym, ap, true, false,
  Option, none, some, [], ◌∷◌, ◌++◌, take, length, Text, arith, take-append-drop, Bool-cases,
  Option-cases, Result-cases, inl, inr, ◌==◌,
}
use anytls_rs_legacy.Common.Int.{ℤ, pos, negsuc}
use anytls_rs_legacy.Common.Bytes.{Bytes}
use anytls_rs_legacy.Server.Preamble.{Incoming, fill, read_client_id}
use anytls_rs_legacy.Server.Preamble.Reading.{fill_lem}
use anytls_rs_legacy.Panel.TrafficAudit.{TrafficAudit}
use anytls_rs_legacy.Common.Map.{lookup}
use anytls_rs_legacy.Node.Users.{deny_reason_at}
use anytls_rs_legacy.Node.Registry.{
  password_hash_len, Registry, AuthedUser, authenticate, new_authed_user, drop_authed_user, add_one,
  sub_one,
}
use anytls_rs_legacy.Server.Connection.{
  sni_is_allowed, Config, ConnCtx, ServerState, Authenticator, shared_password, users, Fate, served,
  denied, failed, forwarded, probed, dropped, AuthOutcome, rejected, anonymous, user, is_rejected,
  user_of, authenticate_with, admit, approved, release, welcome, respond, fall_back,
  handle_connection,
}

-- The outside sees every byte that the client sent: those that were read, and then the rest.
abbrev pub IsRelayed : Bytes → Fate → Type 0
IsRelayed sent (forwarded url prefix later) = prefix ++ flatten later ≡ sent
IsRelayed sent (probed host prefix later) = prefix ++ flatten later ≡ sent
IsRelayed sent dropped = Unit
IsRelayed sent denied = ⊥
IsRelayed sent (failed e) = ⊥
IsRelayed sent (served ctx later) = ⊥

-- The open connections of every user, and nothing else of the state is a matter of a connection that ends.
abbrev pub SameUsers : Authenticator → Authenticator → Type 0
SameUsers (shared_password a) (shared_password b) = a ≡ b
SameUsers (shared_password a) (users r) = ⊥
SameUsers (users r) (shared_password b) = ⊥
SameUsers (users r) (users t) =
    ((h : ℕ) → t.entries h ≡ r.entries h) × (t.by_email ≡ r.by_email) × (t.by_hash ≡ r.by_hash)

sub_one-add_one : (z : ℤ) → sub_one (add_one z) ≡ z
sub_one-add_one (pos n) = ground arith
sub_one-add_one (negsuc zero) = refl
sub_one-add_one (negsuc (suc n)) = ground arith

drop-new :
    (r : Registry) (h k : ℕ)
    → let (t, u) = new_authed_user r h in (drop_authed_user u t).entries k ≡ r.entries k
unfolding new_authed_user drop_authed_user
drop-new r h k = ground (arith, sub_one-add_one (r.entries h).connections)

take-take : (m n : ℕ) (xs : Bytes) → m ≤ n → take m (take n xs) ≡ take m xs
take-take zero n xs h = refl
take-take (suc m) zero xs h = absurd (omega arith)
take-take (suc m) (suc n) [] h = refl
take-take (suc m) (suc n) (x ∷ xs) h = ap (λ t. x ∷ t) (take-take m n xs (omega arith))

SameUsers-refl : (a : Authenticator) → SameUsers a a
SameUsers-refl (shared_password p) = refl
SameUsers-refl (users r) = (λ h. refl, refl, refl)

drop-new_maps :
    (r : Registry) (h : ℕ)
    → let (t, u) = new_authed_user r h in
      ((drop_authed_user u t).by_email ≡ r.by_email) × ((drop_authed_user u t).by_hash ≡ r.by_hash)
unfolding new_authed_user drop_authed_user
drop-new_maps r h = (refl, refl)

authenticate-cases :
    (now : ℤ) (hash : Bytes) (r : Registry)
    → (authenticate now hash r ≡ (r, none))
      ⊎ ((h : ℕ) × (let (t, u) = new_authed_user r h in authenticate now hash r ≡ (t, some u)))
unfolding authenticate
authenticate-cases now hash r = elim (Bool-cases (length hash == password_hash_len)) [
  | inr e ↦ inl (rw (e, authenticate) refl)
  | inl e ↦ elim (Option-cases (lookup hash r.by_hash)) [
    | inl f ↦ inl (rw (e, f, authenticate) refl)
    | inr (h, f) ↦ elim (Option-cases (deny_reason_at now (r.entries h))) [
      | inl g ↦ inr (h, rw (e, f, g, authenticate) refl)
      | inr (reason, g) ↦ inl (rw (e, f, g, authenticate) refl)
    ]
  ]
]

-- What authentication changes is undone when the guard goes.
authenticate_with-release :
    (now : ℤ) (hash : Bytes) (audit : TrafficAudit) (a : Authenticator)
    → let (b, outcome) = authenticate_with now hash a in
      SameUsers a
        (release (user_of outcome) (record { authenticator = b; audit = audit })).authenticator
unfolding authenticate_with authenticate release
authenticate_with-release now hash audit (shared_password p) =
    elim (Bool-cases (text_same hash p)) [ inl e ↦ rw e refl | inr e ↦ rw e refl ]
authenticate_with-release now hash audit (users r) =
    let after : Registry × Option AuthedUser → Type 0 = λ p.
      SameUsers (users r)
        (release (user_of (elim p.1 [ some u ↦ user u | none ↦ rejected ]))
          (record { authenticator = users p.0; audit = audit })).authenticator in
    elim (authenticate-cases now hash r) [
      | inl e ↦ subst after (sym e) (SameUsers-refl (users r))
      | inr (h, e) ↦
          subst after (sym e) (λ k. drop-new r h k, (drop-new_maps r h).0, (drop-new_maps r h).1)
    ]

nobody_rejected : (outcome : AuthOutcome) → is_rejected outcome ≡ true → user_of outcome ≡ none
nobody_rejected rejected e = refl
nobody_rejected anonymous e = absurd (ground arith)
nobody_rejected (user u) e = absurd (ground arith)

module _ (parse_str : Text → Option ℕ) (config : Config) (now : ℤ) where
  fall_back-IsRelayed :
      (probe : Option Text) (prefix sent : Bytes) (later : Incoming)
      → prefix ++ flatten later ≡ sent
      → IsRelayed sent (fall_back config probe prefix later)
  unfolding fall_back
  fall_back-IsRelayed probe prefix sent later e = elim (Option-cases config.forward_target) [
    | inr (url, f) ↦ rw (f, fall_back) e
    | inl f ↦ elim (Option-cases probe) [
      | inl g ↦ rw (f, g, fall_back) tt
      | inr (host, g) ↦ elim (Bool-cases (sni_is_allowed host config.probe_sni_allowlist)) [
        | inl k ↦ rw (f, g, k, fall_back) e
        | inr k ↦ rw (f, g, k, fall_back) tt
      ]
    ]
  ]

  -- The bytes end too soon, or do not authenticate.
  abbrev pub IsRefused : Bytes → Authenticator → Type 0
  IsRefused sent a =
      (length (take 34 sent) ≢ 34) ⊎ (is_rejected (authenticate_with now (take 32 sent) a).1 ≡ true)

  respond-IsRelayed :
      (probe : Option Text) (auth : Bytes) (later : Incoming) (sent : Bytes) (s : ServerState)
      → auth ++ flatten later ≡ sent
      → (length auth ≢ 34)
        ⊎ (is_rejected (authenticate_with now (take 32 auth) s.authenticator).1 ≡ true)
      → IsRelayed sent (respond parse_str config now probe auth later s).1
  unfolding respond
  respond-IsRelayed probe auth later sent s e (inl short) =
      let test : (length auth == 34) ≡ false = ground (arith, short) in
      rw (test, respond) (fall_back-IsRelayed probe auth sent later e)
  respond-IsRelayed probe auth later sent s e (inr bad) = elim (Bool-cases (length auth == 34)) [
    | inl t ↦ rw (t, bad, respond) (fall_back-IsRelayed probe auth sent later e)
    | inr t ↦ rw (t, respond) (fall_back-IsRelayed probe auth sent later e)
  ]

  welcome-SameUsers :
      (outcome : AuthOutcome) (auth : Bytes) (later : Incoming) (s : ServerState)
      (a : Authenticator)
      → SameUsers a (release (user_of outcome) s).authenticator
      → let (t, fate) = welcome parse_str config now outcome auth later s in
        ((ctx : ConnCtx) (rest : Incoming) → fate ≢ served ctx rest) → SameUsers a t.authenticator
  unfolding welcome admit
  welcome-SameUsers outcome auth later s a h =
      elim (Result-cases (read_client_id parse_str auth later)) [
        | inr (e, f) ↦ rw (f, welcome) (λ u. h)
        | inl ((id, rest), f) ↦
            let ctx : ConnCtx = record {
              user = user_of outcome;
              client_id = id;
              panel_sync = config.panel_sync;
            } in
            elim (Bool-cases (approved now ctx s)) [
              | inl g ↦ rw (f, welcome, g) (λ u. absurd (u ctx rest refl))
              | inr g ↦ rw (f, welcome, g) (λ u. h)
            ]
      ]

  respond-SameUsers :
      (probe : Option Text) (auth : Bytes) (later : Incoming) (s : ServerState)
      → let (t, fate) = respond parse_str config now probe auth later s in
        ((ctx : ConnCtx) (rest : Incoming) → fate ≢ served ctx rest)
        → SameUsers s.authenticator t.authenticator
  unfolding respond release
  respond-SameUsers probe auth later s =
      let (a, outcome) = authenticate_with now (take 32 auth) s.authenticator in
      let released = authenticate_with-release now (take 32 auth) s.audit s.authenticator in
      elim (Bool-cases (length auth == 34)) [
        | inr t ↦ rw (t, respond) (λ u. SameUsers-refl s.authenticator)
        | inl t ↦ elim (Bool-cases (is_rejected outcome)) [
          | inl g ↦
              let nobody : user_of outcome ≡ none = nobody_rejected outcome g in
              rw (t, respond, g)
                (λ u.
                  subst
                    (λ o.
                      SameUsers s.authenticator
                        (release o (record { authenticator = a; audit = s.audit })).authenticator)
                    nobody released)
          | inr g ↦
              rw (t, respond, g)
                (welcome-SameUsers outcome auth later (record s { authenticator = a })
                  s.authenticator released)
        ]
      ]

  parts :
      (incoming : Incoming)
      → (fill 34 34 incoming).0 ++ flatten (fill 34 34 incoming).1 ≡ flatten incoming
  parts incoming =
      let (got, left) = fill_lem 34 34 incoming (omega arith) in
      ap (λ x. x ++ flatten (fill 34 34 incoming).1) got
      ∙ ap (λ x. take 34 (flatten incoming) ++ x) left
      ∙ take-append-drop 34 (flatten incoming)

  -- Such a connection is relayed or dropped, with the bytes that were read, in order, and then the rest.
  pub handle_connection-IsRelayed :
      (probe_target : Option Text) (incoming : Incoming) (s : ServerState)
      → IsRefused (flatten incoming) s.authenticator
      → IsRelayed
          (flatten incoming)
          (handle_connection parse_str config now probe_target incoming s).1
  unfolding handle_connection
  handle_connection-IsRelayed probe incoming s h =
      let (got, left) = fill_lem 34 34 incoming (omega arith) in
      let digest : take 32 (fill 34 34 incoming).0 ≡ take 32 (flatten incoming) =
        ap (λ x. take 32 x) got ∙ take-take 32 34 (flatten incoming) (omega arith) in
      respond-IsRelayed probe (fill 34 34 incoming).0 (fill 34 34 incoming).1 (flatten incoming) s
        (parts incoming)
        (elim h [
          | inl short ↦ inl (λ e. short (ap length (sym got) ∙ e))
          | inr bad ↦
              inr (ap (λ x. is_rejected (authenticate_with now x s.authenticator).1) digest ∙ bad)
        ])

  -- A connection that ends without a session, for whatever reason, leaves every user of the server as it
  -- was: no count of open connections is left raised.
  pub handle_connection-SameUsers :
      (probe_target : Option Text) (incoming : Incoming) (s : ServerState)
      → ((ctx : ConnCtx) (rest : Incoming)
          → (handle_connection parse_str config now probe_target incoming s).1 ≢ served ctx rest)
      → SameUsers s.authenticator
          (handle_connection parse_str config now probe_target incoming s).0.authenticator
  unfolding handle_connection
  handle_connection-SameUsers probe incoming s u =
      respond-SameUsers probe (fill 34 34 incoming).0 (fill 34 34 incoming).1 s u
