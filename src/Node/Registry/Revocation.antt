-- ===== src/Node/Registry/Revocation.antt =====
-- src/node_api/users.rs, `replace`: the counters that it leaves alone, and the users that it revokes.
use anytls_rs_legacy.Common.{
  ℕ, ◌<◌, ◌≤◌, ◌≡◌, ◌≢◌, refl, ◌∙◌, inl, inr, true, false, some, List, [], ◌∷◌, arith, All,
  Bool-cases, Option-cases, if◌then◌else◌, Text, text_key, text_same, text_same_iff,
}
use anytls_rs_legacy.Common.Int.{ℤ, pos}
use anytls_rs_legacy.Common.Bytes.{Bytes}
use anytls_rs_legacy.Common.Map.{Map, lookup, contains_key, lookup-insert}
use anytls_rs_legacy.Node.Users.{UserSpec, UserEntry, revoked, apply_limits, revoke, deny_reason_at}
use anytls_rs_legacy.Node.Registry.{
  Registry, put_entry, rekey, place_user, place_spec, place_specs, revoke_missing, replace,
  deny_reason,
}

-- What an entry counts, without its limits and its standing.
abbrev usage : UserEntry → UserEntry
usage e = record e { generation = 0; quota_bytes = 0; expires_unix = pos 0; is_revoked = false }

-- What the second loop does for one user of the index that is replaced.
abbrev pub revoke_absent : Text → ℕ → Registry → Registry
revoke_absent email h b =
    if contains_key email b.by_email
    then b
    else record b { entries = put_entry h (revoke (b.entries h)) b.entries }

revoke_missing-usage :
    (m : Map Text ℕ) (b : Registry) (k : ℕ)
    → usage ((revoke_missing m b).entries k) ≡ usage (b.entries k)
unfolding revoke_missing revoke
revoke_missing-usage [] b k = refl
revoke_missing-usage ((email, h) ∷ m) b k =
    revoke_missing-usage m (revoke_absent email h b) k ∙ ground arith

module _ (sha256 : Text → Bytes) (old : Registry) where
  place_spec-usage :
      (spec : UserSpec) (b : Registry) (k : ℕ)
      → k < b.next_handle
      → (usage ((place_spec sha256 old spec b).entries k) ≡ usage (b.entries k))
        × (b.next_handle ≤ (place_spec sha256 old spec b).next_handle)
  unfolding place_spec place_user rekey apply_limits
  place_spec-usage spec b k l = ground arith

  place_specs-usage :
      (specs : List UserSpec) (b : Registry) (k : ℕ)
      → k < b.next_handle
      → usage ((place_specs sha256 old specs b).entries k) ≡ usage (b.entries k)
  unfolding place_specs
  place_specs-usage [] b k l = refl
  place_specs-usage (spec ∷ specs) b k l =
      let (same, more) = place_spec-usage spec b k l in
      place_specs-usage specs (place_spec sha256 old spec b) k (omega arith) ∙ same

-- No replacement changes what an entry has counted, its number of connections or its email.
replace-usage :
    (sha256 : Text → Bytes) (specs : List UserSpec) (r : Registry) (k : ℕ)
    → k < r.next_handle
    → usage ((replace sha256 specs r).entries k) ≡ usage (r.entries k)
unfolding replace
replace-usage sha256 specs r k l =
    let start = record r { by_email = []; by_hash = [] } in
    revoke_missing-usage r.by_email (place_specs sha256 r specs start) k
    ∙ place_specs-usage sha256 r specs start k l

revoke_missing_stays :
    (m : Map Text ℕ) (b : Registry) (k : ℕ)
    → (b.entries k).is_revoked ≡ true
    → ((revoke_missing m b).entries k).is_revoked ≡ true
unfolding revoke_missing revoke
revoke_missing_stays [] b k r = r
revoke_missing_stays ((email, h) ∷ m) b k r =
    revoke_missing_stays m (revoke_absent email h b) k (ground arith)

pub revoke_absent-by_email :
    (email : Text) (h : ℕ) (b : Registry) → (revoke_absent email h b).by_email ≡ b.by_email
revoke_absent-by_email email h b = ground arith

revoke_missing-lookup :
    (m : Map Text ℕ) (b : Registry) (email : Text) (h : ℕ)
    → lookup email m ≡ some h
    → contains_key email b.by_email ≡ false
    → ((revoke_missing m b).entries h).is_revoked ≡ true
unfolding revoke_missing revoke
revoke_missing-lookup [] b email h e c = absurd (unfold lookup in ground arith)
revoke_missing-lookup ((name, k) ∷ m) b email h e c = elim (Bool-cases (text_same name email)) [
  | inl t ↦
      let found : k ≡ h = unfold lookup in ground arith in
      let same = (text_same_iff name email).0 t in
      revoke_missing_stays m (revoke_absent name k b) h (ground arith)
  | inr t ↦
      revoke_missing-lookup m (revoke_absent name k b) email h (unfold lookup in ground arith)
        (rw (revoke_absent-by_email name k b) c)
]

module _ (sha256 : Text → Bytes) (old : Registry) (email : Text) where
  abbrev IsAbsent : UserSpec → Type 0
  IsAbsent spec = spec.email ≢ email

  contains_key-place_spec :
      (spec : UserSpec) (b : Registry)
      → IsAbsent spec
      → contains_key email (place_spec sha256 old spec b).by_email ≡ contains_key email b.by_email
  unfolding place_spec place_user contains_key
  contains_key-place_spec spec b n =
      let other : text_same spec.email email ≡ false =
        ground (arith, text_same_iff spec.email email) in
      elim (Option-cases (lookup spec.email old.by_email)) [
        | inl e ↦ ground (arith, other, e, lookup-insert spec.email email b.next_handle b.by_email)
        | inr (h, e) ↦ ground (arith, other, e, lookup-insert spec.email email h b.by_email)
      ]

  contains_key-place_specs :
      (specs : List UserSpec) (b : Registry)
      → All IsAbsent specs
      → contains_key email (place_specs sha256 old specs b).by_email ≡ contains_key email b.by_email
  unfolding place_specs
  contains_key-place_specs [] b n = refl
  contains_key-place_specs (spec ∷ specs) b n =
      contains_key-place_specs specs (place_spec sha256 old spec b) n.1
      ∙ contains_key-place_spec spec b n.0

-- A user whose email the new set lacks is revoked: every connection that it has is denied.
pub replace-revokes :
    (sha256 : Text → Bytes) (specs : List UserSpec) (r : Registry) (email : Text) (h g : ℕ)
    (now : ℤ)
    → lookup email r.by_email ≡ some h
    → All (λ spec. spec.email ≢ email) specs
    → deny_reason now (record { entry = h; generation = g }) (replace sha256 specs r) ≡ some revoked
unfolding replace deny_reason deny_reason_at
replace-revokes sha256 specs r email h g now e n =
    let start = record r { by_email = []; by_hash = [] } in
    let gone = contains_key-place_specs sha256 r email specs start n in
    let none_yet : contains_key email start.by_email ≡ false = unfold contains_key lookup in refl in
    ground (
      arith,
      revoke_missing-lookup r.by_email (place_specs sha256 r specs start) email h e
          (gone ∙ none_yet),
    )
