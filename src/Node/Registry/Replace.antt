-- ===== src/Node/Registry/Replace.antt =====
-- src/node_api/users.rs, `replace`: whom the new index lets in.
use anytls_rs_legacy.Common.{
  All-Any, Any, ◌||◌, ◌==◌, ◌∷◌, [], ◌≢◌, List, All, All-zip, ◌∷◌, All-mono, ℕ, ◌+◌, ◌<◌, ◌≤◌, ◌≡◌,
  refl, inl, inr, subst, true, false, some, arith, Bool-cases, Option-cases, Text, text_key,
  text_same, text_same_iff,
}
use anytls_rs_legacy.Common.Bytes.{Bytes}
use anytls_rs_legacy.Common.Map.{
  Map, lookup, insert, contains_key, lookup-insert, All-lookup, All-insert, All-contains_key,
}
use anytls_rs_legacy.Node.Users.{revoke, UserSpec, UserEntry, new_entry, apply_limits}
use anytls_rs_legacy.Node.Registry.{
  replace, revoke, revoke_missing, put_entry, is_empty_text, place_spec, place_specs, Registry,
  index_user, rekey, place_user,
}

-- The entry of a handle belongs to the email and was not revoked.
abbrev pub IsUser : Registry → Text → ℕ → Type 0
IsUser r email h =
    (h < r.next_handle) × ((r.entries h).email ≡ email) × ((r.entries h).is_revoked ≡ false)

abbrev pub OwnUser : Registry → Text × ℕ → Type 0
OwnUser r (email, h) = IsUser r email h

-- Every email of the index leads to its own user.
abbrev pub IsIndexed : Registry → Type 0
IsIndexed r = All (OwnUser r) r.by_email

-- The index as it is built. `P` holds of every digest that lets a user in, with the user's email.
record Building (P : Bytes → Text → Type 0) (old b : Registry) : Type 0 where
  pub keeps : All (OwnUser b) old.by_email
  pub indexed : IsIndexed b
  pub keyed :
      (hash : Bytes) (h : ℕ)
      → lookup hash b.by_hash ≡ some h
      → (email : Text) × IsUser b email h × P hash email × (contains_key email b.by_email ≡ true)

contains-insert_old :
    (a b : Text) (h : ℕ) (m : Map Text ℕ)
    → contains_key a m ≡ true
    → contains_key a (insert b h m) ≡ true
unfolding contains_key
contains-insert_old a b h m e = ground (arith, lookup-insert b a h m)

contains-insert_new : (a : Text) (h : ℕ) (m : Map Text ℕ) → contains_key a (insert a h m) ≡ true
unfolding contains_key
contains-insert_new a h m = ground (arith, lookup-insert a a h m, text_same_iff a a)

module _ (P : Bytes → Text → Type 0) (old : Registry) where
  -- A user is put into the index under a handle that is new, or that was the user's.
  index_user-Building :
      (b : Registry) (next h : ℕ) (e : UserEntry) (email : Text) (hash : Bytes)
      → Building P old b
      → b.next_handle ≤ next
      → h < next
      → (h < b.next_handle → (b.entries h).email ≡ email)
      → e.email ≡ email
      → e.is_revoked ≡ false
      → P hash email
      → Building P old (index_user (record b { next_handle = next }) h e email hash)
  index_user-Building b next h e email hash i n m own same live p = record {
    keeps = All-mono (λ x u. ground arith) old.by_email i.keeps;
    indexed =
        All-insert (OwnUser (index_user (record b { next_handle = next }) h e email hash)) email h
          b.by_email (ground arith) (All-mono (λ x u. ground arith) b.by_email i.indexed);
    keyed = λ j k q. elim (Bool-cases (text_same hash j)) [
      | inl t ↦
          let here : h ≡ k = ground (arith, lookup-insert hash j h b.by_hash) in
          let at_j = (text_same_iff hash j).0 t in
          (
            email,
            ground arith,
            subst (λ (x : Bytes). P x email) at_j p,
            contains-insert_new email h b.by_email,
          )
      | inr t ↦
          let (m, u, r, c) = i.keyed j k (ground (arith, lookup-insert hash j h b.by_hash)) in
          (m, ground arith, r, contains-insert_old m email h b.by_email c)
    ];
  }

  place_user-Building :
      (sha256 : Text → Bytes) (spec : UserSpec) (b : Registry)
      → Building P old b
      → P (sha256 spec.password) spec.email
      → Building P old (place_user sha256 old spec b)
  unfolding place_user rekey apply_limits new_entry
  place_user-Building sha256 spec b i p = elim (Option-cases (lookup spec.email old.by_email)) [
    | inl e ↦
        rw (e, place_user)
          (index_user-Building b (b.next_handle + 1) b.next_handle _ spec.email
            (sha256 spec.password) i (omega arith) (omega arith) (λ l. absurd (omega arith)) refl
            refl p)
    | inr (h, e) ↦
        let (below, own, live) = All-lookup (OwnUser b) spec.email h old.by_email i.keeps e in
        rw (e, place_user)
          (index_user-Building b b.next_handle h _ spec.email (sha256 spec.password) i (omega arith)
            below (λ l. own) (ground arith) (ground arith) p)
  ]

  place_specs-Building :
      (sha256 : Text → Bytes) (specs : List UserSpec) (b : Registry)
      → Building P old b
      → All
          (λ spec. spec.email ≢ [] → spec.password ≢ [] → P (sha256 spec.password) spec.email)
          specs
      → Building P old (place_specs sha256 old specs b)
  unfolding place_specs place_spec
  place_specs-Building sha256 [] b i p = i
  place_specs-Building sha256 (spec ∷ specs) b i p =
      place_specs-Building sha256 specs (place_spec sha256 old spec b) placed p.1
    where
      placed : Building P old (place_spec sha256 old spec b)
      placed = elim (Bool-cases (is_empty_text spec.email || is_empty_text spec.password)) [
        | inl e ↦ rw e i
        | inr e ↦ elim (Bool-cases (contains_key (sha256 spec.password) b.by_hash)) [
          | inl f ↦ rw (e, f) i
          | inr f ↦
              rw (e, f)
                (place_user-Building sha256 spec b i (p.0 (λ q. ground arith) (λ q. ground arith)))
        ]
      ]

-- Revoking the users that the new index lacks leaves those that it has.
abbrev OwnEmail : Registry → Text × ℕ → Type 0
OwnEmail b (email, h) = (b.entries h).email ≡ email

abbrev revoke_entry : ℕ → Registry → Registry
revoke_entry h b = record b { entries = put_entry h (revoke (b.entries h)) b.entries }

IsUser-revoke :
    (b : Registry) (email j : Text) (h k : ℕ)
    → (b.entries h).email ≡ email
    → contains_key email b.by_email ≡ false
    → contains_key j b.by_email ≡ true
    → IsUser b j k
    → IsUser (revoke_entry h b) j k
IsUser-revoke b email j h k own gone here u = elim (Bool-cases (k == h)) [
  | inl e ↦ absurd (ground arith)
  | inr e ↦ rw e u
]

OwnEmail-revoke :
    (b : Registry) (h : ℕ) (e : Text × ℕ) → OwnEmail b e → OwnEmail (revoke_entry h b) e
unfolding revoke
OwnEmail-revoke b h e o = ground arith

module _ (P : Bytes → Text → Type 0) (old : Registry) where
  -- The index in order, and every digest that it knows leading to a user that it lists.
  record Settled (b : Registry) : Type 0 where
    pub indexed : IsIndexed b
    pub keyed :
        (hash : Bytes) (h : ℕ)
        → lookup hash b.by_hash ≡ some h
        → (email : Text) × IsUser b email h × P hash email × (contains_key email b.by_email ≡ true)

  revoke_entry-Settled :
      (b : Registry) (email : Text) (h : ℕ)
      → (b.entries h).email ≡ email
      → contains_key email b.by_email ≡ false
      → Settled b
      → Settled (revoke_entry h b)
  revoke_entry-Settled b email h o e s = record {
    indexed =
        All-mono (λ x u. IsUser-revoke b email x.0 h x.1 o e u.1 u.0) b.by_email
          (All-zip (OwnUser b) (λ x. contains_key x.0 b.by_email ≡ true) b.by_email s.indexed
            (All-contains_key b.by_email));
    keyed = λ hash n q.
        let (j, u, p, c) = s.keyed hash n q in (j, IsUser-revoke b email j h n o e c u, p, c);
  }

  revoke_missing-Settled :
      (m : Map Text ℕ) (b : Registry)
      → All (OwnEmail b) m
      → Settled b
      → Settled (revoke_missing m b)
  unfolding revoke_missing
  revoke_missing-Settled [] b o s = s
  revoke_missing-Settled ((email, h) ∷ m) b o s =
      elim (Bool-cases (contains_key email b.by_email)) [
        | inl e ↦
            let same : revoke_missing ((email, h) ∷ m) b ≡ revoke_missing m b = rw e in
            rw same (revoke_missing-Settled m b o.1 s)
        | inr e ↦
            let next : revoke_missing ((email, h) ∷ m) b ≡ revoke_missing m (revoke_entry h b) =
              rw e in
            rw next (
              revoke_missing-Settled m (revoke_entry h b) (All-mono (OwnEmail-revoke b h) m o.1)
                (revoke_entry-Settled b email h o.0 e s))
      ]

-- An accepted user of the specs that the digest lets in.
abbrev pub LetIn : (Text → Bytes) → Bytes → Text → UserSpec → Type 0
LetIn sha256 hash email spec =
    (sha256 spec.password ≡ hash) × (spec.email ≡ email) × (spec.email ≢ []) × (spec.password ≢ [])

module _ (sha256 : Text → Bytes) (specs : List UserSpec) (r : Registry) where
  abbrev Listed : Bytes → Text → Type 0
  Listed hash email = Any (LetIn sha256 hash email) specs

  replace-Settled : IsIndexed r → Settled Listed r (replace sha256 specs r)
  unfolding replace
  replace-Settled i =
      let start = record r { by_email = []; by_hash = [] } in
      let built =
        place_specs-Building Listed r sha256 specs start
          (record {
            keeps = i;
            indexed = tt;
            keyed = λ hash h e. absurd (unfold lookup in ground arith);
          })
          (All-mono
            (λ spec f e w. f (LetIn sha256 (sha256 spec.password) spec.email) (refl, refl, e, w))
            specs (All-Any specs)) in
      revoke_missing-Settled Listed r r.by_email (place_specs sha256 r specs start)
        (All-mono (λ x u. u.1) r.by_email built.keeps)
        (record { indexed = built.indexed; keyed = built.keyed })

  -- After a replacement the index lists for every email a user of that name that is not revoked, and a
  -- digest only leads to such a user, one whose email and password stand in the new set: no password
  -- that is not in it authenticates.
  pub replace-lets_in :
      IsIndexed r
      → let t = replace sha256 specs r in
        IsIndexed t
        × ((hash : Bytes) (h : ℕ)
            → lookup hash t.by_hash ≡ some h
            → (email : Text) × IsUser t email h × Any (LetIn sha256 hash email) specs)
  replace-lets_in i =
      let s = replace-Settled i in
      (s.indexed, λ hash h e. let (email, u, p, c) = s.keyed hash h e in (email, u, p))
