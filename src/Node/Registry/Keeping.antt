-- ===== src/Node/Registry/Keeping.antt =====
-- src/node_api/users.rs, `replace`: the users that stay, with the password that they had.
use anytls_rs_legacy.Common.{
  ◌⊎◌, none, ℕ, ◌<◌, ◌≤◌, ◌≡◌, ◌≢◌, refl, ◌∙◌, inl, inr, true, some, List, [], ◌∷◌, arith, All,
  Option-cases, Text, text_key, text_same_iff,
}
use anytls_rs_legacy.Common.Int.{ℤ}
use anytls_rs_legacy.Common.Bytes.{Bytes}
use anytls_rs_legacy.Common.Map.{Map, lookup, contains_key, lookup-insert, All-lookup}
use anytls_rs_legacy.Node.Users.{UserSpec, revoked, apply_limits, revoke, deny_reason_at}
use anytls_rs_legacy.Node.Registry.{
  AuthedUser, Registry, rekey, place_user, place_spec, place_specs, revoke_missing, replace,
  deny_reason,
}
use anytls_rs_legacy.Node.Registry.Replace.{replace-lets_in, OwnUser, IsIndexed}
use anytls_rs_legacy.Node.Registry.Revocation.{revoke_absent, revoke_absent-by_email}

module _ (sha256 : Text → Bytes) (old : Registry) (email : Text) (h : ℕ) (indexed : IsIndexed old)
    (here : lookup email old.by_email ≡ some h) where
  -- The specs that carry the email carry the password that led to the user before.
  abbrev Unchanged : UserSpec → Type 0
  Unchanged spec = spec.email ≡ email → lookup (sha256 spec.password) old.by_hash ≡ some h

  abbrev Same : Registry → Registry → Type 0
  Same b t =
      ((t.entries h).generation ≡ (b.entries h).generation)
      × ((t.entries h).is_revoked ≡ (b.entries h).is_revoked)
      × (b.next_handle ≤ t.next_handle)

  place_spec-Same :
      (spec : UserSpec) (b : Registry)
      → h < b.next_handle
      → Unchanged spec
      → Same b (place_spec sha256 old spec b)
  unfolding place_spec place_user rekey apply_limits
  place_spec-Same spec b l u = elim (Option-cases (lookup spec.email old.by_email)) [
    | inl e ↦ ground (arith, e)
    | inr (k, e) ↦
        let own = All-lookup (OwnUser old) spec.email k old.by_email indexed e in
        let mine = All-lookup (OwnUser old) email h old.by_email indexed here in
        ground (arith, e, own, mine, u)
  ]

  place_specs-Same :
      (specs : List UserSpec) (b : Registry)
      → h < b.next_handle
      → All Unchanged specs
      → Same b (place_specs sha256 old specs b)
  unfolding place_specs
  place_specs-Same [] b l u = (refl, refl, omega arith)
  place_specs-Same (spec ∷ specs) b l u =
      let (g, r, n) = place_spec-Same spec b l u.0 in
      let (g', r', n') = place_specs-Same specs (place_spec sha256 old spec b) (omega arith) u.1 in
      (g' ∙ g, r' ∙ r, omega arith)

  revoke_missing-generation :
      (m : Map Text ℕ) (b : Registry)
      → ((revoke_missing m b).entries h).generation ≡ (b.entries h).generation
  unfolding revoke_missing revoke
  revoke_missing-generation [] b = refl
  revoke_missing-generation ((name, k) ∷ m) b =
      revoke_missing-generation m (revoke_absent name k b) ∙ ground arith

  abbrev Handle : Registry → Type 0
  Handle b = (lookup email b.by_email ≡ none) ⊎ (lookup email b.by_email ≡ some h)

  lookup-place_spec :
      (spec : UserSpec) (b : Registry) → Handle b → Handle (place_spec sha256 old spec b)
  unfolding place_spec place_user
  lookup-place_spec spec b o =
      let name = text_same_iff spec.email email in
      elim (Option-cases (lookup spec.email old.by_email)) [
        | inl e ↦
            ground (arith, e, here, name, lookup-insert spec.email email b.next_handle b.by_email)
        | inr (k, e) ↦ ground (arith, e, here, name, lookup-insert spec.email email k b.by_email)
      ]

  lookup-place_specs :
      (specs : List UserSpec) (b : Registry) → Handle b → Handle (place_specs sha256 old specs b)
  unfolding place_specs
  lookup-place_specs [] b o = o
  lookup-place_specs (spec ∷ specs) b o =
      lookup-place_specs specs (place_spec sha256 old spec b) (lookup-place_spec spec b o)

revoke_missing-by_email :
    (m : Map Text ℕ) (b : Registry) → (revoke_missing m b).by_email ≡ b.by_email
unfolding revoke_missing
revoke_missing-by_email [] b = refl
revoke_missing-by_email ((email, h) ∷ m) b =
    revoke_missing-by_email m (revoke_absent email h b) ∙ revoke_absent-by_email email h b

-- A user that is still listed, and whose password stays what it was, keeps its entry, and a connection
-- that was not retired before is not denied as revoked.
pub replace-keeps :
    (sha256 : Text → Bytes) (specs : List UserSpec) (r : Registry) (email : Text) (u : AuthedUser)
    (now : ℤ)
    → IsIndexed r
    → lookup email r.by_email ≡ some u.entry
    → (r.entries u.entry).generation ≡ u.generation
    → All
        (λ spec. spec.email ≡ email → lookup (sha256 spec.password) r.by_hash ≡ some u.entry)
        specs
    → contains_key email (replace sha256 specs r).by_email ≡ true
    → let t = replace sha256 specs r in
      (lookup email t.by_email ≡ some u.entry) × (deny_reason now u t ≢ some revoked)
unfolding replace deny_reason deny_reason_at
replace-keeps sha256 specs r email u now i e g un c =
    let start = record r { by_email = []; by_hash = [] } in
    let placed = place_specs sha256 r specs start in
    let t = revoke_missing r.by_email placed in
    let below = (All-lookup (OwnUser r) email u.entry r.by_email i e).0 in
    let same = place_specs-Same sha256 r email u.entry i e specs start below un in
    let kept = revoke_missing-generation sha256 r email u.entry i e r.by_email placed in
    let handle =
      lookup-place_specs sha256 r email u.entry i e specs start (inl (unfold lookup in refl)) in
    let found : lookup email t.by_email ≡ some u.entry =
      unfold contains_key in ground (arith, revoke_missing-by_email r.by_email placed) in
    let live =
      All-lookup (OwnUser t) email u.entry t.by_email ((replace-lets_in sha256 specs r i).0)
        found in
    (found, λ d. ground (arith, kept, same, live, g))
