-- ===== src/Examples/Registry.antt =====
-- The theorems on the replacement of the users of a node at concrete inputs.
use anytls_rs_legacy.Common.{
  ℕ, ◌≡◌, ◌≢◌, refl, some, [], ◌∷◌, true, Any, Text, arith, text_key, text_same,
}
use anytls_rs_legacy.Common.Int.{pos}
use anytls_rs_legacy.Common.Bytes.{Bytes}
use anytls_rs_legacy.Common.Map.{lookup, contains_key, insert}
use anytls_rs_legacy.Node.Users.{UserSpec, revoked, new_entry, apply_limits, revoke}
use anytls_rs_legacy.Node.Registry.{
  Registry, new_registry, replace, place_specs, place_spec, place_user, revoke_missing, deny_reason,
  rekey,
}
use anytls_rs_legacy.Node.Registry.Replace.{IsIndexed, IsUser, LetIn, replace-lets_in}
use anytls_rs_legacy.Node.Registry.Revocation.{replace-revokes}
use anytls_rs_legacy.Node.Registry.Keeping.{replace-keeps}

-- A digest that keeps the characters of the password.
abbrev digest : Text → Bytes
digest password = password

abbrev ada : UserSpec
ada = record { email = 1 ∷ []; password = 7 ∷ []; quota_bytes = 100; expires_unix = pos 0 }

abbrev bob : UserSpec
bob = record { email = 2 ∷ []; password = 8 ∷ []; quota_bytes = 0; expires_unix = pos 0 }

abbrev both : Registry
both = replace digest (ada ∷ bob ∷ []) new_registry

both-IsIndexed : IsIndexed both
both-IsIndexed = (replace-lets_in digest (ada ∷ bob ∷ []) new_registry tt).0

replace-lets_in_example :
    IsIndexed (replace digest (ada ∷ []) both)
    × ((hash : Bytes) (h : ℕ)
        → lookup hash (replace digest (ada ∷ []) both).by_hash ≡ some h
        → (email : Text) × IsUser (replace digest (ada ∷ []) both) email h
          × Any (LetIn digest hash email) (ada ∷ []))
replace-lets_in_example = replace-lets_in digest (ada ∷ []) both both-IsIndexed

bob-found : lookup (2 ∷ []) both.by_email ≡ some 1
unfolding replace place_specs place_spec place_user revoke_missing lookup insert contains_key
    text_same new_entry apply_limits rekey revoke
bob-found = refl

ada-found : lookup (1 ∷ []) both.by_email ≡ some 0
unfolding replace place_specs place_spec place_user revoke_missing lookup insert contains_key
    text_same new_entry apply_limits rekey revoke
ada-found = refl

replace-revokes_example :
    deny_reason (pos 5) (record { entry = 1; generation = 0 }) (replace digest (ada ∷ []) both)
    ≡ some revoked
replace-revokes_example =
    replace-revokes digest (ada ∷ []) both (2 ∷ []) 1 0 (pos 5) bob-found ((λ e. ground arith), tt)

ada-generation : (both.entries 0).generation ≡ 0
unfolding replace place_specs place_spec place_user revoke_missing lookup insert contains_key
    text_same new_entry apply_limits rekey revoke
ada-generation = refl

ada-password : lookup (digest (7 ∷ [])) both.by_hash ≡ some 0
unfolding replace place_specs place_spec place_user revoke_missing lookup insert contains_key
    text_same new_entry apply_limits rekey revoke
ada-password = refl

ada-stays : contains_key (1 ∷ []) (replace digest (ada ∷ []) both).by_email ≡ true
unfolding replace place_specs place_spec place_user revoke_missing lookup insert contains_key
    text_same new_entry apply_limits rekey revoke
ada-stays = refl

replace-keeps_example :
    (lookup (1 ∷ []) (replace digest (ada ∷ []) both).by_email ≡ some 0)
    × (deny_reason (pos 5) (record { entry = 0; generation = 0 }) (replace digest (ada ∷ []) both)
        ≢ some revoked)
replace-keeps_example =
    replace-keeps digest (ada ∷ []) both (1 ∷ []) (record { entry = 0; generation = 0 }) (pos 5)
      both-IsIndexed ada-found ada-generation ((λ e. ada-password), tt) ada-stays
