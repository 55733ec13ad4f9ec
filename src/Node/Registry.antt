-- ===== src/Node/Registry.antt =====
-- src/node_api/users.rs, `UserRegistry` and `AuthedUser`. Entries are shared with the connections that
-- authenticated, so they live in a store of handles; the two maps of the index hold handles. The digest
-- of a password (crate sha2) is a parameter. A call runs under the lock of the index. A count of open
-- connections cannot reach the end of an `i64`.
pub mod Replace
pub mod Revocation
pub mod Keeping
use anytls_rs_legacy.Common.{
  zero, suc, ℕ, ◌+◌, ◌-◌, ◌%◌, ◌^◌, Bool, true, false, not, ◌&&◌, ◌||◌, Option, none, some, List,
  [], ◌∷◌, length, ◌==◌, if◌then◌else◌, Text, text_key,
}
use anytls_rs_legacy.Common.Int.{ℤ, pos, negsuc}
use anytls_rs_legacy.Common.Bytes.{Bytes}
use anytls_rs_legacy.Common.Map.{Map, lookup, insert, contains_key}
use anytls_rs_legacy.Node.Users.{
  UserSpec, UserEntry, DenyReason, revoked, new_entry, apply_limits, revoke, deny_reason_at,
}

abbrev pub password_hash_len : ℕ
password_hash_len = 32

abbrev pub Entries : Type 0
Entries = ℕ → UserEntry

abbrev pub put_entry : ℕ → UserEntry → Entries → Entries
put_entry h e entries k = if k == h then e else entries k

pub record Registry : Type 0 where
  pub entries : Entries
  pub next_handle : ℕ
  pub by_email : Map Text ℕ
  pub by_hash : Map Bytes ℕ

-- A connection's hold on its user: the entry, and the generation seen when it authenticated.
pub record AuthedUser : Type 0 where
  pub entry : ℕ
  pub generation : ℕ

abbrev pub add_one : ℤ → ℤ
add_one (pos n) = pos (n + 1)
add_one (negsuc zero) = pos 0
add_one (negsuc (suc n)) = negsuc n

abbrev pub sub_one : ℤ → ℤ
sub_one (pos zero) = negsuc 0
sub_one (pos (suc n)) = pos n
sub_one (negsuc n) = negsuc (n + 1)

abbrev pub count_connection : (ℤ → ℤ) → ℕ → Registry → Registry
count_connection f h r =
    let e = r.entries h in
    record r { entries = put_entry h (record e { connections = f e.connections }) r.entries }

unfoldable pub new_authed_user : Registry → ℕ → Registry × AuthedUser
new_authed_user r h =
    (count_connection add_one h r, record { entry = h; generation = (r.entries h).generation })

unfoldable pub drop_authed_user : AuthedUser → Registry → Registry
drop_authed_user u r = count_connection sub_one u.entry r

unfoldable pub deny_reason : ℤ → AuthedUser → Registry → Option DenyReason
deny_reason now u r =
    if not ((r.entries u.entry).generation == u.generation)
    then some revoked
    else deny_reason_at now (r.entries u.entry)

-- The source gives up the lock of the index before it looks at the user's limits; here nothing comes between.
unfoldable pub authenticate : ℤ → Bytes → Registry → Registry × Option AuthedUser
authenticate now password_hash r =
    if not (length password_hash == password_hash_len)
    then (r, none)
    else elim (lookup password_hash r.by_hash) [
      | none ↦ (r, none)
      | some h ↦ elim (deny_reason_at now (r.entries h)) [
        | some reason ↦ (r, none)
        | none ↦ let (s, u) = new_authed_user r h in (s, some u)
      ]
    ]

abbrev pub is_empty_text : Text → Bool
is_empty_text [] = true
is_empty_text (c ∷ cs) = false

abbrev pub same_handle : Option ℕ → ℕ → Bool
same_handle none h = false
same_handle (some k) h = k == h

abbrev pub index_user : Registry → ℕ → UserEntry → Text → Bytes → Registry
index_user b h e email hash = record b {
  entries = put_entry h e b.entries;
  by_email = insert email h b.by_email;
  by_hash = insert hash h b.by_hash;
}

unfoldable pub rekey : Bool → UserEntry → UserEntry
rekey rekeyed e = if rekeyed then record e { generation = (e.generation + 1) % 2 ^ 64 } else e

-- The second loop: the users of the old index that the new one lacks.
unfoldable pub revoke_missing : Map Text ℕ → Registry → Registry
revoke_missing [] b = b
revoke_missing ((email, h) ∷ old) b = revoke_missing old (
    if contains_key email b.by_email
    then b
    else record b { entries = put_entry h (revoke (b.entries h)) b.entries })

module _ (sha256 : Text → Bytes) where
  -- A spec that is not skipped: it takes over the entry of its email, or makes one.
  unfoldable pub place_user : Registry → UserSpec → Registry → Registry
  place_user old spec b =
      let hash = sha256 spec.password in
      elim (lookup spec.email old.by_email) [
        | some h ↦
            let rekeyed = not (same_handle (lookup hash old.by_hash) h) in
            index_user b h (rekey rekeyed (apply_limits spec (b.entries h))) spec.email hash
        | none ↦
            index_user (record b { next_handle = b.next_handle + 1 }) b.next_handle (new_entry spec)
              spec.email hash
      ]

  -- The body of the first loop of `replace`: `old` is the index, `b` the maps that are built.
  unfoldable pub place_spec : Registry → UserSpec → Registry → Registry
  place_spec old spec b =
      if is_empty_text spec.email || is_empty_text spec.password
      then b
      else if contains_key (sha256 spec.password) b.by_hash
      then b
      else place_user old spec b

  unfoldable pub place_specs : Registry → List UserSpec → Registry → Registry
  place_specs old [] b = b
  place_specs old (spec ∷ specs) b = place_specs old specs (place_spec old spec b)

  unfoldable pub replace : List UserSpec → Registry → Registry
  replace specs r =
      revoke_missing r.by_email (place_specs r specs (record r { by_email = []; by_hash = [] }))

abbrev pub new_registry : Registry
new_registry = record {
  entries =
      λ h. new_entry (record { email = []; password = []; quota_bytes = 0; expires_unix = pos 0 });
  next_handle = 0;
  by_email = [];
  by_hash = [];
}
