-- ===== src/Panel/Sync/Users.antt =====
-- src/panel_sync/core.rs, `sync_once`: the clients after a synchronisation are those that the panel names.
use anytls_rs_legacy.Common.{
  ok, err, Text, Result, inr, inl, Option-cases, Bool-cases, ℕ, ◌≡◌, refl, Bool, true, false, not,
  ◌&&◌, ◌||◌, Option, none, some, List, [], ◌∷◌, ◌==◌, if◌then◌else◌, arith, nat_key,
}
use anytls_rs_legacy.Common.Map.{
  Map, lookup, remove, contains_key, lookup-insert, lookup-update, lookup-remove,
}
use anytls_rs_legacy.Panel.TrafficAudit.{
  ClientNode, default_node, TrafficAudit, add_client, set_enable, set_enable_of, remove_client,
}
use anytls_rs_legacy.Panel.TrafficAudit.PerClient.{known}
use anytls_rs_legacy.Panel.Sync.{
  fetch_sync_payload, Response, ℤ, sync_with, PanelSyncClient, sync_once, SyncUser, contains,
  get_client_list, sync_user, sync_users, drop_unseen, apply_users,
}

-- What the last entry of a client says, if there is one.
abbrev pub wanted : ℕ → List SyncUser → Option Bool
wanted id [] = none
wanted id (user ∷ users) = elim (wanted id users) [
  | some e ↦ some e
  | none ↦ elim user.client_id [ none ↦ none | some j ↦ if j == id then some user.enable else none ]
]

-- A client that is named keeps its counts, or starts at zero.
abbrev pub named : Option Bool → Option ClientNode → Option ClientNode
named none o = o
named (some e) o = some (set_enable e (known o))

abbrev pub is_some : Option Bool → Bool
is_some none = false
is_some (some e) = true

add_client-lookup :
    (id j : ℕ) (audit : TrafficAudit)
    → lookup id (add_client j audit)
      ≡ (if j == id then some (known (lookup j audit)) else lookup id audit)
unfolding add_client
add_client-lookup id j audit = elim (Option-cases (lookup j audit)) [
  | inl e ↦ rw (e, add_client) (lookup-insert j id default_node audit)
  | inr (n, e) ↦ ground (arith, e)
]

set_enable_of-lookup :
    (id j : ℕ) (e : Bool) (audit : TrafficAudit)
    → lookup id (set_enable_of j e (add_client j audit))
      ≡ named (if j == id then some e else none) (lookup id audit)
unfolding set_enable_of
set_enable_of-lookup id j e audit =
    let first = add_client-lookup id j audit in
    let second = add_client-lookup id j (add_client j audit) in
    let same = add_client-lookup j j audit in
    let change = lookup-update j id (set_enable e) (add_client j (add_client j audit)) in
    ground (arith, first, second, same, change)

-- One entry: what it does to a client, and whether it marks it as seen.
sync_user-lookup :
    (id : ℕ) (user : SyncUser) (audit : TrafficAudit) (seen : List ℕ)
    → (lookup id (sync_user user (audit, seen)).0 ≡ named (wanted id (user ∷ [])) (lookup id audit))
      × (contains id (sync_user user (audit, seen)).1
          ≡ (is_some (wanted id (user ∷ [])) || contains id seen))
unfolding contains
sync_user-lookup id user audit seen = elim (Option-cases user.client_id) [
  | inl e ↦ rw e (refl, refl)
  | inr (j, e) ↦ rw e (set_enable_of-lookup id j user.enable audit, ground arith)
]

sync_users-lookup :
    (id : ℕ) (users : List SyncUser) (audit : TrafficAudit) (seen : List ℕ)
    → (lookup id (sync_users users (audit, seen)).0 ≡ named (wanted id users) (lookup id audit))
      × (contains id (sync_users users (audit, seen)).1
          ≡ (is_some (wanted id users) || contains id seen))
unfolding sync_users set_enable
sync_users-lookup id [] audit seen = (refl, refl)
sync_users-lookup id (user ∷ users) audit seen =
    let next = sync_user user (audit, seen) in
    let one = sync_user-lookup id user audit seen in
    let rest = sync_users-lookup id users next.0 next.1 in
    elim (Option-cases (wanted id users)) [
      | inl e ↦ ground (arith, one, rest, e)
      | inr (b, e) ↦ ground (arith, one, rest, e)
    ]

drop_unseen-lookup :
    (id : ℕ) (ids seen : List ℕ) (reported : Map ℕ (ℕ × ℕ)) (audit : TrafficAudit)
    → let gone = contains id ids && not (contains id seen) in
      (lookup id (drop_unseen ids seen (reported, audit)).0
        ≡ (if gone then none else lookup id reported))
      × (lookup id (drop_unseen ids seen (reported, audit)).1
          ≡ (if gone then none else lookup id audit))
unfolding drop_unseen contains remove_client
drop_unseen-lookup id [] seen reported audit = (refl, refl)
drop_unseen-lookup id (j ∷ ids) seen reported audit = elim (Bool-cases (contains j seen)) [
  | inl e ↦
      let rest = drop_unseen-lookup id ids seen reported audit in
      rw (e, drop_unseen) (ground (arith, rest, e))
  | inr e ↦
      let rest = drop_unseen-lookup id ids seen (remove j reported) (remove j audit) in
      rw (e, drop_unseen)
        (ground (arith, rest, e, lookup-remove j id reported, lookup-remove j id audit))
]

pub get_client_list-contains :
    (id : ℕ) (audit : TrafficAudit) → contains id (get_client_list audit) ≡ contains_key id audit
unfolding get_client_list contains contains_key lookup
get_client_list-contains id [] = refl
get_client_list-contains id ((j, n) ∷ audit) = ground (arith, get_client_list-contains id audit)

pub apply_users-lookup :
    (id : ℕ) (users : List SyncUser) (reported : Map ℕ (ℕ × ℕ)) (audit : TrafficAudit)
    → let (r, synced) = apply_users users reported audit in
      (lookup id synced
        ≡ elim (wanted id users) [ none ↦ none | some e ↦ named (some e) (lookup id audit) ])
      × (lookup id r ≡ (
          if contains_key id audit && not (is_some (wanted id users))
          then none
          else lookup id reported))
unfolding apply_users contains_key
apply_users-lookup id users reported audit =
    let s = sync_users users (audit, []) in
    let synced = sync_users-lookup id users audit [] in
    let listed = get_client_list-contains id audit in
    let dropped = drop_unseen-lookup id (get_client_list audit) s.1 reported s.0 in
    let nothing : contains id [] ≡ false = unfold contains in refl in
    elim (Option-cases (wanted id users)) [
      | inl e ↦ elim (Option-cases (lookup id audit)) [
        | inl f ↦ ground (arith, synced, listed, dropped, nothing, e, f)
        | inr (n, f) ↦ ground (arith, synced, listed, dropped, nothing, e, f)
      ]
      | inr (b, e) ↦ ground (arith, synced, listed, dropped, nothing, e)
    ]

-- What a synchronisation comes to, by what was fetched.
abbrev pub IsSynced :
    Result (List SyncUser)
    → PanelSyncClient
    → TrafficAudit
    → (PanelSyncClient × TrafficAudit) × Result {0} Unit
    → Type 0
IsSynced (err e) c audit t = t ≡ ((c, audit), err e)
IsSynced (ok users) c audit ((d, synced), r) =
    (r ≡ ok tt)
    × ((id : ℕ)
        → lookup id synced
          ≡ elim (wanted id users) [ none ↦ none | some e ↦ named (some e) (lookup id audit) ])

-- A synchronisation that fails changes nothing. One that succeeds leaves exactly the clients that the
-- panel names, each enabled as its last entry says, with the counts that it had, or zero if it is new.
pub sync_once-IsSynced :
    (Value : Type 0) (get_member : Text → Value → Option Value) (as_i64 : Value → Option ℤ)
    (users_of_value : Value → Result (List SyncUser)) (http_get : Text → Result (Response Value))
    (c : PanelSyncClient) (audit : TrafficAudit)
    → IsSynced
        (fetch_sync_payload Value get_member as_i64 http_get users_of_value c.config)
        c
        audit
        (sync_once Value get_member as_i64 users_of_value http_get c audit)
unfolding sync_once sync_with
sync_once-IsSynced Value get_member as_i64 users_of_value http_get c audit =
    sync_with-IsSynced (fetch_sync_payload Value get_member as_i64 http_get users_of_value c.config)
  where
    sync_with-IsSynced :
        (fetched : Result (List SyncUser)) → IsSynced fetched c audit (sync_with fetched c audit)
    sync_with-IsSynced (err e) = refl
    sync_with-IsSynced (ok users) =
        (refl, λ id. (apply_users-lookup id users c.reported_traffic audit).0)
