-- ===== src/Server/Relay/Charges.antt =====
-- bin/server.rs: what the server's state holds for the user or the client of a connection.
use anytls_rs_legacy.Common.{
  ℕ, ◌+◌, ◌<◌, ◌≡◌, ◌^◌, ◌%◌, Bool, true, Option, none, some, arith, nat_key, Option-cases, inl,
  inr,
}
use anytls_rs_legacy.Common.Int.{saturating_add}
use anytls_rs_legacy.Common.Map.{contains_key, lookup, lookup-update}
use anytls_rs_legacy.Node.Users.{UserEntry, record_up, record_down}
use anytls_rs_legacy.Node.Registry.{AuthedUser}
use anytls_rs_legacy.Panel.TrafficAudit.{
  TrafficAudit, get_upstream_traffic_of, get_downstream_traffic_of, add_upstream_traffic_of,
  add_downstream_traffic_of, add_upstream_traffic, add_downstream_traffic, contain_client,
}
use anytls_rs_legacy.Server.Connection.{
  ConnCtx, ServerState, Authenticator, shared_password, users, on_entry, ctx_record_up,
  ctx_record_down,
}

abbrev pub entry_count : (UserEntry → ℕ) → AuthedUser → Authenticator → ℕ
entry_count f u (shared_password expected) = 0
entry_count f u (users r) = f (r.entries u.entry)

unfoldable pub charged_up : ConnCtx → ServerState → ℕ
charged_up ctx s = elim ctx.user [
  | some u ↦ entry_count (λ e. e.up) u s.authenticator
  | none ↦ elim ctx.client_id [ some id ↦ get_upstream_traffic_of id s.audit | none ↦ 0 ]
]

unfoldable pub charged_down : ConnCtx → ServerState → ℕ
charged_down ctx s = elim ctx.user [
  | some u ↦ entry_count (λ e. e.down) u s.authenticator
  | none ↦ elim ctx.client_id [ some id ↦ get_downstream_traffic_of id s.audit | none ↦ 0 ]
]

-- The count of a user wraps, that of a client stays at its greatest value.
unfoldable pub counted : ConnCtx → ℕ → ℕ → ℕ
counted ctx count n = elim ctx.user [
  | some u ↦ (count + n) % 2 ^ 64
  | none ↦ saturating_add count n
]

abbrev pub IsKnown : Option AuthedUser → Option ℕ → Authenticator → TrafficAudit → Type 0
IsKnown (some u) id (shared_password expected) audit = ⊥
IsKnown (some u) id (users r) audit = Unit
IsKnown none (some id) a audit = contain_client id audit ≡ true
IsKnown none none a audit = ⊥

-- The connection has a user of the registry, or a client of the audit.
unfoldable pub IsCharged : ConnCtx → ServerState → Type 0
IsCharged ctx s = IsKnown ctx.user ctx.client_id s.authenticator s.audit

pub counted-counted :
    (ctx : ConnCtx) (c m n : ℕ) → counted ctx (counted ctx c m) n ≡ counted ctx c (m + n)
unfolding counted
counted-counted ctx c m n = elim (Option-cases ctx.user) [
  | inl e ↦ rw e (omega arith)
  | inr (u, e) ↦ rw e (omega arith)
]

pub counted_zero : (ctx : ConnCtx) (c : ℕ) → c < 2 ^ 64 → counted ctx c 0 ≡ c
unfolding counted
counted_zero ctx c h = elim (Option-cases ctx.user) [
  | inl e ↦ rw e (omega arith)
  | inr (u, e) ↦ rw e (omega arith)
]

abbrev pub Charges : ConnCtx → ServerState → ℕ → ℕ → Type 0
Charges ctx s up down = IsCharged ctx s × (charged_up ctx s ≡ up) × (charged_down ctx s ≡ down)

user_up :
    (n : ℕ) (u : AuthedUser) (a : Authenticator) (audit : TrafficAudit) (id : Option ℕ)
    → IsKnown (some u) id a audit
    → IsKnown (some u) id (on_entry (record_up n) u a) audit
      × (entry_count (λ e. e.up) u (on_entry (record_up n) u a)
          ≡ (entry_count (λ e. e.up) u a + n) % 2 ^ 64)
      × (entry_count (λ e. e.down) u (on_entry (record_up n) u a) ≡ entry_count (λ e. e.down) u a)
unfolding record_up
user_up n u (shared_password expected) audit id h = absurd h
user_up n u (users r) audit id h = (tt, ground arith, ground arith)

client_up :
    (n id : ℕ) (audit : TrafficAudit)
    → contain_client id audit ≡ true
    → (contain_client id (add_upstream_traffic_of id n audit) ≡ true)
      × (get_upstream_traffic_of id (add_upstream_traffic_of id n audit)
          ≡ saturating_add (get_upstream_traffic_of id audit) n)
      × (get_downstream_traffic_of id (add_upstream_traffic_of id n audit)
          ≡ get_downstream_traffic_of id audit)
unfolding contain_client contains_key get_upstream_traffic_of get_downstream_traffic_of
    add_upstream_traffic_of add_upstream_traffic
client_up n id audit h =
    let found = lookup-update id id (add_upstream_traffic n) audit in
    elim (Option-cases (lookup id audit)) [
      | inl e ↦ absurd (ground (arith, h, e))
      | inr (v, e) ↦ (ground (arith, found, e), ground (arith, found, e), ground (arith, found, e))
    ]

charge_up :
    (n : ℕ) (user : Option AuthedUser) (id : Option ℕ) (panel_sync : Bool) (a : Authenticator)
    (audit : TrafficAudit)
    → let ctx : ConnCtx = record { user = user; client_id = id; panel_sync = panel_sync } in
      let s : ServerState = record { authenticator = a; audit = audit } in
      IsKnown user id a audit
      → Charges ctx (ctx_record_up n ctx s) (counted ctx (charged_up ctx s) n) (charged_down ctx s)
unfolding ctx_record_up charged_up charged_down counted IsCharged
charge_up n (some u) id p a audit h = user_up n u a audit id h
charge_up n none (some id) p a audit h = client_up n id audit h
charge_up n none none p a audit h = absurd h

pub ctx_record_up-Charges :
    (n : ℕ) (ctx : ConnCtx) (s : ServerState)
    → IsCharged ctx s
    → Charges ctx (ctx_record_up n ctx s) (counted ctx (charged_up ctx s) n) (charged_down ctx s)
unfolding IsCharged
ctx_record_up-Charges n ctx s h =
    charge_up n ctx.user ctx.client_id ctx.panel_sync s.authenticator s.audit h

user_down :
    (n : ℕ) (u : AuthedUser) (a : Authenticator) (audit : TrafficAudit) (id : Option ℕ)
    → IsKnown (some u) id a audit
    → IsKnown (some u) id (on_entry (record_down n) u a) audit
      × (entry_count (λ e. e.up) u (on_entry (record_down n) u a) ≡ entry_count (λ e. e.up) u a)
      × (entry_count (λ e. e.down) u (on_entry (record_down n) u a)
          ≡ (entry_count (λ e. e.down) u a + n) % 2 ^ 64)
unfolding record_down
user_down n u (shared_password expected) audit id h = absurd h
user_down n u (users r) audit id h = (tt, ground arith, ground arith)

client_down :
    (n id : ℕ) (audit : TrafficAudit)
    → contain_client id audit ≡ true
    → (contain_client id (add_downstream_traffic_of id n audit) ≡ true)
      × (get_upstream_traffic_of id (add_downstream_traffic_of id n audit)
          ≡ get_upstream_traffic_of id audit)
      × (get_downstream_traffic_of id (add_downstream_traffic_of id n audit)
          ≡ saturating_add (get_downstream_traffic_of id audit) n)
unfolding contain_client contains_key get_upstream_traffic_of get_downstream_traffic_of
    add_downstream_traffic_of add_downstream_traffic
client_down n id audit h =
    let found = lookup-update id id (add_downstream_traffic n) audit in
    elim (Option-cases (lookup id audit)) [
      | inl e ↦ absurd (ground (arith, h, e))
      | inr (v, e) ↦ (ground (arith, found, e), ground (arith, found, e), ground (arith, found, e))
    ]

charge_down :
    (n : ℕ) (user : Option AuthedUser) (id : Option ℕ) (panel_sync : Bool) (a : Authenticator)
    (audit : TrafficAudit)
    → let ctx : ConnCtx = record { user = user; client_id = id; panel_sync = panel_sync } in
      let s : ServerState = record { authenticator = a; audit = audit } in
      IsKnown user id a audit
      → Charges ctx
          (ctx_record_down n ctx s)
          (charged_up ctx s)
          (counted ctx (charged_down ctx s) n)
unfolding ctx_record_down charged_up charged_down counted IsCharged
charge_down n (some u) id p a audit h = user_down n u a audit id h
charge_down n none (some id) p a audit h = client_down n id audit h
charge_down n none none p a audit h = absurd h

pub ctx_record_down-Charges :
    (n : ℕ) (ctx : ConnCtx) (s : ServerState)
    → IsCharged ctx s
    → Charges ctx (ctx_record_down n ctx s) (charged_up ctx s) (counted ctx (charged_down ctx s) n)
unfolding IsCharged
ctx_record_down-Charges n ctx s h =
    charge_down n ctx.user ctx.client_id ctx.panel_sync s.authenticator s.audit h
