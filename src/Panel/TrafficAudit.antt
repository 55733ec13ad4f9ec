-- ===== src/Panel/TrafficAudit.antt =====
-- src/panel_sync/traffic_audit.rs: the traffic of each client. A client's UUID is a number, and a count
-- is a `u64` that stays at its greatest value.
pub mod PerClient
use anytls_rs_legacy.Common.{
  ℕ, ◌+◌, ◌-◌, ◌^◌, min, Bool, true, false, Option, none, some, List, [], ◌∷◌, nat_key,
}
use anytls_rs_legacy.Common.Int.{saturating_add}
use anytls_rs_legacy.Common.Map.{Map, lookup, insert, remove, contains_key, update, update_all}

pub record ClientNode : Type 0 where
  pub enable : Bool
  pub upstream_traffic : ℕ
  pub downstream_traffic : ℕ

abbrev pub default_node : ClientNode
default_node = record { enable = false; upstream_traffic = 0; downstream_traffic = 0 }

unfoldable pub add_upstream_traffic : ℕ → ClientNode → ClientNode
add_upstream_traffic traffic n = record n {
  upstream_traffic = saturating_add n.upstream_traffic traffic;
}

unfoldable pub add_downstream_traffic : ℕ → ClientNode → ClientNode
add_downstream_traffic traffic n = record n {
  downstream_traffic = saturating_add n.downstream_traffic traffic;
}

unfoldable pub get_total_traffic : ClientNode → ℕ
get_total_traffic n = saturating_add n.upstream_traffic n.downstream_traffic

unfoldable pub set_enable : Bool → ClientNode → ClientNode
set_enable enable n = record n { enable = enable }

unfoldable pub reset_upstream_traffic : ClientNode → ClientNode
reset_upstream_traffic n = record n { upstream_traffic = 0 }

unfoldable pub reset_downstream_traffic : ClientNode → ClientNode
reset_downstream_traffic n = record n { downstream_traffic = 0 }

unfoldable pub reset_node : ClientNode → ClientNode
reset_node n = record n { upstream_traffic = 0; downstream_traffic = 0 }

abbrev pub TrafficAudit : Type 0
TrafficAudit = Map ℕ ClientNode

-- `entry(id).or_default()`.
unfoldable pub add_client : ℕ → TrafficAudit → TrafficAudit
add_client id m = elim (lookup id m) [ some n ↦ m | none ↦ insert id default_node m ]

unfoldable pub remove_client : ℕ → TrafficAudit → TrafficAudit
remove_client id m = remove id m

unfoldable pub contain_client : ℕ → TrafficAudit → Bool
contain_client id m = contains_key id m

unfoldable pub add_upstream_traffic_of : ℕ → ℕ → TrafficAudit → TrafficAudit
add_upstream_traffic_of id traffic m = update id (add_upstream_traffic traffic) m

unfoldable pub add_downstream_traffic_of : ℕ → ℕ → TrafficAudit → TrafficAudit
add_downstream_traffic_of id traffic m = update id (add_downstream_traffic traffic) m

abbrev pub map_or_zero : (ClientNode → ℕ) → Option ClientNode → ℕ
map_or_zero f none = 0
map_or_zero f (some n) = f n

unfoldable pub get_upstream_traffic_of : ℕ → TrafficAudit → ℕ
get_upstream_traffic_of id m = map_or_zero (λ n. n.upstream_traffic) (lookup id m)

unfoldable pub get_downstream_traffic_of : ℕ → TrafficAudit → ℕ
get_downstream_traffic_of id m = map_or_zero (λ n. n.downstream_traffic) (lookup id m)

unfoldable pub get_traffic_of : ℕ → TrafficAudit → ℕ
get_traffic_of id m = map_or_zero get_total_traffic (lookup id m)

unfoldable pub set_enable_of : ℕ → Bool → TrafficAudit → TrafficAudit
set_enable_of id enable m = update id (set_enable enable) (add_client id m)

unfoldable pub get_enable_of : ℕ → TrafficAudit → Bool
get_enable_of id m = elim (lookup id m) [ some n ↦ n.enable | none ↦ false ]

unfoldable pub reset : TrafficAudit → TrafficAudit
reset m = update_all reset_node m

unfoldable pub reset_of : ℕ → TrafficAudit → TrafficAudit
reset_of id m = update id reset_node m

unfoldable pub reset_all_upstream : TrafficAudit → TrafficAudit
reset_all_upstream m = update_all reset_upstream_traffic m

unfoldable pub reset_all_downstream : TrafficAudit → TrafficAudit
reset_all_downstream m = update_all reset_downstream_traffic m

unfoldable pub reset_upstream_traffic_of : ℕ → TrafficAudit → TrafficAudit
reset_upstream_traffic_of id m = update id reset_upstream_traffic m

unfoldable pub reset_downstream_traffic_of : ℕ → TrafficAudit → TrafficAudit
reset_downstream_traffic_of id m = update id reset_downstream_traffic m
