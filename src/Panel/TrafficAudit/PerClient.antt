-- ===== src/Panel/TrafficAudit/PerClient.antt =====
-- src/panel_sync/traffic_audit.rs: what is counted for a client depends on that client's calls alone.
use anytls_rs_legacy.Common.{
  ℕ, ◌≡◌, refl, Bool, Option, none, some, List, [], ◌∷◌, arith, ◌==◌, nat_key, if◌then◌else◌,
}
use anytls_rs_legacy.Common.Map.{
  lookup, change, lookup-insert, lookup-remove, lookup-update, lookup-update_all,
}
use anytls_rs_legacy.Panel.TrafficAudit.{
  ClientNode, default_node, add_upstream_traffic, add_downstream_traffic, set_enable,
  reset_upstream_traffic, reset_downstream_traffic, reset_node, TrafficAudit, add_client,
  remove_client, add_upstream_traffic_of, add_downstream_traffic_of, set_enable_of, reset, reset_of,
  reset_all_upstream, reset_all_downstream, reset_upstream_traffic_of, reset_downstream_traffic_of,
}

-- The calls that change the audit: those for one client, and those for all.
pub data Change : Type 0 where
  adds removes clears clears_up clears_down : Change
  ups downs : ℕ → Change
  enables : Bool → Change

pub data AuditCall : Type 0 where
  one : ℕ → Change → AuditCall
  all_clear all_clear_up all_clear_down : AuditCall

unfoldable pub audit : AuditCall → TrafficAudit → TrafficAudit
audit (one id adds) m = add_client id m
audit (one id removes) m = remove_client id m
audit (one id clears) m = reset_of id m
audit (one id clears_up) m = reset_upstream_traffic_of id m
audit (one id clears_down) m = reset_downstream_traffic_of id m
audit (one id (ups n)) m = add_upstream_traffic_of id n m
audit (one id (downs n)) m = add_downstream_traffic_of id n m
audit (one id (enables b)) m = set_enable_of id b m
audit all_clear m = reset m
audit all_clear_up m = reset_all_upstream m
audit all_clear_down m = reset_all_downstream m

unfoldable pub audits : List AuditCall → TrafficAudit → TrafficAudit
audits [] m = m
audits (c ∷ cs) m = audits cs (audit c m)

abbrev pub known : Option ClientNode → ClientNode
known none = default_node
known (some n) = n

-- One client on its own: unknown, or its node.
abbrev pub alone : Change → Option ClientNode → Option ClientNode
alone adds o = some (known o)
alone removes o = none
alone clears o = change reset_node o
alone clears_up o = change reset_upstream_traffic o
alone clears_down o = change reset_downstream_traffic o
alone (ups n) o = change (add_upstream_traffic n) o
alone (downs n) o = change (add_downstream_traffic n) o
alone (enables b) o = some (set_enable b (known o))

abbrev pub seen : ℕ → AuditCall → Option ClientNode → Option ClientNode
seen id (one j c) o = if j == id then alone c o else o
seen id all_clear o = alone clears o
seen id all_clear_up o = alone clears_up o
seen id all_clear_down o = alone clears_down o

unfoldable pub seen_all : ℕ → List AuditCall → Option ClientNode → Option ClientNode
seen_all id [] o = o
seen_all id (c ∷ cs) o = seen_all id cs (seen id c o)

lookup-add_client :
    (j id : ℕ) (m : TrafficAudit)
    → lookup id (add_client j m) ≡ (if j == id then some (known (lookup id m)) else lookup id m)
unfolding add_client
lookup-add_client j id m = ground (arith, lookup-insert j id default_node m)

lookup-audit :
    (id : ℕ) (c : AuditCall) (m : TrafficAudit) → lookup id (audit c m) ≡ seen id c (lookup id m)
unfolding audit remove_client reset_of reset_upstream_traffic_of reset_downstream_traffic_of
    add_upstream_traffic_of add_downstream_traffic_of set_enable_of reset reset_all_upstream
    reset_all_downstream
lookup-audit id (one j adds) m = lookup-add_client j id m
lookup-audit id (one j removes) m = lookup-remove j id m
lookup-audit id (one j clears) m = lookup-update j id reset_node m
lookup-audit id (one j clears_up) m = lookup-update j id reset_upstream_traffic m
lookup-audit id (one j clears_down) m = lookup-update j id reset_downstream_traffic m
lookup-audit id (one j (ups n)) m = lookup-update j id (add_upstream_traffic n) m
lookup-audit id (one j (downs n)) m = lookup-update j id (add_downstream_traffic n) m
lookup-audit id (one j (enables b)) m =
    ground (arith, lookup-update j id (set_enable b) (add_client j m), lookup-add_client j id m)
lookup-audit id all_clear m = lookup-update_all id reset_node m
lookup-audit id all_clear_up m = lookup-update_all id reset_upstream_traffic m
lookup-audit id all_clear_down m = lookup-update_all id reset_downstream_traffic m

-- After any calls, the audit holds for a client what that client's own calls, and those for all
-- clients, make of what it held before.
pub lookup-audits :
    (id : ℕ) (cs : List AuditCall) (m : TrafficAudit)
    → lookup id (audits cs m) ≡ seen_all id cs (lookup id m)
unfolding audits seen_all
lookup-audits id [] m = refl
lookup-audits id (c ∷ cs) m = rw (lookup-audits id cs (audit c m), lookup-audit id c m)
