-- ===== src/Panel/Sync/Billing/Steps.antt =====
-- src/panel_sync/core.rs, `run`: the bill over any sequence of traffic, synchronisations and reports.
use anytls_rs_legacy.Common.{
  ℕ, ◌+◌, ◌≤◌, Option, List, [], ◌∷◌, ◌==◌, if◌then◌else◌, Result, ok, err, nat_key, Text,
}
use anytls_rs_legacy.Common.Int.{ℤ}
use anytls_rs_legacy.Common.Map.{Map, IsUnique}
use anytls_rs_legacy.Panel.TrafficAudit.{
  contain_client, TrafficAudit, add_upstream_traffic_of, add_downstream_traffic_of,
}
use anytls_rs_legacy.Panel.Sync.{
  Response, SyncUser, Traffic, PanelSyncClient, report_traffic_once, sync_once,
}
use anytls_rs_legacy.Panel.Sync.Billing.{told, due}
use anytls_rs_legacy.Panel.Sync.Billing.Reports.{sent}

-- What happens to the audit and to the client of the panel, with the responses of the panel.
pub data Event (Value : Type 0) : Type 0 where
  went_up went_down : ℕ → ℕ → Event Value
  syncs : (Text → Result (Response Value)) → Event Value
  reports : (Text → List Traffic → Result (Response Value)) → Event Value

-- `billed` is what the panel was told in reports that it answered, `counted` what was added to the
-- audit, for each client.
pub record World : Type 0 where
  pub client : PanelSyncClient
  pub audit : TrafficAudit
  pub billed : ℕ → ℕ × ℕ
  pub counted : ℕ → ℕ × ℕ

abbrev add_up : ℕ → ℕ → (ℕ → ℕ × ℕ) → ℕ → ℕ × ℕ
add_up id n f j = if j == id then ((f j).0 + n, (f j).1) else f j

abbrev add_down : ℕ → ℕ → (ℕ → ℕ × ℕ) → ℕ → ℕ × ℕ
add_down id n f j = if j == id then ((f j).0, (f j).1 + n) else f j

abbrev bill : List Traffic → Result {0} Unit → (ℕ → ℕ × ℕ) → ℕ → ℕ × ℕ
bill payload (err e) f j = f j
bill payload (ok u) f j = ((f j).0 + (told j payload).0, (f j).1 + (told j payload).1)

module _ (Value : Type 0) (get_member : Text → Value → Option Value) (as_i64 : Value → Option ℤ)
    (users_of_value : Value → Result (List SyncUser)) where
  unfoldable pub happens : Event Value → World → World
  happens (went_up id n) w = record w {
    audit = add_upstream_traffic_of id n w.audit;
    counted = if contain_client id w.audit then add_up id n w.counted else w.counted;
  }
  happens (went_down id n) w = record w {
    audit = add_downstream_traffic_of id n w.audit;
    counted = if contain_client id w.audit then add_down id n w.counted else w.counted;
  }
  happens (syncs http_get) w =
      let ((c, audit), r) =
        sync_once Value get_member as_i64 users_of_value http_get w.client w.audit in
      record w { client = c; audit = audit }
  happens (reports http_post) w =
      let (c, r) = report_traffic_once Value get_member as_i64 http_post w.client w.audit in
      record w { client = c; billed = bill (sent w.client w.audit) r w.billed }

  unfoldable pub happen : List (Event Value) → World → World
  happen [] w = w
  happen (e ∷ es) w = happen es (happens e w)

abbrev pub HasBalance : World → Type 0
HasBalance w =
    IsUnique w.audit
    × ((id : ℕ)
        → let d = due id w.client.reported_traffic w.audit in
          ((w.billed id).0 + d.0 ≤ (w.counted id).0) × ((w.billed id).1 + d.1 ≤ (w.counted id).1))
