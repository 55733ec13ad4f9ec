-- ===== src/Examples/Panel.antt =====
-- The theorems on the exchange with the panel at concrete inputs.
use anytls_rs_legacy.Common.{
  ◌⊎◌, ℕ, ◌≡◌, refl, true, false, Option, none, some, List, [], ◌∷◌, Result, ok, err, IoError, Text,
  nat_key,
}
use anytls_rs_legacy.Common.Int.{ℤ, pos}
use anytls_rs_legacy.Common.Map.{lookup}
use anytls_rs_legacy.Panel.TrafficAudit.{TrafficAudit}
use anytls_rs_legacy.Panel.Sync.{
  Response, SyncUser, PanelSyncClient, report_traffic_once, sync_once, fetch_sync_payload,
  build_url, parse_payload,
}
use anytls_rs_legacy.Panel.Sync.Users.{IsSynced, sync_once-IsSynced}
use anytls_rs_legacy.Panel.Sync.Billing.{told, due}
use anytls_rs_legacy.Panel.Sync.Billing.Reports.{answered, sent, report_traffic_once-settles}
use anytls_rs_legacy.Panel.Sync.Billing.Steps.{Event, went_up, went_down, syncs, reports, World}

-- JSON values in which every member has the value that the whole has.
abbrev member : Text → ℕ → Option ℕ
member key v = some v

abbrev number : ℕ → Option ℤ
number v = some (pos v)

abbrev ada_and_bob : ℕ → Result (List SyncUser)
ada_and_bob v = ok (
    record { client_id = some 1; enable = true }
    ∷ record { client_id = some 2; enable = false }
    ∷ record { client_id = none; enable = true }
    ∷ [])

abbrev answer : Result (Response ℕ)
answer = ok (record { status = 200; json = ok 1 })

abbrev refusal : Result (Response ℕ)
refusal = ok (record { status = 500; json = ok 1 })

abbrev start : PanelSyncClient
start = record {
  config = record { webapi_url = some (b'h' ∷ b'/' ∷ []); webapi_token = none; node_id = some 3 };
  reported_traffic = (1, (10, 0)) ∷ [];
}

abbrev audited : TrafficAudit
audited =
    (1, record { enable = true; upstream_traffic = 30; downstream_traffic = 5 })
    ∷ (7, record { enable = true; upstream_traffic = 2; downstream_traffic = 0 })
    ∷ []

abbrev world : World
world = record { client = start; audit = audited; billed = λ id. (0, 0); counted = λ id. (30, 5) }

abbrev events : List (Event ℕ)
events =
    went_up 1 100
    ∷ reports (λ url payload. refusal)
    ∷ syncs (λ url. answer)
    ∷ reports (λ url payload. answer)
    ∷ went_down 2 9
    ∷ []

sync_once-IsSynced_example :
    IsSynced
      (ada_and_bob 1)
      start
      audited
      (sync_once ℕ member number ada_and_bob (λ url. answer) start audited)
unfolding fetch_sync_payload build_url parse_payload
sync_once-IsSynced_example =
    sync_once-IsSynced ℕ member number ada_and_bob (λ url. answer) start audited

report_traffic_once-settles_example :
    let (d, r) = report_traffic_once ℕ member number (λ url payload. answer) start audited in
    ((id : ℕ) → told id (sent start audited) ≡ due id start.reported_traffic audited)
    × (r ≡ answered member number (λ url payload. answer) start.config (sent start audited))
    × (((r ≡ ok tt) × (sent d audited ≡ [])) ⊎ ((e : IoError) × (r ≡ err e) × (d ≡ start)))
report_traffic_once-settles_example =
    report_traffic_once-settles ℕ member number (λ url payload. answer) start audited
      (unfold lookup in (refl, (refl, tt)))
