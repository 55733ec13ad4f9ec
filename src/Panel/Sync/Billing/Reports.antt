-- ===== src/Panel/Sync/Billing/Reports.antt =====
-- src/panel_sync/core.rs, `report_traffic_once`: what a report comes to.
use anytls_rs_legacy.Common.{
  codes, ◌>>=◌, sym, ℕ, ◌≡◌, refl, ◌∙◌, true, false, Option, List, [], ◌∷◌, arith, Result, ok, err,
  IoError, nat_key, Text, inl, inr, ◌⊎◌, Bool-cases, Option-cases, Result-cases,
}
use anytls_rs_legacy.Common.Int.{ℤ}
use anytls_rs_legacy.Common.Map.{Map, lookup, IsUnique, contains_key}
use anytls_rs_legacy.Panel.TrafficAudit.{
  TrafficAudit, get_upstream_traffic_of, get_downstream_traffic_of,
}
use anytls_rs_legacy.Panel.Sync.{
  PanelSyncConfig, node_url, parse_payload, Response, Traffic, PanelSyncClient, contains,
  get_client_list, collect_traffic, commit, report_with, report_traffic_once, post_traffic,
}
use anytls_rs_legacy.Panel.Sync.Users.{get_client_list-contains}
use anytls_rs_legacy.Panel.Sync.Billing.{
  told, due, is_nothing, get_client_list-IsDistinct, collect_traffic-told, collect_traffic-commit,
  collect_traffic-nothing, collect_traffic_empty,
}

abbrev pub sent : PanelSyncClient → TrafficAudit → List Traffic
sent c audit = (collect_traffic c.reported_traffic audit (get_client_list audit)).0

abbrev pub settled : PanelSyncClient → TrafficAudit → PanelSyncClient
settled c audit = record c {
  reported_traffic =
      commit (collect_traffic c.reported_traffic audit (get_client_list audit)).1
        c.reported_traffic;
}

pub report_with-cases :
    {V : Type 0} (post : List Traffic → Result V) (c : PanelSyncClient) (audit : TrafficAudit)
    → (report_with post c audit ≡ (settled c audit, ok tt))
      ⊎ ((e : IoError) × (report_with post c audit ≡ (c, err e)))
unfolding report_with commit
report_with-cases post c audit = cases (sent c audit) refl
  where
    cases :
        (payload : List Traffic)
        → payload ≡ sent c audit
        → (report_with post c audit ≡ (settled c audit, ok tt))
          ⊎ ((e : IoError) × (report_with post c audit ≡ (c, err e)))
    cases [] e =
        let nothing =
          collect_traffic_empty c.reported_traffic audit (get_client_list audit) (sym e) in
        inl (rw (report_with, sym e, nothing) refl)
    cases (t ∷ ts) e = elim (Result-cases (post (t ∷ ts))) [
      | inl (a, f) ↦ inl (rw (report_with, sym e, f) refl)
      | inr (x, f) ↦ inr (x, rw (report_with, sym e, f) refl)
    ]

get_client_list-due :
    (id : ℕ) (reported : Map ℕ (ℕ × ℕ)) (audit : TrafficAudit)
    → contains id (get_client_list audit) ≡ false
    → due id reported audit ≡ (0, 0)
unfolding get_upstream_traffic_of get_downstream_traffic_of contains_key
get_client_list-due id reported audit e = elim (Option-cases (lookup id audit)) [
  | inl f ↦ ground (arith, f)
  | inr (n, f) ↦ absurd (ground (arith, get_client_list-contains id audit))
]

pub is_nothing-settled :
    (id : ℕ) (c : PanelSyncClient) (audit : TrafficAudit)
    → is_nothing (due id (settled c audit).reported_traffic audit) ≡ true
is_nothing-settled id c audit =
    let found =
      collect_traffic-commit c.reported_traffic audit id (get_client_list audit)
        c.reported_traffic in
    elim (Bool-cases (contains id (get_client_list audit))) [
      | inl e ↦ ground (arith, e, found)
      | inr e ↦ ground (arith, get_client_list-due id (settled c audit).reported_traffic audit e)
    ]

pub sent-told :
    (id : ℕ) (c : PanelSyncClient) (audit : TrafficAudit)
    → IsUnique audit
    → told id (sent c audit) ≡ due id c.reported_traffic audit
sent-told id c audit u =
    let all =
      collect_traffic-told c.reported_traffic audit id (get_client_list audit)
        (get_client_list-IsDistinct audit u) in
    elim (Bool-cases (contains id (get_client_list audit))) [
      | inl e ↦ all ∙ rw e refl
      | inr e ↦ all ∙ rw e (sym (get_client_list-due id c.reported_traffic audit e))
    ]

-- What the panel's answer to a payload makes of a report: nothing is posted where there is nothing to tell.
abbrev pub answered :
    {Value : Type 0}
    → (Text → Value → Option Value)
    → (Value → Option ℤ)
    → (Text → List Traffic → Result (Response Value))
    → PanelSyncConfig
    → List Traffic
    → Result {0} Unit
answered get_member as_i64 http_post config [] = ok tt
answered {Value} get_member as_i64 http_post config (t ∷ ts) =
    node_url config (codes "users/traffic")
    >>= (λ url. http_post url (t ∷ ts))
    >>= parse_payload Value get_member as_i64 ok
    >>= (λ v. ok tt)

-- A failure keeps the client, and success changes it.
abbrev told_to : {V S : Type 0} → S → S → Result V → S × Result {0} Unit
told_to c d (err e) = (c, err e)
told_to c d (ok v) = (d, ok tt)

only_told : {V S : Type 0} (c d : S) (r : Result V) → (told_to c d r).1 ≡ (r >>= (λ v. ok tt))
only_told c d (err e) = refl
only_told c d (ok v) = refl

report_with-answered :
    {Value : Type 0} (get_member : Text → Value → Option Value) (as_i64 : Value → Option ℤ)
    (http_post : Text → List Traffic → Result (Response Value)) (c : PanelSyncClient)
    (audit : TrafficAudit)
    → (report_with (post_traffic Value get_member as_i64 http_post c.config) c audit).1
      ≡ answered get_member as_i64 http_post c.config (sent c audit)
unfolding report_with post_traffic
report_with-answered {Value} get_member as_i64 http_post c audit = cases (sent c audit) refl
  where
    cases :
        (payload : List Traffic)
        → payload ≡ sent c audit
        → (report_with (post_traffic Value get_member as_i64 http_post c.config) c audit).1
          ≡ answered get_member as_i64 http_post c.config payload
    cases [] e = rw (report_with, sym e) refl
    cases (t ∷ ts) e =
        rw (report_with, sym e)
          (only_told c (settled c audit)
            (post_traffic Value get_member as_i64 http_post c.config (t ∷ ts)))

-- A report posts to the panel, in one request to its URL for traffic, for every client exactly what was counted and not yet reported, and its result is what the panel's answer to that payload makes it; if nothing is due, nothing is posted. When it succeeds, nothing is due any more: a report at once would post nothing. When it fails, nothing counts as reported, so that the next one posts the same again, which the panel then has twice if only the answer was lost.
pub report_traffic_once-settles :
    (Value : Type 0) (get_member : Text → Value → Option Value) (as_i64 : Value → Option ℤ)
    (http_post : Text → List Traffic → Result (Response Value)) (c : PanelSyncClient)
    (audit : TrafficAudit)
    → IsUnique audit
    → let (d, r) = report_traffic_once Value get_member as_i64 http_post c audit in
      ((id : ℕ) → told id (sent c audit) ≡ due id c.reported_traffic audit)
      × (r ≡ answered get_member as_i64 http_post c.config (sent c audit))
      × (((r ≡ ok tt) × (sent d audit ≡ [])) ⊎ ((e : IoError) × (r ≡ err e) × (d ≡ c)))
unfolding report_traffic_once
report_traffic_once-settles Value get_member as_i64 http_post c audit u =
    let post = post_traffic Value get_member as_i64 http_post c.config in
    let nothing =
      collect_traffic-nothing (settled c audit).reported_traffic audit (get_client_list audit)
        (λ id e. is_nothing-settled id c audit) in
    let answer = report_with-answered get_member as_i64 http_post c audit in
    (
      λ id. sent-told id c audit u,
      answer,
      elim (report_with-cases post c audit) [
        | inl e ↦ inl (rw e (refl, nothing))
        | inr (x, e) ↦ inr (rw e (x, refl, refl))
      ],
    )
