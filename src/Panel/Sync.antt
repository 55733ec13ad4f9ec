-- ===== src/Panel/Sync.antt =====
-- src/panel_sync/core.rs: the exchange with the panel. The HTTP client is a function from a URL to a
-- response, and JSON values are a parameter with the readers that the source calls. No other task
-- removes clients, and the messages that quote a response are shortened; the traffic that is counted while a call waits can as well be counted after it.
pub mod Users
pub mod Billing
use anytls_rs_legacy.Common.{
  ℕ, ◌-◌, Bool, true, false, not, ◌&&◌, ◌||◌, Option, none, some, List, [], ◌∷◌, ◌++◌, map, ◌==◌,
  if◌then◌else◌, Text, codes, Result, ok, err, io_error, other, ◌>>=◌, nat_key,
}
use anytls_rs_legacy.Common.Int.{ℤ, pos}
use anytls_rs_legacy.Common.Map.{Map, lookup, insert, remove}
use anytls_rs_legacy.Core.Text.{to_string}
use anytls_rs_legacy.Panel.TrafficAudit.{
  TrafficAudit, add_client, set_enable_of, remove_client, get_upstream_traffic_of,
  get_downstream_traffic_of,
}

pub record PanelSyncConfig : Type 0 where
  pub webapi_url : Option Text
  pub webapi_token : Option Text
  pub node_id : Option ℕ

pub record SyncUser : Type 0 where
  pub client_id : Option ℕ
  pub enable : Bool

pub record PanelSyncClient : Type 0 where
  pub config : PanelSyncConfig
  pub reported_traffic : Map ℕ (ℕ × ℕ)

-- One entry of a report.
pub record Traffic : Type 0 where
  pub client_id : ℕ
  pub u : ℕ
  pub d : ℕ

unfoldable pub get_client_list : TrafficAudit → List ℕ
get_client_list audit = map (λ e. e.0) audit

push_unless_end : ℕ → ℕ → Text → Text
push_unless_end c x [] = if x == c then [] else x ∷ []
push_unless_end c x (y ∷ ys) = x ∷ y ∷ ys

unfoldable pub trim_end_matches : ℕ → Text → Text
unfolding push_unless_end
trim_end_matches c [] = []
trim_end_matches c (x ∷ xs) = push_unless_end c x (trim_end_matches c xs)

unfoldable pub push_params : List (Text × Text) → Text
push_params [] = []
push_params ((key, value) ∷ params) = (b'&' ∷ key) ++ (b'=' ∷ value) ++ push_params params

abbrev pub unwrap_or_default : Option Text → Text
unwrap_or_default none = []
unwrap_or_default (some t) = t

unfoldable pub build_url : PanelSyncConfig → Text → List (Text × Text) → Result Text
build_url config action params = elim config.webapi_url [
  | none ↦ err (io_error other "panel sync webapi_url not set")
  | some url ↦ ok (
      trim_end_matches b'/' url
      ++ codes "/mod_mu/"
      ++ action
      ++ codes "?key="
      ++ unwrap_or_default config.webapi_token
      ++ push_params params)
]

abbrev pub node_url : PanelSyncConfig → Text → Result Text
node_url config action = elim config.node_id [
  | none ↦ err (io_error other "panel sync node_id not set")
  | some id ↦ build_url config action ((codes "node_id", to_string id) ∷ [])
]

-- The body is read as JSON once the status is seen to be good.
pub record Response (Value : Type 0) : Type 0 where
  pub status : ℕ
  pub json : Result Value

module _ (Value : Type 0) (get_member : Text → Value → Option Value)
    (as_i64 : Value → Option ℤ) where
  abbrev pub has_failed : Value → Bool
  has_failed value = elim (get_member (codes "ret") value) [
    | none ↦ true
    | some v ↦ elim (as_i64 v) [ none ↦ true | some (pos n) ↦ n == 0 | some _ ↦ false ]
  ]

  abbrev pub payload_data : Value → Value
  payload_data value = elim (get_member (codes "data") value) [ none ↦ value | some v ↦ v ]

  unfoldable pub parse_payload : {T : Type 0} → (Value → Result T) → Response Value → Result T
  parse_payload from_value response =
      if not (response.status == 200)
      then err (io_error other "status")
      else response.json >>= (λ value.
        if has_failed value
        then err (io_error other "Wrong data")
        else from_value (payload_data value))

  unfoldable pub fetch_sync_payload :
      (Text → Result (Response Value))
      → (Value → Result (List SyncUser))
      → PanelSyncConfig
      → Result (List SyncUser)
  fetch_sync_payload http_get users_of_value config =
      node_url config (codes "users") >>= http_get >>= parse_payload users_of_value

  -- The response to a report may be any JSON value.
  unfoldable pub post_traffic :
      (Text → List Traffic → Result (Response Value))
      → PanelSyncConfig
      → List Traffic
      → Result Value
  post_traffic http_post config payload =
      node_url config (codes "users/traffic")
      >>= (λ url. http_post url payload)
      >>= parse_payload ok

-- The first loop of `sync_once`, with the clients that it has seen.
abbrev pub sync_user : SyncUser → TrafficAudit × List ℕ → TrafficAudit × List ℕ
sync_user user (audit, seen_clients) = elim user.client_id [
  | none ↦ (audit, seen_clients)
  | some id ↦ (set_enable_of id user.enable (add_client id audit), id ∷ seen_clients)
]

unfoldable pub sync_users : List SyncUser → TrafficAudit × List ℕ → TrafficAudit × List ℕ
sync_users [] s = s
sync_users (user ∷ users) s = sync_users users (sync_user user s)

unfoldable pub contains : ℕ → List ℕ → Bool
contains id [] = false
contains id (x ∷ xs) = (x == id) || contains id xs

-- The second loop of `sync_once`, over the clients that were there before.
unfoldable pub drop_unseen :
    List ℕ → List ℕ → Map ℕ (ℕ × ℕ) × TrafficAudit → Map ℕ (ℕ × ℕ) × TrafficAudit
drop_unseen [] seen_clients s = s
drop_unseen (id ∷ ids) seen_clients (reported, audit) = drop_unseen ids seen_clients (
    if contains id seen_clients
    then (reported, audit)
    else (remove id reported, remove_client id audit))

unfoldable pub apply_users :
    List SyncUser → Map ℕ (ℕ × ℕ) → TrafficAudit → Map ℕ (ℕ × ℕ) × TrafficAudit
apply_users users reported audit =
    let (synced, seen_clients) = sync_users users (audit, []) in
    drop_unseen (get_client_list audit) seen_clients (reported, synced)

-- `sync_once` with the users that were fetched.
unfoldable pub sync_with :
    Result (List SyncUser)
    → PanelSyncClient
    → TrafficAudit
    → (PanelSyncClient × TrafficAudit) × Result {0} Unit
sync_with (err e) c audit = ((c, audit), err e)
sync_with (ok users) c audit =
    let (reported, synced) = apply_users users c.reported_traffic audit in
    ((record c { reported_traffic = reported }, synced), ok tt)

abbrev pub last_reported : ℕ → Map ℕ (ℕ × ℕ) → ℕ × ℕ
last_reported id reported = elim (lookup id reported) [ none ↦ (0, 0) | some t ↦ t ]

-- The loop of `report_traffic_once`: the payload, and the counts that it brings the panel to.
unfoldable pub collect_traffic :
    Map ℕ (ℕ × ℕ) → TrafficAudit → List ℕ → List Traffic × Map ℕ (ℕ × ℕ)
collect_traffic reported audit [] = ([], [])
collect_traffic reported audit (id ∷ ids) =
    let (payload, current) = collect_traffic reported audit ids in
    let upstream = get_upstream_traffic_of id audit in
    let downstream = get_downstream_traffic_of id audit in
    let delta_upstream = upstream - (last_reported id reported).0 in
    let delta_downstream = downstream - (last_reported id reported).1 in
    if (delta_upstream == 0) && (delta_downstream == 0) then (payload, current) else (
      record { client_id = id; u = delta_upstream; d = delta_downstream } ∷ payload,
      (id, (upstream, downstream)) ∷ current,
    )

unfoldable pub commit : Map ℕ (ℕ × ℕ) → Map ℕ (ℕ × ℕ) → Map ℕ (ℕ × ℕ)
commit [] reported = reported
commit ((id, t) ∷ current) reported = commit current (insert id t reported)

-- The rest of `report_traffic_once`: `post` sends the payload.
unfoldable pub report_with :
    {V : Type 0}
    → (List Traffic → Result V)
    → PanelSyncClient
    → TrafficAudit
    → PanelSyncClient × Result {0} Unit
report_with post c audit =
    let (payload, current) = collect_traffic c.reported_traffic audit (get_client_list audit) in
    elim payload [
      | [] ↦ (c, ok tt)
      | t ∷ ts ↦ elim (post (t ∷ ts)) [
        | err e ↦ (c, err e)
        | ok _ ↦ (record c { reported_traffic = commit current c.reported_traffic }, ok tt)
      ]
    ]

module _ (Value : Type 0) (get_member : Text → Value → Option Value)
    (as_i64 : Value → Option ℤ) where
  unfoldable pub sync_once :
      (Value → Result (List SyncUser))
      → (Text → Result (Response Value))
      → PanelSyncClient
      → TrafficAudit
      → (PanelSyncClient × TrafficAudit) × Result {0} Unit
  sync_once users_of_value http_get c audit =
      sync_with (fetch_sync_payload Value get_member as_i64 http_get users_of_value c.config) c
        audit

  unfoldable pub report_traffic_once :
      (Text → List Traffic → Result (Response Value))
      → PanelSyncClient
      → TrafficAudit
      → PanelSyncClient × Result {0} Unit
  report_traffic_once http_post c audit =
      report_with (post_traffic Value get_member as_i64 http_post c.config) c audit
