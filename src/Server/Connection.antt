-- ===== src/Server/Connection.antt =====
-- bin/server.rs: `Authenticator`, `ConnCtx` and `handle_connection` up to the session. The name that the
-- TLS handshake gave, the forward target and the list of names are inputs; the relays themselves
-- are not modelled. The state is the authenticator with its users, and the audit of traffic.
pub mod Admission
pub mod Fallback
use anytls_rs_legacy.Common.{
  ℕ, ◌+◌, ◌-◌, Bool, true, false, not, ◌&&◌, ◌||◌, Option, none, some, List, [], ◌∷◌, ltb, leb,
  ◌==◌, if◌then◌else◌, take, length, Text, text_same, Result, ok, err, IoError, map,
}
use anytls_rs_legacy.Common.Int.{ℤ}
use anytls_rs_legacy.Common.Bytes.{Bytes}
use anytls_rs_legacy.Node.Users.{UserEntry, record_up, record_down}
use anytls_rs_legacy.Node.Registry.{
  Registry, AuthedUser, put_entry, authenticate, deny_reason, drop_authed_user,
}
use anytls_rs_legacy.Panel.TrafficAudit.{
  TrafficAudit, add_upstream_traffic_of, add_downstream_traffic_of, get_enable_of,
}
use anytls_rs_legacy.Server.Preamble.{Incoming, auth_size, fill, read_client_id}

-- Which ways of running the server the arguments ask for.
pub record Args : Type 0 where
  pub panel_webapi_url : Option Text
  pub panel_webapi_token : Option Text
  pub panel_node_id : Option ℕ
  pub users_file : Option Text
  pub api_bind_to : Option Text

abbrev is_given : {A : Type 0} → Option A → Bool
is_given none = false
is_given (some a) = true

unfoldable pub panel_sync_enabled : Args → Bool
panel_sync_enabled a =
    is_given a.panel_webapi_url && is_given a.panel_webapi_token && is_given a.panel_node_id

unfoldable pub multi_user_enabled : Args → Bool
multi_user_enabled a = is_given a.users_file || is_given a.api_bind_to

pub data Authenticator : Type 0 where
  shared_password : Bytes → Authenticator
  users : Registry → Authenticator

pub data AuthOutcome : Type 0 where
  rejected anonymous : AuthOutcome
  user : AuthedUser → AuthOutcome

unfoldable pub authenticate_with : ℤ → Bytes → Authenticator → Authenticator × AuthOutcome
authenticate_with now password_hash (shared_password expected) =
    (shared_password expected, if text_same password_hash expected then anonymous else rejected)
authenticate_with now password_hash (users registry) =
    let (r, found) = authenticate now password_hash registry in
    (users r, elim found [ some u ↦ user u | none ↦ rejected ])

pub record ConnCtx : Type 0 where
  pub user : Option AuthedUser
  pub client_id : Option ℕ
  pub panel_sync : Bool

pub record ServerState : Type 0 where
  pub authenticator : Authenticator
  pub audit : TrafficAudit

-- A change of the entry that the connection holds.
abbrev pub on_entry : (UserEntry → UserEntry) → AuthedUser → Authenticator → Authenticator
on_entry f u (shared_password expected) = shared_password expected
on_entry f u (users r) =
    users (record r { entries = put_entry u.entry (f (r.entries u.entry)) r.entries })

unfoldable pub ctx_record_up : ℕ → ConnCtx → ServerState → ServerState
ctx_record_up bytes ctx s = elim ctx.user [
  | some u ↦ record s { authenticator = on_entry (record_up bytes) u s.authenticator }
  | none ↦ elim ctx.client_id [
    | some id ↦ record s { audit = add_upstream_traffic_of id bytes s.audit }
    | none ↦ s
  ]
]

unfoldable pub ctx_record_down : ℕ → ConnCtx → ServerState → ServerState
ctx_record_down bytes ctx s = elim ctx.user [
  | some u ↦ record s { authenticator = on_entry (record_down bytes) u s.authenticator }
  | none ↦ elim ctx.client_id [
    | some id ↦ record s { audit = add_downstream_traffic_of id bytes s.audit }
    | none ↦ s
  ]
]

unfoldable pub check_incoming_client_approved : Bool → TrafficAudit → Option ℕ → Bool
check_incoming_client_approved false audit id = true
check_incoming_client_approved true audit none = false
check_incoming_client_approved true audit (some id) = get_enable_of id audit

abbrev is_denied : ℤ → AuthedUser → Authenticator → Bool
is_denied now u (shared_password expected) = false
is_denied now u (users r) = is_given (deny_reason now u r)

unfoldable pub approved : ℤ → ConnCtx → ServerState → Bool
approved now ctx s = elim ctx.user [
  | some u ↦ not (is_denied now u s.authenticator)
  | none ↦ check_incoming_client_approved ctx.panel_sync s.audit ctx.client_id
]

abbrev ascii_lowercase : ℕ → ℕ
ascii_lowercase c = if leb 65 c && leb c 90 then c + 32 else c

unfoldable pub sni_is_allowed : Text → List Text → Bool
sni_is_allowed target [] = false
sni_is_allowed target (allowed ∷ allowlist) =
    text_same (map ascii_lowercase allowed) (map ascii_lowercase target)
    || sni_is_allowed target allowlist

-- What becomes of a connection: a relay to the forward target or to the probed name, with the bytes
-- that were read; silence; an error; a refusal; or a session on the bytes that follow.
pub data Fate : Type 0 where
  forwarded probed : Text → Bytes → Incoming → Fate
  dropped denied : Fate
  failed : IoError → Fate
  served : ConnCtx → Incoming → Fate

pub record Config : Type 0 where
  pub forward_target : Option Text
  pub probe_sni_allowlist : List Text
  pub panel_sync : Bool

unfoldable pub fall_back : Config → Option Text → Bytes → Incoming → Fate
fall_back config probe_target prefix later = elim config.forward_target [
  | some url ↦ forwarded url prefix later
  | none ↦ elim probe_target [
    | none ↦ dropped
    | some host ↦
        if sni_is_allowed host config.probe_sni_allowlist then probed host prefix later else dropped
  ]
]

abbrev pub is_rejected : AuthOutcome → Bool
is_rejected rejected = true
is_rejected anonymous = false
is_rejected (user u) = false

abbrev pub user_of : AuthOutcome → Option AuthedUser
user_of rejected = none
user_of anonymous = none
user_of (user u) = some u

-- The guard of the user is dropped with the connection.
unfoldable pub release : Option AuthedUser → ServerState → ServerState
release none s = s
release (some u) s = elim s.authenticator [
  | shared_password expected ↦ s
  | users r ↦ record s { authenticator = users (drop_authed_user u r) }
]

unfoldable pub admit : ℤ → ConnCtx → Incoming → ServerState → ServerState × Fate
admit now ctx later s =
    if approved now ctx s then (s, served ctx later) else (release ctx.user s, denied)

module _ (parse_str : Text → Option ℕ) (config : Config) (now : ℤ) where
  -- An authenticated connection: the client's identifier is read, and the connection is checked.
  unfoldable pub welcome : AuthOutcome → Bytes → Incoming → ServerState → ServerState × Fate
  welcome outcome auth later s = elim (read_client_id parse_str auth later) [
    | err e ↦ (release (user_of outcome) s, failed e)
    | ok (client_id, rest) ↦
        admit now
          (record { user = user_of outcome; client_id = client_id; panel_sync = config.panel_sync })
          rest s
  ]

  -- With the bytes that were read for the authentication.
  unfoldable pub respond : Option Text → Bytes → Incoming → ServerState → ServerState × Fate
  respond probe_target auth later s =
      if not (length auth == auth_size)
      then (s, fall_back config probe_target auth later)
      else let (a, outcome) = authenticate_with now (take 32 auth) s.authenticator in
        let t = record s { authenticator = a } in
        if is_rejected outcome
        then (t, fall_back config probe_target auth later)
        else welcome outcome auth later t

  unfoldable pub handle_connection : Option Text → Incoming → ServerState → ServerState × Fate
  handle_connection probe_target incoming s =
      let (auth, later) = fill auth_size auth_size incoming in respond probe_target auth later s
