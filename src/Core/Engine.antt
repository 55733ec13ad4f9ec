-- ===== src/Core/Engine.antt =====
-- src/core/action.rs and src/core/engine.rs: what a session does when it starts and when a frame
-- arrives. Both functions return `Ok` always; they return the new state and the actions. A hash map
-- lists its entries in no fixed order: `iteration` is that order, and `md5_hex` the digest.
pub mod Handshake
pub mod Rules
use anytls_rs_legacy.Common.{
  ℕ, Bool, true, false, not, ◌&&◌, Option, none, some, List, [], ◌∷◌, ◌++◌, leb, Text, codes,
  text_key, text_same, if◌then◌else◌,
}
use anytls_rs_legacy.Common.Map.{lookup, insert}
use anytls_rs_legacy.Common.Bytes.{Bytes}
use anytls_rs_legacy.Core.Frame.{
  Command, waste, syn, psh, fin, settings, alert, update_padding_scheme, syn_ack, heart_request,
  heart_response, server_settings, Frame, new_frame, frame_with_data,
}
use anytls_rs_legacy.Core.Text.{from_utf8_lossy, to_string, parse_uint}
use anytls_rs_legacy.Core.StringMap.{StringMap, to_bytes, from_bytes}
use anytls_rs_legacy.Core.Padding.{PaddingFactory, new_factory}
use anytls_rs_legacy.Core.State.{
  State, set_padding, set_peer_version, mark_received_settings_from_client,
}

abbrev pub protocol_version : ℕ
protocol_version = 2

abbrev pub min_protocol_version : ℕ
min_protocol_version = 2

pub data ProtocolAction : Type 0 where
  send_frame : Frame → ProtocolAction
  send_frame_sync : Frame → ProtocolAction
  push_stream_data : ℕ → Bytes → ProtocolAction
  ensure_incoming_stream : ℕ → ProtocolAction
  close_local_stream : ℕ → ProtocolAction
  close_remote_stream : ℕ → Text → ProtocolAction
  release_write_buffering : ProtocolAction
  alert_and_fail : Text → ProtocolAction

abbrev pub is_empty : Bytes → Bool
is_empty [] = true
is_empty (b ∷ bs) = false

-- The map that a client announces itself with.
unfoldable pub client_settings : Text → State → StringMap
client_settings client_name s =
    insert (codes "padding-md5") s.padding.md5
      (insert (codes "client") client_name (insert (codes "v") (to_string protocol_version) []))

unfoldable pub on_session_start :
    (StringMap → StringMap) → State → Bool → Text → List ProtocolAction
on_session_start iteration s is_client client_name =
    if not is_client
    then []
    else send_frame
        (frame_with_data settings 0 (to_bytes (iteration (client_settings client_name s))))
      ∷ []

-- The answer to settings whose digest differs from that of the server's scheme.
unfoldable pub padding_actions : State → StringMap → List ProtocolAction
padding_actions s m =
    let update =
      send_frame_sync (frame_with_data update_padding_scheme 0 s.padding.raw_scheme) ∷ [] in
    elim (lookup (codes "padding-md5") m) [
      | none ↦ update
      | some digest ↦ if text_same digest s.padding.md5 then [] else update
    ]

unfoldable pub parse_version : StringMap → Option ℕ
parse_version m = elim (lookup (codes "v") m) [ none ↦ none | some v ↦ parse_uint 256 v ]

unfoldable pub negotiate : State → StringMap → State × List ProtocolAction
negotiate s m = elim (parse_version m) [
  | none ↦ (s, [])
  | some version ↦
      if leb min_protocol_version version
      then (
        set_peer_version s version,
        send_frame_sync (
              frame_with_data server_settings 0
                (to_bytes (insert (codes "v") (to_string version) [])))
            ∷ [],
      )
      else (s, [])
]

unfoldable pub on_client_settings : State → Bytes → State × List ProtocolAction
on_client_settings s payload =
    let m = from_bytes payload in
    let s' = mark_received_settings_from_client s in
    let (t, answer) = negotiate s' m in (t, padding_actions s' m ++ answer)

unfoldable pub on_server_settings : State → Bytes → State
on_server_settings s payload = elim (parse_version (from_bytes payload)) [
  | none ↦ s
  | some version ↦ set_peer_version s version
]

module _ (md5_hex : Bytes → Text) where
  unfoldable pub on_padding_scheme : State → Bytes → State
  on_padding_scheme s payload = elim (new_factory md5_hex payload) [
    | none ↦ s
    | some factory ↦ set_padding s factory
  ]

  -- The match on the command with its guards. What no branch takes is logged as unexpected.
  unfoldable pub on_command : State → Bool → Command → ℕ → Bytes → State × List ProtocolAction
  on_command s is_client waste sid payload = (s, [])
  on_command s is_client heart_response sid payload = (s, [])
  on_command s is_client psh sid payload =
      if not (is_empty payload) then (s, push_stream_data sid payload ∷ []) else (s, [])
  on_command s is_client syn sid payload =
      if not is_client
      then (if not s.received_settings_from_client
          then (s, alert_and_fail (codes "client did not send its settings") ∷ [])
          else (s, ensure_incoming_stream sid ∷ []))
      else (s, [])
  on_command s is_client fin sid payload = (s, close_local_stream sid ∷ [])
  on_command s is_client settings sid payload =
      if not is_client && not (is_empty payload) then on_client_settings s payload else (s, [])
  on_command s is_client update_padding_scheme sid payload =
      if not (is_empty payload) && is_client then (on_padding_scheme s payload, []) else (s, [])
  on_command s is_client heart_request sid payload =
      (s, send_frame (new_frame heart_response sid) ∷ [])
  on_command s is_client server_settings sid payload =
      if not (is_empty payload) && is_client then (on_server_settings s payload, []) else (s, [])
  on_command s is_client syn_ack sid payload =
      if not (is_empty payload)
      then (s, close_remote_stream sid (from_utf8_lossy payload) ∷ [])
      else (s, [])
  on_command s is_client other sid payload = (s, [])

  unfoldable pub on_frame : State → Bool → Frame → State × List ProtocolAction
  on_frame s is_client frame = on_command s is_client frame.cmd frame.sid frame.payload
