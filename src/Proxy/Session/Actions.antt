-- ===== src/Proxy/Session/Actions.antt =====
-- src/runtime/mod.rs: `apply_actions` and `handle_frame` on a session, the hooks of its streams, and
-- `run` of src/proxy/session/inner.rs. What a synchronous write is told by the writer is a parameter:
-- it depends on the frames sent before.
use anytls_rs_legacy.Common.{
  ℕ, Bool, true, false, List, [], ◌∷◌, leb, if◌then◌else◌, IoError, io_error, other, unexpected_eof,
  received, Text, Result, ok, err,
}
use anytls_rs_legacy.Common.Bytes.{Bytes}
use anytls_rs_legacy.Core.Frame.{Frame, Command, alert, syn_ack, new_frame, frame_with_data}
use anytls_rs_legacy.Core.State.{State}
use anytls_rs_legacy.Core.StringMap.{StringMap}
use anytls_rs_legacy.Core.Engine.{
  ProtocolAction, send_frame, send_frame_sync, close_local_stream, close_remote_stream,
  release_write_buffering, alert_and_fail, min_protocol_version, on_session_start, on_frame,
}
use anytls_rs_legacy.Core.Engine
use anytls_rs_legacy.Proxy.Session.{
  Session, write_frame, push_stream_data, ensure_incoming_stream, close_logical_stream,
  terminate_session, terminate_session_wide,
}

abbrev pub Acks : Type 0
Acks = List Frame → Result (Unit {0})

abbrev pub unit_of : Session × Result ℕ → Session × Result (Unit {0})
unit_of (s, ok n) = (s, ok tt)
unit_of (s, err e) = (s, err e)

module _ (acks : Acks) where
  unfoldable pub write_frame_sync : Session → Frame → Session × Result ℕ
  write_frame_sync s frame =
      let (t, r) = write_frame s frame in
      elim r [
        | err e ↦ (t, err e)
        | ok len ↦ elim (acks t.sent) [ err e ↦ (t, err e) | ok _ ↦ (t, ok len) ]
      ]

  unfoldable pub apply_action : Session → ProtocolAction → Session × Result (Unit {0})
  apply_action s (send_frame frame) = unit_of (write_frame s frame)
  apply_action s (send_frame_sync frame) = unit_of (write_frame_sync s frame)
  apply_action s (Engine.push_stream_data sid payload) = push_stream_data s sid payload
  apply_action s (Engine.ensure_incoming_stream sid) = ensure_incoming_stream s sid
  apply_action s (close_local_stream sid) = (close_logical_stream s sid, ok tt)
  apply_action s (close_remote_stream sid message) = (terminate_session s sid message, ok tt)
  apply_action s release_write_buffering = (s, ok tt)
  apply_action s (alert_and_fail message) = (
    (write_frame_sync s (frame_with_data alert 0 message)).0,
    err (record { kind = other; message = received message }),
  )

  unfoldable pub apply_actions : Session → List ProtocolAction → Session × Result (Unit {0})
  apply_actions s [] = (s, ok tt)
  apply_actions s (a ∷ as') =
      let (t, r) = apply_action s a in
      let rest = apply_actions t as' in elim r [ err e ↦ (t, err e) | ok _ ↦ rest ]

  unfoldable pub start_session :
      (StringMap → StringMap) → Session → State → Bool → Text → Session × Result (Unit {0})
  start_session iteration s state is_client name =
      apply_actions s (on_session_start iteration state is_client name)

  abbrev is_alert : Command → Bool
  is_alert alert = true
  is_alert c = false

  unfoldable pub handle_frame :
      (Bytes → Text) → Session → State → Bool → Frame → (Session × State) × Result (Unit {0})
  handle_frame md5_hex s state is_client frame =
      if is_alert frame.cmd
      then ((s, state), err (io_error other "Alert received"))
      else (let (state', actions) = on_frame md5_hex state is_client frame in
          let (t, r) = apply_actions s actions in ((t, state'), r))

  -- The frames of `recv_loop`, up to the first that fails or the end of the connection, and `run`,
  -- which then terminates the session.
  unfoldable pub recv_frames :
      (Bytes → Text) → Session → State → Bool → List Frame → (Session × State) × IoError
  recv_frames md5_hex s state is_client [] =
      ((s, state), io_error unexpected_eof "Connection closed")
  recv_frames md5_hex s state is_client (f ∷ fs) =
      let (next, r) = handle_frame md5_hex s state is_client f in
      let rest = recv_frames md5_hex next.0 next.1 is_client fs in
      elim r [ err e ↦ (next, e) | ok _ ↦ rest ]

  unfoldable pub run :
      (Bytes → Text) → Session → State → Bool → List Frame → (Session × State) × IoError
  run md5_hex s state is_client fs =
      let (next, e) = recv_frames md5_hex s state is_client fs in
      ((terminate_session_wide next.0, next.1), e)

-- The hooks of a stream: what the server's side of a stream tells the client of its destination.
unfoldable pub handshake_failure : Session → State → ℕ → Text → Session × Result (Unit {0})
handshake_failure s state sid error =
    if leb min_protocol_version state.peer_version
    then unit_of (write_frame s (frame_with_data syn_ack sid error))
    else (s, ok tt)

unfoldable pub handshake_success : Session → State → ℕ → Session × Result (Unit {0})
handshake_success s state sid =
    if leb min_protocol_version state.peer_version
    then unit_of (write_frame s (new_frame syn_ack sid))
    else (s, ok tt)
