-- ===== src/Examples/Streams.antt =====
-- The theorems on pipes, on a session's streams and on the traffic of clients at concrete inputs.
use mathlib.Core.List.{flatten}
use anytls_rs_legacy.Common.{
  ◌+◌, ◌≡◌, refl, true, false, none, some, List, [], ◌∷◌, ◌++◌, arith, Text, IoError, io_error,
  other, ok, err, nat_key, length,
}
use anytls_rs_legacy.Common.Bytes.{Bytes}
use anytls_rs_legacy.Common.Map.{lookup}
use anytls_rs_legacy.Core.Text.{to_string}
use anytls_rs_legacy.Core.Frame.{Frame, syn, psh, frame_with_data, new_frame}
use anytls_rs_legacy.Core.State.{State}
use anytls_rs_legacy.Proxy.Pipe.{new_pipe, finish_stream}
use anytls_rs_legacy.Proxy.Pipe.Order.{
  Step, writes, finishes, begin, takes, arrive, start, steps, queued, steps-kept,
}
use anytls_rs_legacy.Proxy.Pipe.Draining.{drain, write_each, drain-finish_stream}
use anytls_rs_legacy.Proxy.Session.{Session, new_session, new_stream}
use anytls_rs_legacy.Proxy.Session.Table.{IsTable}
use anytls_rs_legacy.Proxy.Session.Calls.{
  Call, opens, inserts, pushes, peer_closes, terminates, calls, calls-IsTable,
}
use anytls_rs_legacy.Proxy.Session.Actions.{Acks, run}
use anytls_rs_legacy.Proxy.Session.Routing.{run-announced}
use anytls_rs_legacy.Panel.TrafficAudit.{add_upstream_traffic}
use anytls_rs_legacy.Panel.TrafficAudit.PerClient.{
  AuditCall, one, adds, ups, enables, audits, seen_all, lookup-audits,
}

abbrev pipe_steps : List Step
pipe_steps =
    writes (1 ∷ 2 ∷ 3 ∷ [])
    ∷ begin 2
    ∷ takes
    ∷ writes (4 ∷ [])
    ∷ arrive
    ∷ finishes none
    ∷ begin 2
    ∷ []

steps-kept_example :
    let h = steps start pipe_steps in h.accepted ≡ h.got ++ (h.pipe.buffer ++ queued h.pipe.queue)
steps-kept_example = steps-kept pipe_steps

abbrev reset_by_peer : IoError
reset_by_peer = io_error other "remote"

drain-finish_stream_example :
    drain 5 2
      (finish_stream (write_each new_pipe ((1 ∷ 2 ∷ 3 ∷ []) ∷ (4 ∷ []) ∷ [])) (some reset_by_peer))
    ≡ (1 ∷ 2 ∷ 3 ∷ 4 ∷ [], some (err reset_by_peer))
unfolding flatten
drain-finish_stream_example =
    drain-finish_stream 2 ((1 ∷ 2 ∷ 3 ∷ []) ∷ (4 ∷ []) ∷ []) (some reset_by_peer) (omega arith)
      (λ e. cc, (λ e. cc, tt))

abbrev session_calls : List Call
session_calls =
    opens 2 ∷ opens 2 ∷ opens 2 ∷ pushes 1 (7 ∷ []) ∷ peer_closes 2 ∷ terminates ∷ inserts 4 ∷ []

calls-IsTable_example : IsTable (calls new_session session_calls)
calls-IsTable_example = calls-IsTable session_calls

-- A session with two streams.
abbrev two_streams : Session
two_streams = record new_session {
  streams = (1, 0) ∷ (2, 1) ∷ [];
  store = λ h. new_stream (h + 1);
  next_handle = 2;
  idle = false;
}

abbrev acks : Acks
acks sent = ok tt

abbrev digest : Bytes → Text
digest b = to_string (length b)

abbrev server : State
server = record {
  padding = record { scheme = []; raw_scheme = []; stop = 0; md5 = [] };
  peer_version = 0;
  received_settings_from_client = false;
}

abbrev no_settings : List Frame
no_settings = frame_with_data psh 1 (1 ∷ []) ∷ new_frame syn 1 ∷ new_frame syn 2 ∷ []

run-announced_example :
    let ((t, last), e) = run acks digest new_session server false no_settings in
    (t.announced ≡ []) × (t.closed ≡ true)
run-announced_example = run-announced acks digest new_session server no_settings refl (ground arith)

abbrev audit_calls : List AuditCall
audit_calls = one 1 adds ∷ one 2 (enables true) ∷ one 1 (ups 5) ∷ one 2 (ups 6) ∷ one 1 (ups 7) ∷ []

lookup-audits_example :
    lookup 1 (audits audit_calls [])
    ≡ some (record { enable = false; upstream_traffic = 12; downstream_traffic = 0 })
unfolding lookup seen_all add_upstream_traffic
lookup-audits_example = lookup-audits 1 audit_calls []
