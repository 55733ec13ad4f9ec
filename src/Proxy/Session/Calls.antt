-- ===== src/Proxy/Session/Calls.antt =====
-- src/proxy/session/inner.rs: the table of streams under any sequence of calls.
use anytls_rs_legacy.Common.{
  ℕ, refl, inl, inr, false, none, List, [], ◌∷◌, ◌==◌, arith, if◌then◌else◌, nat_key, Bool-cases,
  Text,
}
use anytls_rs_legacy.Common.Bytes.{Bytes}
use anytls_rs_legacy.Common.Map.{lookup}
use anytls_rs_legacy.Proxy.Session.{
  Session, new_session, remove_stream, open_stream, terminate_session_wide, push_stream_data,
  ensure_incoming_stream, close_logical_stream, insert_incoming, terminate_session, write_stream,
  close_stream, run_closing,
}
use anytls_rs_legacy.Proxy.Session.Table.{
  IsTable, new_session-IsTable, write_frame-IsTable, close_removed-IsTable,
}
use anytls_rs_legacy.Proxy.Session.Operations.{
  open_stream-IsTable, insert_incoming-IsTable, create_incoming_stream-IsTable, terminate-IsTable,
  push_stream_data-IsTable, close_stream-IsTable, run_closing-IsTable,
}

-- The calls of the program's tasks on a session and on its streams, and the part of `create_incoming_stream`
-- behind its tests, which runs after whatever other tasks did since the tests.
pub data Call : Type 0 where
  opens : ℕ → Call
  ensures : ℕ → Call
  inserts : ℕ → Call
  pushes : ℕ → Bytes → Call
  peer_closes : ℕ → Call
  peer_fails : ℕ → Text → Call
  writes : ℕ → Bytes → Call
  closes : ℕ → Call
  closes_pipe terminates writer_ends : Call

unfoldable pub call : Session → Call → Session
call s (opens max_streams) = (open_stream s max_streams).0
call s (ensures sid) = (ensure_incoming_stream s sid).0
call s (inserts sid) = if sid == 0 then s else (insert_incoming s sid).0
call s (pushes sid b) = (push_stream_data s sid b).0
call s (peer_closes sid) = close_logical_stream s sid
call s (peer_fails sid message) = terminate_session s sid message
call s (writes h b) = (write_stream s h b).0
call s (closes h) = (close_stream s h).0
call s closes_pipe = run_closing s
call s terminates = terminate_session_wide s
call s writer_ends = record s { tx_open = false }

unfoldable pub calls : Session → List Call → Session
calls s [] = s
calls s (c ∷ cs) = calls (call s c) cs

close_logical-IsTable : (s : Session) (sid : ℕ) → IsTable s → IsTable (close_logical_stream s sid)
unfolding close_logical_stream remove_stream
close_logical-IsTable s sid i = close_removed-IsTable s sid (lookup sid s.streams) none i refl

terminate_session-IsTable :
    (s : Session) (sid : ℕ) (message : Text) → IsTable s → IsTable (terminate_session s sid message)
unfolding terminate_session remove_stream
terminate_session-IsTable s sid message i =
    close_removed-IsTable s sid (lookup sid s.streams) _ i refl

call-IsTable : (s : Session) (c : Call) → IsTable s → IsTable (call s c)
unfolding call ensure_incoming_stream write_stream
call-IsTable s (opens max_streams) i = open_stream-IsTable s max_streams i
call-IsTable s (ensures sid) i = elim (Bool-cases (sid == 0)) [
  | inl e ↦ rw (e, call, ensure_incoming_stream) i
  | inr e ↦ rw (e, call, ensure_incoming_stream) (create_incoming_stream-IsTable s sid i)
]
call-IsTable s (inserts sid) i = elim (Bool-cases (sid == 0)) [
  | inl e ↦ rw (e, call) i
  | inr e ↦ rw (e, call) (insert_incoming-IsTable s sid (ground (arith, e)) i)
]
call-IsTable s (pushes sid b) i = push_stream_data-IsTable s sid b i
call-IsTable s (peer_closes sid) i = close_logical-IsTable s sid i
call-IsTable s (peer_fails sid message) i = terminate_session-IsTable s sid message i
call-IsTable s (writes h b) i = elim (Bool-cases (s.store h).closed) [
  | inl e ↦ rw (e, call, write_stream) i
  | inr e ↦ rw (e, call, write_stream) (write_frame-IsTable s _ i)
]
call-IsTable s (closes h) i = close_stream-IsTable s h i
call-IsTable s closes_pipe i = run_closing-IsTable s i
call-IsTable s terminates i = terminate-IsTable s i
call-IsTable s writer_ends i = record { idle_exact = i.idle_exact; entries = i.entries }

calls-IsTable_from : (s : Session) (cs : List Call) → IsTable s → IsTable (calls s cs)
unfolding calls
calls-IsTable_from s [] i = i
calls-IsTable_from s (c ∷ cs) i = calls-IsTable_from (call s c) cs (call-IsTable s c i)

-- Whatever sequence of calls is made on a session, each of them whole but that a late `create_incoming_stream` can come any time after its tests: the table holds open streams only, each under its own identifier, which is not zero, and the session counts as idle exactly when it has no stream.
pub calls-IsTable : (cs : List Call) → IsTable (calls new_session cs)
calls-IsTable cs = calls-IsTable_from new_session cs new_session-IsTable
