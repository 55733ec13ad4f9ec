-- ===== src/Proxy/Session.antt =====
-- src/proxy/session/inner.rs and src/proxy/session/stream.rs: a session's table of streams, and what
-- the session and the streams do to it. Streams are shared, so the table holds handles into a store.
-- A call runs to its end before another task touches the table; the task that `Stream::close` spawns
-- for its pipe is a step of its own.
pub mod Table
pub mod Operations
pub mod Calls
pub mod Actions
pub mod Routing
use anytls_rs_legacy.Common.{
  ℕ, ◌+◌, ◌%◌, ◌^◌, Bool, true, false, not, ◌||◌, Option, none, some, List, [], ◌∷◌, ◌++◌, map,
  length, leb, ltb, ◌==◌, if◌then◌else◌, nat_key, IoError, io_error, broken_pipe, would_block,
  invalid_data, other, remote, Text, Result, ok, err,
}
use anytls_rs_legacy.Common.Bytes.{Bytes}
use anytls_rs_legacy.Common.Map.{Map, lookup, insert, remove}
use anytls_rs_legacy.Core.Frame.{Frame, syn, psh, fin, new_frame, frame_with_data}
use anytls_rs_legacy.Proxy.Pipe.{PipeInner, new_pipe, finish_stream, close_with_error}
use anytls_rs_legacy.Proxy.Pipe

pub record Stream : Type 0 where
  pub id : ℕ
  pub pipe : PipeInner
  pub closed : Bool

abbrev pub Store : Type 0
Store = ℕ → Stream

abbrev pub put_stream : ℕ → Stream → Store → Store
put_stream h t store k = if k == h then t else store k

-- `idle` is the watched value, `announced` the streams that `on_new_stream` was called with, `sent` the
-- frames that went to the writer, `tx_open` whether the writer still takes frames, and `closing` the
-- streams whose pipes a spawned task has yet to close.
pub record Session : Type 0 where
  pub streams : Map ℕ ℕ
  pub store : Store
  pub next_handle : ℕ
  pub next_stream_id : ℕ
  pub closed : Bool
  pub idle : Bool
  pub tx_open : Bool
  pub sent : List Frame
  pub announced : List ℕ
  pub closing : List ℕ

abbrev pub new_stream : ℕ → Stream
new_stream sid = record { id = sid; pipe = new_pipe; closed = false }

abbrev pub new_session : Session
new_session = record {
  streams = [];
  store = λ h. new_stream 0;
  next_handle = 0;
  next_stream_id = 0;
  closed = false;
  idle = true;
  tx_open = true;
  sent = [];
  announced = [];
  closing = [];
}

abbrev pub session_closed : IoError
session_closed = io_error broken_pipe "Session closed"

abbrev pub is_terminated : Session → Bool
is_terminated s = s.closed || not s.tx_open

unfoldable pub write_frame : Session → Frame → Session × Result ℕ
write_frame s frame =
    if s.tx_open
    then (record s { sent = s.sent ++ (frame ∷ []) }, ok (length frame.payload))
    else (s, err session_closed)

abbrev pub is_empty_map : Map ℕ ℕ → Bool
is_empty_map [] = true
is_empty_map (e ∷ es) = false

-- A new stream in the table and in the store.
unfoldable pub add_stream : Session → ℕ → Session × ℕ
add_stream s sid = (
  record s {
    streams = insert sid s.next_handle s.streams;
    store = put_stream s.next_handle (new_stream sid) s.store;
    next_handle = s.next_handle + 1;
    idle = false;
  },
  s.next_handle,
)

unfoldable pub remove_stream : Session → ℕ → Session × Option ℕ
remove_stream s sid =
    let rest = remove sid s.streams in
    (
      record s { streams = rest; idle = if is_empty_map rest then true else s.idle },
      lookup sid s.streams,
    )

-- `close_from_peer` and `close_from_session`: the first close of a stream finishes its pipe.
unfoldable pub close_from_peer : Session → ℕ → Option IoError → Session
close_from_peer s h error =
    let t = s.store h in
    if t.closed then s else record s {
      store = put_stream h (record t { closed = true; pipe = finish_stream t.pipe error }) s.store;
    }

unfoldable pub close_removed : Session × Option ℕ → Option IoError → Session
close_removed (s, none) error = s
close_removed (s, some h) error = close_from_peer s h error

-- The end of `open_stream`: the stream is announced to the peer, or taken back.
unfoldable pub keep_or_remove : Session → ℕ → ℕ → Result ℕ → Session × Result ℕ
keep_or_remove s sid h (ok _) = (s, ok h)
keep_or_remove s sid h (err e) = (
  close_from_peer (remove_stream s sid).0 h (some (record { kind = other; message = e.message })),
  err e,
)

unfoldable pub announce_syn : Session × ℕ → ℕ → Session × Result ℕ
announce_syn (s, h) sid = let (t, r) = write_frame s (new_frame syn sid) in keep_or_remove t sid h r

unfoldable pub open_stream : Session → ℕ → Session × Result ℕ
open_stream s max_streams =
    if is_terminated s
    then (s, err session_closed)
    else if leb max_streams (length s.streams)
    then (s, err (io_error would_block "Session stream limit reached"))
    else (let sid = (s.next_stream_id + 1) % 2 ^ 32 in
        let t = record s { next_stream_id = sid } in
        if sid == 0
        then (t, err (io_error other "Stream identifier exhausted"))
        else announce_syn (add_stream t sid) sid)

-- What `create_incoming_stream` does under the lock, behind its tests.
unfoldable pub insert_incoming : Session → ℕ → Session × Option ℕ
insert_incoming s sid = elim (lookup sid s.streams) [
  | some h ↦ (s, some h)
  | none ↦
      let (t, h) = add_stream s sid in (record t { announced = t.announced ++ (h ∷ []) }, some h)
]

unfoldable pub create_incoming_stream : Session → ℕ → Session × Option ℕ
create_incoming_stream s sid =
    if sid == 0 || is_terminated s then (s, none) else insert_incoming s sid

unfoldable pub close_all : Session → List ℕ → Session
close_all s [] = s
close_all s (h ∷ hs) = close_all (close_from_peer s h none) hs

unfoldable pub terminate_session_wide : Session → Session
terminate_session_wide s =
    if s.closed
    then s
    else close_all (record s { closed = true; streams = []; idle = true })
        (map (λ e. e.1) s.streams)

-- `ProtocolHost for Session`.
unfoldable pub push_to : Session → ℕ → Bytes → Session × Result (Unit {0})
push_to s h payload =
    let t = s.store h in
    if t.closed
    then (s, ok tt)
    else (let (p, r) = Pipe.write t.pipe payload in
        (
          record s { store = put_stream h (record t { pipe = p }) s.store },
          elim r [ ok _ ↦ ok tt | err e ↦ err e ],
        ))

unfoldable pub push_stream_data : Session → ℕ → Bytes → Session × Result (Unit {0})
push_stream_data s sid payload = elim (lookup sid s.streams) [
  | none ↦ (s, ok tt)
  | some h ↦ push_to s h payload
]

unfoldable pub ensure_incoming_stream : Session → ℕ → Session × Result (Unit {0})
ensure_incoming_stream s sid =
    if sid == 0
    then (s, err (io_error invalid_data "SYN cannot use control sid 0"))
    else ((create_incoming_stream s sid).0, ok tt)

unfoldable pub close_logical_stream : Session → ℕ → Session
close_logical_stream s sid = close_removed (remove_stream s sid) none

unfoldable pub terminate_session : Session → ℕ → Text → Session
terminate_session s sid message =
    close_removed (remove_stream s sid) (some (record { kind = other; message = remote message }))

-- `Stream::write` and `Stream::close`, on the stream of a handle.
unfoldable pub write_stream : Session → ℕ → Bytes → Session × Result ℕ
write_stream s h buf =
    let t = s.store h in
    if t.closed
    then (s, err (io_error broken_pipe "Stream closed"))
    else write_frame s (frame_with_data psh t.id buf)

unfoldable pub close_stream : Session → ℕ → Session × Result (Unit {0})
close_stream s h =
    let t = s.store h in
    if t.closed
    then (s, ok tt)
    else (let u =
          (remove_stream (record s { store = put_stream h (record t { closed = true }) s.store })
            t.id).0 in
        let (v, r) = write_frame (record u { closing = h ∷ u.closing }) (new_frame fin t.id) in
        (v, elim r [ ok _ ↦ ok tt | err e ↦ err e ]))

-- The task that `Stream::close` spawned for the pipe of a stream.
unfoldable pub run_closing : Session → Session
run_closing s = elim s.closing [
  | [] ↦ s
  | h ∷ hs ↦
      let t = s.store h in
      record s {
        closing = hs;
        store = put_stream h (record t { pipe = close_with_error t.pipe none }) s.store;
      }
]
