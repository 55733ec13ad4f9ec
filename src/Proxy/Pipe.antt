-- ===== src/Proxy/Pipe.antt =====
-- src/proxy/pipe/io_pipe.rs: the pipe between a session and the reader of a stream. `sender` and
-- `receiver` say whether `data_sender` and `data_receiver` are there, and `queue` is the channel
-- between them. Each function runs under the lock; `read` gives the lock up before it waits on the
-- channel, so it is cut into `look`, `take_receiver`, `recv` and `finish_read`, between which other
-- tasks may run.
pub mod Order
pub mod Draining
use anytls_rs_legacy.Common.{
  ℕ, Bool, true, false, not, ◌&&◌, ◌||◌, Option, none, some, List, [], ◌∷◌, ◌++◌, length, take,
  drop, if◌then◌else◌, IoError, io_error, broken_pipe, timed_out, Result, ok, err,
}
use anytls_rs_legacy.Common.Bytes.{Bytes}

pub data PipeEvent : Type 0 where
  bytes : Bytes → PipeEvent
  stream_end : Option IoError → PipeEvent

pub record PipeInner : Type 0 where
  pub closed : Bool
  pub stream_end_queued : Bool
  pub read_error : Option IoError
  pub sender : Bool
  pub receiver : Bool
  pub queue : List PipeEvent
  pub buffer : Bytes

abbrev pub new_pipe : PipeInner
new_pipe = record {
  closed = false;
  stream_end_queued = false;
  read_error = none;
  sender = true;
  receiver = true;
  queue = [];
  buffer = [];
}

abbrev pub pipe_closed : IoError
pipe_closed = io_error broken_pipe "Pipe closed"

-- The channel takes an event as long as the receiver lives, which the pipe or its reader holds.
unfoldable pub write : PipeInner → Bytes → PipeInner × Result ℕ
write p b =
    if p.closed || p.stream_end_queued
    then (p, err pipe_closed)
    else if p.sender
    then (record p { queue = p.queue ++ (bytes b ∷ []) }, ok (length b))
    else (p, err pipe_closed)

-- The send of the end fails only where a read was dropped that had taken the receiver, which is not modelled.
unfoldable pub finish_stream : PipeInner → Option IoError → PipeInner
finish_stream p error =
    if p.closed || p.stream_end_queued
    then p
    else if p.sender
    then record p { stream_end_queued = true; queue = p.queue ++ (stream_end error ∷ []) }
    else record p { stream_end_queued = true; closed = true; sender = false }

unfoldable pub close_with_error : PipeInner → Option IoError → PipeInner
close_with_error p error = record p { read_error = error; closed = true; sender = false }

-- What an error that was left behind, or its absence, makes a read return.
abbrev pub end_result : Option IoError → Result Bytes
end_result none = ok []
end_result (some e) = err e

-- The first part of a round of `read`: it returns, waits for the receiver, or goes on to take it.
pub data Look : Type 0 where
  returned : Result Bytes → Look
  waiting proceeding : Look

unfoldable pub look : ℕ → PipeInner → PipeInner × Look
look n p = elim p.buffer [
  | c ∷ cs ↦ (record p { buffer = drop n (c ∷ cs) }, returned (ok (take n (c ∷ cs))))
  | [] ↦
      if p.closed && not p.sender
      then (record p { read_error = none }, returned (end_result p.read_error))
      else if not p.receiver
      then (p, waiting)
      else (p, proceeding)
]

unfoldable pub take_receiver : PipeInner → PipeInner × Result (Unit {0})
take_receiver p =
    if p.receiver
    then (record p { receiver = false }, ok tt)
    else (p, err (io_error broken_pipe "Pipe reader already in use"))

-- What `select!` comes back with: an event, the end of a channel without senders, or the deadline.
pub data Received : Type 0 where
  event : PipeEvent → Received
  nothing : Received

-- `receiver.recv()`: pending while the channel is empty and has a sender.
unfoldable pub recv : PipeInner → Option (PipeInner × Received)
recv p = elim p.queue [
  | e ∷ es ↦ some (record p { queue = es }, event e)
  | [] ↦ if p.sender then none else some (p, nothing)
]

unfoldable pub finish_read : ℕ → PipeInner → Received → PipeInner × Result Bytes
finish_read n p (event (bytes b)) =
    (record p { receiver = true; buffer = p.buffer ++ drop n b }, ok (take n b))
finish_read n p (event (stream_end error)) =
    (record p { receiver = true; closed = true; sender = false }, end_result error)
finish_read n p nothing = elim p.read_error [
  | some e ↦ (record p { receiver = true; read_error = none }, err e)
  | none ↦
      if not p.sender
      then (record p { receiver = true }, ok [])
      else (record p { receiver = true }, err (io_error timed_out "read deadline reached"))
]

-- A read that no other task interrupts; none if it has to wait.
unfoldable pub read : ℕ → PipeInner → Option (PipeInner × Result Bytes)
read n p =
    let (q, l) = look n p in
    elim l [
      | returned r ↦ some (q, r)
      | waiting ↦ none
      | proceeding ↦
          let (s, t) = take_receiver q in
          elim t [
            | err e ↦ some (s, err e)
            | ok _ ↦ elim (recv s) [ none ↦ none | some (u, got) ↦ some (finish_read n u got) ]
          ]
    ]
