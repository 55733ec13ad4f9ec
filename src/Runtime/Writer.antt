-- ===== src/Runtime/Writer.antt =====
-- src/runtime/mod.rs: the writer task of a session. It owns the connection; what it wrote is a list
-- of writes. Which writes and flushes succeed is decided by the connection, a parameter.
pub mod Counter
pub mod Records
pub mod Transparent
use anytls_rs_legacy.Common.{
  ℕ, zero, suc, ◌+◌, ◌-◌, ◌%◌, ◌^◌, Bool, true, false, ◌&&◌, List, [], ◌∷◌, ◌++◌, ltb, ◌==◌,
  if◌then◌else◌, length, take, drop, replicate, Result, ok, err, io_error, broken_pipe, other,
  IoError,
}
use anytls_rs_legacy.Common.Int.{ℤ, pos, negsuc, to_usize}
use anytls_rs_legacy.Common.Bytes.{Bytes, put_u16}
use anytls_rs_legacy.Core.Frame.{Frame, waste, u8_of_command, header_overhead_size, to_bytes}
use anytls_rs_legacy.Core.Padding.{PaddingFactory, Rng, generate_record_payload_sizes}

pub record WriterState : Type 0 where
  pub send_padding : Bool
  pub buffering : Bool
  pub buffer : Bytes
  pub pkt_counter : ℕ

unfoldable pub new_writer_state : Bool → WriterState
new_writer_state is_client = record {
  send_padding = is_client;
  buffering = false;
  buffer = [];
  pkt_counter = 0;
}

unfoldable pub set_buffering : WriterState → Bool → WriterState
set_buffering w enabled = record w { buffering = enabled }

unfoldable pub append_buffered_bytes : WriterState → Bytes → WriterState
append_buffered_bytes w bytes = record w { buffer = w.buffer ++ bytes }

unfoldable pub take_buffered_bytes : WriterState → WriterState × Bytes
take_buffered_bytes w = (record w { buffer = [] }, w.buffer)

-- `*counter += 1` of a `u32`.
unfoldable pub next_packet_counter : WriterState → WriterState × ℕ
next_packet_counter w = (record w { pkt_counter = w.pkt_counter + 1 }, w.pkt_counter + 1)

unfoldable pub disable_send_padding : WriterState → WriterState
disable_send_padding w = record w { send_padding = false }

-- The connection: whether it takes a write, or a flush, after those that it took before.
pub record Conn : Type 0 where
  pub accepts : List Bytes → Bytes → Bool
  pub flushes : List Bytes → Bool

abbrev pub write_failed : IoError
write_failed = io_error other "connection"

unfoldable pub write_all : Conn → List Bytes → Bytes → List Bytes × Result (Unit {0})
write_all c written b =
    if c.accepts written b then (written ++ (b ∷ []), ok tt) else (written, err write_failed)

-- `vec![0; 7 + n]` with the command and the sixteen length bits set.
unfoldable pub padding_frame : ℕ → Bytes
padding_frame n = u8_of_command waste ∷ 0 ∷ 0 ∷ 0 ∷ 0 ∷ (put_u16 (n % 65536) ++ replicate n 0)

-- What one size does to the bytes that remain: stop, nothing, or a write.
pub data Move : Type 0 where
  stop : Move
  skip : Move
  emit : Bytes → Bytes → Move

abbrev pub is_check_mark : ℤ → Bool
is_check_mark (negsuc zero) = true
is_check_mark (negsuc (suc n)) = false
is_check_mark (pos n) = false

-- The bytes and, where the record has room for a header and more, a padding frame behind them.
unfoldable pub pad_record : ℕ → Bytes → Bytes
pad_record frame_len bytes =
    let padding_len = frame_len - length bytes - header_overhead_size in
    if ltb 0 padding_len then bytes ++ padding_frame padding_len else bytes

unfoldable pub record_move : ℤ → Bytes → Move
record_move spec bytes =
    if is_check_mark spec
    then (if length bytes == 0 then stop else skip)
    else if ltb (to_usize spec) (length bytes)
    then emit (take (to_usize spec) bytes) (drop (to_usize spec) bytes)
    else if ltb 0 (length bytes)
    then emit (pad_record (to_usize spec) bytes) []
    else emit (padding_frame (to_usize spec)) []

-- The loop over the sizes: the writes so far, and the bytes that remain.
unfoldable pub write_records : Conn → List ℤ → List Bytes → Bytes → List Bytes × Result Bytes
write_records c [] written bytes = (written, ok bytes)
write_records c (spec ∷ specs) written bytes = elim (record_move spec bytes) [
  | stop ↦ (written, ok bytes)
  | skip ↦ write_records c specs written bytes
  | emit out rest ↦ elim (write_all c written out).1 [
    | err e ↦ ((write_all c written out).0, err e)
    | ok _ ↦ write_records c specs (write_all c written out).0 rest
  ]
]

abbrev pub report : ℕ → List Bytes × Result (Unit {0}) → List Bytes × Result ℕ
report n (written, ok _) = (written, ok n)
report n (written, err e) = (written, err e)

-- The rest of a packet after its records: nothing to do if nothing is left.
unfoldable pub write_rest : Conn → ℕ → List Bytes × Result Bytes → List Bytes × Result ℕ
write_rest c payload_len (written, err e) = (written, err e)
write_rest c payload_len (written, ok bytes) =
    if length bytes == 0
    then (written, ok payload_len)
    else report payload_len (write_all c written bytes)

unfoldable pub write_padded :
    Conn
    → PaddingFactory
    → Rng
    → WriterState
    → List Bytes
    → Bytes
    → WriterState × (List Bytes × Result ℕ)
write_padded c padding rng w written bytes =
    let (w', pkt) = next_packet_counter w in
    if ltb pkt padding.stop
    then (
      w',
      write_rest c (length bytes)
          (write_records c (generate_record_payload_sizes padding rng pkt) written bytes),
    )
    else (disable_send_padding w', report (length bytes) (write_all c written bytes))

unfoldable pub write_conn :
    Conn
    → PaddingFactory
    → Rng
    → WriterState
    → List Bytes
    → Bytes
    → WriterState × (List Bytes × Result ℕ)
write_conn c padding rng w written bytes =
    if w.buffering
    then (append_buffered_bytes w bytes, (written, ok (length bytes)))
    else (let (w', pending) = take_buffered_bytes w in
        if w'.send_padding
        then write_padded c padding rng w' written (pending ++ bytes)
        else (w', report (length (pending ++ bytes)) (write_all c written (pending ++ bytes))))

-- A frame in the queue of the writer, whether its sender waits for an answer, and the scheme and the
-- random draws in force when it is written.
pub record Job : Type 0 where
  pub frame : Frame
  pub ack : Bool
  pub padding : PaddingFactory
  pub rng : Rng

-- What a sender that waits is told.
abbrev pub answer : Bool → Result (Unit {0}) → List (Result (Unit {0}))
answer false r = []
answer true r = r ∷ []

unfoldable pub flush : Conn → List Bytes × Result ℕ → Result (Unit {0})
flush c (written, err e) = err e
flush c (written, ok n) = if c.flushes written then ok tt else err write_failed

pub record Run : Type 0 where
  pub state : WriterState
  pub written : List Bytes
  pub answers : List (Result (Unit {0}))
  pub failed : Bool

-- The loop of `spawn_writer_task`: it ends at the first frame that cannot be written.
unfoldable pub writer_loop : Conn → WriterState → List Bytes → List Job → Run
writer_loop c w written [] = record { state = w; written = written; answers = []; failed = false }
writer_loop c w written (job ∷ jobs) =
    let (w', r) = write_conn c job.padding job.rng w written (to_bytes job.frame) in
    elim (flush c r) [
      | err e ↦ record {
        state = w';
        written = r.0;
        answers = answer job.ack (err (io_error broken_pipe "Write failed"));
        failed = true;
      }
      | ok _ ↦
          let rest = writer_loop c w' r.0 jobs in
          record rest { answers = answer job.ack (ok tt) ++ rest.answers }
    ]
