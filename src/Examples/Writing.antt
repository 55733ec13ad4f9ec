-- ===== src/Examples/Writing.antt =====
-- The theorems on the writer task at concrete inputs.
use mathlib.Core.List.{flatten}
use anytls_rs_legacy.Common.{
  ℕ, ◌≡◌, refl, inl, inr, true, false, List, [], ◌∷◌, arith, Bool-cases, codes, Result, ok,
  text_same, text_key,
}
use anytls_rs_legacy.Common.Bytes.{Bytes}
use anytls_rs_legacy.Common.Map.{lookup}
use anytls_rs_legacy.Core.Text.{decimal, to_string, split, split_once, parse_i64}
use anytls_rs_legacy.Core.Frame.{Frame, u8_of_command, psh, syn, frame_with_data, new_frame}
use anytls_rs_legacy.Core.Padding.{
  PaddingFactory, Rng, generate_record_payload_sizes, item_sizes, item_size, range_size,
}
use anytls_rs_legacy.Proxy.Receive.{receive}
use anytls_rs_legacy.Runtime.Writer.{
  WriterState, Conn, Job, write_conn, writer_loop, take_buffered_bytes, write_padded,
  next_packet_counter, write_rest, write_records, write_all, record_move, pad_record, padding_frame,
}
use anytls_rs_legacy.Runtime.Writer.Records.{SizesFit}
use anytls_rs_legacy.Runtime.Writer.Transparent.{
  unpadded, IsHealthy, receive-writer_loop, writer_loop-healthy,
}
use anytls_rs_legacy.Runtime.Writer.Counter.{CanCount, writer_loop-CanCount}

abbrev padding : PaddingFactory
padding = record { scheme = (codes "1", codes "40-40") ∷ []; raw_scheme = []; stop = 3; md5 = [] }

abbrev lowest : Rng
lowest i lo hi = lo

padding-SizesFit : SizesFit padding lowest
unfolding generate_record_payload_sizes lookup item_sizes item_size range_size split split_once
    parse_i64 text_same
padding-SizesFit pkt = elim (Bool-cases (text_same (codes "1") (to_string pkt))) [
  | inl e ↦ rw (e, generate_record_payload_sizes) (omega arith)
  | inr e ↦ rw (e, generate_record_payload_sizes) tt
]

abbrev wire_conn : Conn
wire_conn = record { accepts = λ written b. true; flushes = λ written. true }

wire_conn-IsHealthy : IsHealthy wire_conn
wire_conn-IsHealthy = (λ written b. refl, λ written. refl)

abbrev hello : Frame
hello = frame_with_data psh 1 (104 ∷ 105 ∷ [])

abbrev job : Frame → Job
job f = record { frame = f; ack = true; padding = padding; rng = lowest }

abbrev jobs : List Job
jobs = job (new_frame syn 1) ∷ job hello ∷ []

abbrev new_writer : WriterState
new_writer = record { send_padding = true; buffering = false; buffer = []; pkt_counter = 0 }

receive-writer_loop_example :
    let received = receive (flatten (writer_loop wire_conn new_writer [] jobs).written) in
    (unpadded received.0 ≡ unpadded (new_frame syn 1 ∷ hello ∷ [])) × (received.1 ≡ [])
receive-writer_loop_example =
    receive-writer_loop wire_conn new_writer jobs refl refl
      (
        (record { command = tt; stream = omega arith; fits = omega arith }, padding-SizesFit),
        ((record { command = tt; stream = omega arith; fits = omega arith }, padding-SizesFit), tt),
      )
      (writer_loop-healthy wire_conn wire_conn-IsHealthy new_writer [] jobs)

writer_loop-CanCount_example : CanCount (writer_loop wire_conn new_writer [] jobs).state
writer_loop-CanCount_example =
    writer_loop-CanCount wire_conn new_writer [] jobs (omega arith, (omega arith, tt))
      (inr (omega arith))

-- The bytes of a packet that is written with padding in front of the last size.
abbrev packet : Bytes
packet = 1 ∷ 2 ∷ 3 ∷ []

abbrev sent_packet : WriterState × (List Bytes × Result ℕ)
sent_packet = write_conn wire_conn padding lowest new_writer [] packet

sent_packet-ok : sent_packet ≡ (sent_packet.0, (sent_packet.1.0, ok 3))
unfolding write_conn take_buffered_bytes write_padded next_packet_counter write_rest write_records
    write_all generate_record_payload_sizes lookup text_same to_string decimal item_sizes split
    item_size split_once parse_i64 range_size record_move pad_record padding_frame u8_of_command
sent_packet-ok = refl
