-- ===== src/Runtime/Writer/Counter.antt =====
-- src/runtime/mod.rs, `next_packet_counter`: the `u32` counter does not overflow.
use anytls_rs_legacy.Common.{◌+◌, ◌^◌, ◌<◌, ◌≡◌, ◌⊎◌, false, List, [], ◌∷◌, arith, All}
use anytls_rs_legacy.Common.Bytes.{Bytes}
use anytls_rs_legacy.Core.Frame.{to_bytes}
use anytls_rs_legacy.Core.Padding.{PaddingFactory, Rng}
use anytls_rs_legacy.Runtime.Writer.{
  WriterState, Conn, write_conn, write_padded, next_packet_counter, take_buffered_bytes,
  disable_send_padding, append_buffered_bytes, Job, writer_loop,
}

-- Either no more packets are counted, or the next one can be.
abbrev pub CanCount : WriterState → Type 0
CanCount w = (w.send_padding ≡ false) ⊎ (w.pkt_counter + 1 < 2 ^ 32)

write_conn-CanCount :
    (c : Conn) (padding : PaddingFactory) (rng : Rng) (w : WriterState) (written : List Bytes)
    (b : Bytes)
    → padding.stop < 2 ^ 32
    → CanCount w
    → CanCount (write_conn c padding rng w written b).0
unfolding write_conn write_padded next_packet_counter take_buffered_bytes disable_send_padding
    append_buffered_bytes
write_conn-CanCount c padding rng w written b h k = ground arith

-- Whatever is written, with whatever schemes whose `stop` fits a `u32`, the counter of a session's
-- packets never has to go past a `u32`: padding stops before.
pub writer_loop-CanCount :
    (c : Conn) (w : WriterState) (written : List Bytes) (jobs : List Job)
    → All (λ j. j.padding.stop < 2 ^ 32) jobs
    → CanCount w
    → CanCount (writer_loop c w written jobs).state
unfolding writer_loop
writer_loop-CanCount c w written [] h k = k
writer_loop-CanCount c w written (j ∷ jobs) h k =
    let r = write_conn c j.padding j.rng w written (to_bytes j.frame) in
    let next = write_conn-CanCount c j.padding j.rng w written (to_bytes j.frame) h.0 k in
    ground (arith, writer_loop-CanCount c r.0 r.1.0 jobs h.1 next)
