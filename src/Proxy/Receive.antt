-- ===== src/Proxy/Receive.antt =====
-- src/proxy/session/inner.rs, `recv_loop`: cutting the received bytes into frames. A round of the
-- loop reads a chunk and takes out every whole frame; what is left waits for the next chunk.
pub mod Chunks
use anytls_rs_legacy.Common.{
  ℕ, zero, suc, ◌+◌, Option, none, some, List, [], ◌∷◌, ◌++◌, length, drop,
}
use anytls_rs_legacy.Common.Bytes.{Bytes}
use anytls_rs_legacy.Core.Frame.{Frame, header_overhead_size, from_bytes}

-- `while let Some(frame) = Frame::from_bytes(&pending)`. Each round takes a byte at least.
unfoldable pub take_frames : ℕ → Bytes → List Frame × Bytes
take_frames zero pending = ([], pending)
take_frames (suc fuel) pending = elim (from_bytes pending) [
  | none ↦ ([], pending)
  | some frame ↦
      let (frames, rest) =
        take_frames fuel (drop (header_overhead_size + length frame.payload) pending) in
      (frame ∷ frames, rest)
]

unfoldable pub receive : Bytes → List Frame × Bytes
receive pending = take_frames (length pending) pending

-- The chunks that arrive, the pending bytes carried from one to the next.
unfoldable pub receive_chunks : Bytes → List Bytes → List Frame × Bytes
receive_chunks pending [] = ([], pending)
receive_chunks pending (chunk ∷ chunks) =
    let (first, rest) = receive (pending ++ chunk) in
    let (later, last) = receive_chunks rest chunks in (first ++ later, last)
