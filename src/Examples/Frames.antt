-- ===== src/Examples/Frames.antt =====
-- The theorems on frames and on cutting bytes into frames at concrete inputs.
use mathlib.Core.List.{flatten}
use anytls_rs_legacy.Common.{
  ℕ, ◌≡◌, ◌≢◌, refl, some, List, [], ◌∷◌, ◌++◌, arith, replicate, length-replicate,
}
use anytls_rs_legacy.Common.Bytes.{Bytes}
use anytls_rs_legacy.Core.Frame.{
  Frame, syn, psh, frame_with_data, new_frame, u8_of_command, to_bytes, from_bytes,
}
use anytls_rs_legacy.Core.Frame.RoundTrip.{
  IsWire, from_bytes-to_bytes, from_bytes-to_bytes_oversized,
}
use anytls_rs_legacy.Proxy.Receive.{receive, receive_chunks, take_frames}
use anytls_rs_legacy.Proxy.Receive.Chunks.{wire, receive_chunks-flatten, receive-wire}

abbrev hello : Frame
hello = frame_with_data psh 7 (104 ∷ 105 ∷ [])

abbrev hello_bytes : Bytes
hello_bytes = 2 ∷ 0 ∷ 0 ∷ 0 ∷ 7 ∷ 0 ∷ 2 ∷ 104 ∷ 105 ∷ []

hello-IsWire : IsWire hello
hello-IsWire = record { command = tt; stream = omega arith; fits = omega arith }

from_bytes-to_bytes_example : from_bytes (hello_bytes ++ (9 ∷ [])) ≡ some hello
unfolding to_bytes u8_of_command
from_bytes-to_bytes_example = from_bytes-to_bytes hello (9 ∷ []) hello-IsWire

abbrev huge : Frame
huge = frame_with_data psh 1 (replicate 65536 0)

from_bytes-to_bytes_oversized_example : from_bytes (to_bytes huge ++ []) ≢ some huge
from_bytes-to_bytes_oversized_example =
    from_bytes-to_bytes_oversized huge [] (omega arith)
      (omega (arith, length-replicate {A = ℕ} 65536 0))

abbrev chunks : List Bytes
chunks = (2 ∷ 0 ∷ 0 ∷ []) ∷ (0 ∷ 7 ∷ 0 ∷ 2 ∷ 104 ∷ []) ∷ (105 ∷ 1 ∷ []) ∷ []

receive_chunks-flatten_example : receive_chunks [] chunks ≡ receive (hello_bytes ++ (1 ∷ []))
unfolding flatten
receive_chunks-flatten_example =
    receive_chunks-flatten [] chunks (unfold receive take_frames in refl)

receive-wire_example :
    receive (wire (hello ∷ new_frame syn 8 ∷ []) ++ (2 ∷ 0 ∷ []))
    ≡ (hello ∷ new_frame syn 8 ∷ (receive (2 ∷ 0 ∷ [])).0, (receive (2 ∷ 0 ∷ [])).1)
receive-wire_example =
    receive-wire (hello ∷ new_frame syn 8 ∷ []) (2 ∷ 0 ∷ [])
      (hello-IsWire, (record { command = tt; stream = omega arith; fits = omega arith }, tt))
