-- ===== src/Proxy/Receive/Chunks.antt =====
-- src/proxy/session/inner.rs, `recv_loop`: the frames do not depend on how the bytes were cut into
-- chunks, and every frame that was written is received.
use anytls_rs_legacy.Common.{
  ◌*◌, ℕ, zero, suc, ◌+◌, ◌≤◌, ◌<◌, ◌≡◌, refl, ◌∙◌, sym, ap, inl, inr, none, some, List, [], ◌∷◌,
  ◌++◌, arith, length, drop, take, All, length-append, length-drop, length-take, append-nil,
  append_assoc, Option-cases, drop-append,
}
use mathlib.Core.List.{flatten}
use anytls_rs_legacy.Common.Bytes.{get_u16, Bytes}
use anytls_rs_legacy.Core.Frame.{
  Frame, header_overhead_size, from_bytes, to_bytes, raw_header_from_bytes, frame_of_header,
}
use anytls_rs_legacy.Core.Frame.RoundTrip.{IsWire, from_bytes-to_bytes}
use anytls_rs_legacy.Proxy.Receive.{take_frames, receive, receive_chunks}

take-append_le : (n : ℕ) (xs ys : Bytes) → n ≤ length xs → take n (xs ++ ys) ≡ take n xs
take-append_le zero xs ys h = refl
take-append_le (suc n) [] ys h = absurd (omega arith)
take-append_le (suc n) (x ∷ xs) ys h = rw (take-append_le n xs ys (omega arith))

drop-append_le : (n : ℕ) (xs ys : Bytes) → n ≤ length xs → drop n (xs ++ ys) ≡ drop n xs ++ ys
drop-append_le zero xs ys h = refl
drop-append_le (suc n) [] ys h = absurd (omega arith)
drop-append_le (suc n) (x ∷ xs) ys h = drop-append_le n xs ys (omega arith)

-- A frame lies within the bytes that it was read from.
from_bytes-length :
    (b : Bytes) (f : Frame) → from_bytes b ≡ some f → 7 + length f.payload ≤ length b
unfolding from_bytes raw_header_from_bytes frame_of_header
from_bytes-length b f e =
    ground (arith, length-drop 7 b, length-take (get_u16 (drop 5 b)) (drop 7 b))

-- Later bytes do not change the frame at the front.
from_bytes-append :
    (b more : Bytes) (f : Frame) → from_bytes b ≡ some f → from_bytes (b ++ more) ≡ some f
unfolding from_bytes frame_of_header raw_header_from_bytes
from_bytes-append (c ∷ s₃ ∷ s₂ ∷ s₁ ∷ s₀ ∷ l₁ ∷ l₀ ∷ rest) more f e =
    ground (arith, take-append_le (l₁ * 256 + l₀) rest more, length-append rest more)
from_bytes-append [] more f e = cc
from_bytes-append (_ ∷ []) more f e = cc
from_bytes-append (_ ∷ _ ∷ []) more f e = cc
from_bytes-append (_ ∷ _ ∷ _ ∷ []) more f e = cc
from_bytes-append (_ ∷ _ ∷ _ ∷ _ ∷ []) more f e = cc
from_bytes-append (_ ∷ _ ∷ _ ∷ _ ∷ _ ∷ []) more f e = cc
from_bytes-append (_ ∷ _ ∷ _ ∷ _ ∷ _ ∷ _ ∷ []) more f e = cc

take_frames-none : (k : ℕ) (b : Bytes) → from_bytes b ≡ none → take_frames k b ≡ ([], b)
unfolding take_frames
take_frames-none zero b e = refl
take_frames-none (suc k) b e = rw (e, take_frames)

abbrev unread : Frame → Bytes → Bytes
unread f b = drop (header_overhead_size + length f.payload) b

abbrev put_first : Frame → List Frame × Bytes → List Frame × Bytes
put_first f r = (f ∷ r.0, r.1)

take_frames-some :
    (k : ℕ) (b : Bytes) (f : Frame)
    → from_bytes b ≡ some f
    → take_frames (suc k) b ≡ put_first f (take_frames k (unread f b))
unfolding take_frames
take_frames-some k b f e = rw (e, take_frames)

length-unread : (b : Bytes) (f : Frame) → from_bytes b ≡ some f → length (unread f b) < length b
length-unread b f e = omega (arith, from_bytes-length b f e, length-drop (7 + length f.payload) b)

none_of_empty : (b : Bytes) → length b ≤ 0 → from_bytes b ≡ none
unfolding from_bytes raw_header_from_bytes
none_of_empty b h = ground arith

-- Fuel for the length of the bytes is enough.
take_frames_fuel :
    (k n : ℕ) (b : Bytes) → length b ≤ k → length b ≤ n → take_frames k b ≡ take_frames n b
take_frames_fuel zero n b h j =
    take_frames-none zero b (none_of_empty b h) ∙ sym (take_frames-none n b (none_of_empty b h))
take_frames_fuel (suc k) zero b h j =
    take_frames-none (suc k) b (none_of_empty b j)
    ∙ sym (take_frames-none zero b (none_of_empty b j))
take_frames_fuel (suc k) (suc n) b h j = elim (Option-cases (from_bytes b)) [
  | inl e ↦ take_frames-none (suc k) b e ∙ sym (take_frames-none (suc n) b e)
  | inr (f, e) ↦
      let less = length-unread b f e in
      take_frames-some k b f e
      ∙ ap (put_first f) (take_frames_fuel k n (unread f b) (omega arith) (omega arith))
      ∙ sym (take_frames-some n b f e)
]

receive-none : (b : Bytes) → from_bytes b ≡ none → receive b ≡ ([], b)
unfolding receive
receive-none b e = take_frames-none (length b) b e

-- One whole frame at the front.
receive-some :
    (b : Bytes) (f : Frame) → from_bytes b ≡ some f → receive b ≡ put_first f (receive (unread f b))
unfolding receive
receive-some b f e =
    let less = length-unread b f e in
    take_frames_fuel (length b) (suc (length b)) b (omega arith) (omega arith)
    ∙ take_frames-some (length b) b f e
    ∙ ap (put_first f) (take_frames_fuel (length b) _ (unread f b) (omega arith) (omega arith))

-- Frames found first, and then those of the rest.
abbrev pub put_all : List Frame → List Frame × Bytes → List Frame × Bytes
put_all fs r = (fs ++ r.0, r.1)

receive-append_below :
    (k : ℕ) (b more : Bytes)
    → length b ≤ k
    → receive (b ++ more) ≡ put_all (receive b).0 (receive ((receive b).1 ++ more))
receive-append_below zero b more h = rw (receive-none b (none_of_empty b h))
receive-append_below (suc k) b more h = elim (Option-cases (from_bytes b)) [
  | inl e ↦ rw (receive-none b e)
  | inr (f, e) ↦
      let less = length-unread b f e in
      receive-some (b ++ more) f (from_bytes-append b more f e)
      ∙ ap (λ (r : Bytes). put_first f (receive r))
          (drop-append_le (7 + length f.payload) b more (from_bytes-length b f e))
      ∙ ap (put_first f) (receive-append_below k (unread f b) more (omega arith))
      ∙ (rw (receive-some b f e))
]

-- Bytes that arrive later are cut behind what the first ones left over.
pub receive-append :
    (b more : Bytes) → receive (b ++ more) ≡ put_all (receive b).0 (receive ((receive b).1 ++ more))
receive-append b more = receive-append_below (length b) b more (omega arith)

receive_rest_below :
    (k : ℕ) (b : Bytes) → length b ≤ k → receive (receive b).1 ≡ ([], (receive b).1)
receive_rest_below zero b h = let e = receive-none b (none_of_empty b h) in rw e e
receive_rest_below (suc k) b h = elim (Option-cases (from_bytes b)) [
  | inl e ↦ rw (receive-none b e) (receive-none b e)
  | inr (f, e) ↦
      let less = length-unread b f e in
      rw (receive-some b f e) (receive_rest_below k (unread f b) (omega arith))
]

-- What is left over holds no whole frame.
receive_rest : (b : Bytes) → receive (receive b).1 ≡ ([], (receive b).1)
receive_rest b = receive_rest_below (length b) b (omega arith)

unread-to_bytes : (f : Frame) (rest : Bytes) → unread f (to_bytes f ++ rest) ≡ rest
unfolding to_bytes
unread-to_bytes f rest =
    let e : 7 + length f.payload ≡ suc (suc (suc (suc (suc (suc (suc (length f.payload))))))) =
      omega arith in
    rw e (drop-append f.payload rest)

-- If no whole frame is pending, then however the bytes are cut into chunks, the frames are those of
-- all the bytes together, and so is what is left pending.
pub receive_chunks-flatten :
    (pending : Bytes) (chunks : List Bytes)
    → receive pending ≡ ([], pending)
    → receive_chunks pending chunks ≡ receive (pending ++ flatten chunks)
unfolding receive_chunks flatten
receive_chunks-flatten pending [] h = rw append-nil (sym h)
receive_chunks-flatten pending (chunk ∷ chunks) h =
    let r = receive (pending ++ chunk) in
    ap (put_all r.0) (receive_chunks-flatten r.1 chunks (receive_rest (pending ++ chunk)))
    ∙ sym (receive-append (pending ++ chunk) (flatten chunks))
    ∙ ap receive (append_assoc pending chunk (flatten chunks))

-- The wire form of a list of frames.
unfoldable pub wire : List Frame → Bytes
wire [] = []
wire (f ∷ fs) = to_bytes f ++ wire fs

-- Frames whose fields fit the header are all received as they were written, in order, and the bytes
-- behind them stay.
pub receive-wire :
    (fs : List Frame) (rest : Bytes)
    → All IsWire fs
    → receive (wire fs ++ rest) ≡ put_all fs (receive rest)
unfolding wire
receive-wire [] rest h = refl
receive-wire (f ∷ fs) rest h = rw (append_assoc (to_bytes f) (wire fs) rest) (
    receive-some _ f (from_bytes-to_bytes f (wire fs ++ rest) h.0)
    ∙ ap (λ (b : Bytes). put_first f (receive b)) (unread-to_bytes f (wire fs ++ rest))
    ∙ ap (put_first f) (receive-wire fs rest h.1))
