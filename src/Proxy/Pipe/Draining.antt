-- ===== src/Proxy/Pipe/Draining.antt =====
-- src/proxy/pipe/io_pipe.rs: `finish_stream` lets a reader have all that was written before it.
use mathlib.Core.List.{flatten}
use anytls_rs_legacy.Common.{
  ℕ, zero, suc, ◌+◌, ◌<◌, ◌≡◌, ◌≢◌, refl, ◌∙◌, sym, ap, true, Option, none, some, List, [], ◌∷◌,
  ◌++◌, map, arith, All, length, take, drop, append-nil, append_assoc, take-append-drop,
  length-append, length-drop, IoError, Result, ok, err,
}
use anytls_rs_legacy.Common.Bytes.{Bytes}
use anytls_rs_legacy.Proxy.Pipe.{
  PipeEvent, bytes, stream_end, PipeInner, new_pipe, write, finish_stream, look, take_receiver,
  recv, finish_read, end_result, read,
}

-- Reading until a read fails or gets nothing: the bytes, and how the last read went.
unfoldable pub drain : ℕ → ℕ → PipeInner → Bytes × Option (Result Bytes)
drain zero n p = ([], none)
drain (suc fuel) n p = elim (read n p) [
  | none ↦ ([], none)
  | some (q, r) ↦
      let (b, last) = drain fuel n q in
      elim r [
        | err e ↦ ([], some (err e))
        | ok s ↦ elim s [ [] ↦ ([], some (ok [])) | c ∷ cs ↦ ((c ∷ cs) ++ b, last) ]
      ]
]

-- Writes one after another.
unfoldable pub write_each : PipeInner → List Bytes → PipeInner
write_each p [] = p
write_each p (b ∷ bs) = write_each (write p b).0 bs

abbrev pub IsFilled : Bytes → Type 0
IsFilled b = b ≢ []

abbrev with_queue : List PipeEvent → PipeInner
with_queue es = record new_pipe { queue = es }

write_each-queue :
    (es : List PipeEvent) (bs : List Bytes)
    → write_each (with_queue es) bs ≡ with_queue (es ++ map bytes bs)
unfolding write_each write
write_each-queue es [] = rw append-nil
write_each-queue es (b ∷ bs) =
    write_each-queue (es ++ (bytes b ∷ [])) bs
    ∙ ap with_queue (append_assoc es (bytes b ∷ []) (map bytes bs))

-- A pipe whose writers are done: what is left in the buffer, the writes in the channel, the end.
abbrev ending : Option IoError → Bytes → List Bytes → PipeInner
ending error b bs = record new_pipe {
  stream_end_queued = true;
  queue = map bytes bs ++ (stream_end error ∷ []);
  buffer = b;
}

finish-ending :
    (bs : List Bytes) (error : Option IoError)
    → finish_stream (write_each new_pipe bs) error ≡ ending error [] bs
unfolding finish_stream
finish-ending bs error = ap (λ p. finish_stream p error) (write_each-queue [] bs)

split_at : (m : ℕ) (xs rest : Bytes) → take m xs ++ (drop m xs ++ rest) ≡ xs ++ rest
split_at m xs rest =
    sym (append_assoc (take m xs) (drop m xs) rest) ∙ ap (λ b. b ++ rest) (take-append-drop m xs)

drain-ending :
    (fuel m : ℕ) (error : Option IoError) (b : Bytes) (bs : List Bytes)
    → All IsFilled bs
    → length b + length (flatten bs) < fuel
    → drain fuel (suc m) (ending error b bs) ≡ (b ++ flatten bs, some (end_result error))
unfolding drain read look take_receiver recv finish_read flatten
drain-ending zero m error b bs f h = absurd (omega arith)
drain-ending (suc fuel) m none [] [] f h = refl
drain-ending (suc fuel) m (some e) [] [] f h = refl
drain-ending (suc fuel) m error [] ([] ∷ bs) f h = absurd (f.0 refl)
drain-ending (suc fuel) m error [] ((x ∷ xs) ∷ bs) f h =
    let less : length (drop m xs) + length (flatten bs) < fuel =
      omega (arith, length-drop m xs, length-append xs (flatten bs)) in
    rw (drain-ending fuel m error (drop m xs) bs f.1 less) (rw (split_at m xs (flatten bs)) refl)
drain-ending (suc fuel) m error (c ∷ cs) bs f h =
    let less : length (drop m cs) + length (flatten bs) < fuel = omega (arith, length-drop m cs) in
    rw (drain-ending fuel m error (drop m cs) bs f less) (rw (split_at m cs (flatten bs)) refl)

-- When a stream is finished after writes of which none is empty, a reader with room for a byte at
-- least that goes on reading gets all the writes, in order, and then the end, or the error that the
-- stream was finished with. One read more than there are bytes is enough.
pub drain-finish_stream :
    (n : ℕ) (bs : List Bytes) (error : Option IoError)
    → 0 < n
    → All IsFilled bs
    → drain (suc (length (flatten bs))) n (finish_stream (write_each new_pipe bs) error)
      ≡ (flatten bs, some (end_result error))
drain-finish_stream zero bs error h f = absurd (omega arith)
drain-finish_stream (suc m) bs error h f =
    rw (finish-ending bs error)
      (drain-ending (suc (length (flatten bs))) m error [] bs f (omega arith))
