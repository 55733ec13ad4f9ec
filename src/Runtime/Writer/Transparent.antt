-- ===== src/Runtime/Writer/Transparent.antt =====
-- src/runtime/mod.rs, `spawn_writer_task`, against `recv_loop` of the peer: the padding is never seen.
use mathlib.Core.List.{flatten}
use anytls_rs_legacy.Common.{
  ◌==◌, subst, ℕ, ◌+◌, ◌≡◌, refl, ◌∙◌, sym, ap, inl, inr, Bool, true, false, List, [], ◌∷◌, ◌++◌,
  map, arith, All, Result, ok, err, append-nil, append_assoc, All-append, Bool-cases, if◌then◌else◌,
  ltb, length,
}
use anytls_rs_legacy.Common.Bytes.{Bytes}
use anytls_rs_legacy.Core.Frame.{Frame, Command, waste, to_bytes}
use anytls_rs_legacy.Core.Frame.RoundTrip.{IsWire}
use anytls_rs_legacy.Core.Padding.{PaddingFactory, Rng}
use anytls_rs_legacy.Proxy.Receive.{receive, take_frames}
use anytls_rs_legacy.Proxy.Receive.Chunks.{wire, receive-wire}
use anytls_rs_legacy.Runtime.Writer.{
  ℤ, WriterState, Conn, write_all, write_conn, write_padded, write_rest, write_records, record_move,
  stop, skip, emit, Move, report, flush, Job, writer_loop, next_packet_counter, take_buffered_bytes,
}
use anytls_rs_legacy.Runtime.Writer.Records.{
  Sends, Fits, SizesFit, waste_frame, waste_frame-IsWire, wire-append, write_conn-Sends,
}

abbrev is_waste : Command → Bool
is_waste waste = true
is_waste c = false

-- The frames that are no padding.
unfoldable pub unpadded : List Frame → List Frame
unpadded [] = []
unpadded (f ∷ fs) = if is_waste f.cmd then unpadded fs else f ∷ unpadded fs

unpadded-append : (fs gs : List Frame) → unpadded (fs ++ gs) ≡ unpadded fs ++ unpadded gs
unfolding unpadded
unpadded-append [] gs = refl
unpadded-append (f ∷ fs) gs = ground (arith, unpadded-append fs gs)

unpadded-waste : (ns : List ℕ) → unpadded (map waste_frame ns) ≡ []
unfolding unpadded
unpadded-waste [] = refl
unpadded-waste (n ∷ ns) = unpadded-waste ns

waste-IsWire : (ns : List ℕ) → All Fits ns → All IsWire (map waste_frame ns)
waste-IsWire [] h = tt
waste-IsWire (n ∷ ns) h = (waste_frame-IsWire n h.0, waste-IsWire ns h.1)

abbrev job_frame : Job → Frame
job_frame j = j.frame

abbrev pub IsJob : Job → Type 0
IsJob j = IsWire j.frame × SizesFit j.padding j.rng

abbrev Carries : List Bytes → List Frame → List Bytes → Type 0
Carries written sent written' =
    (fs : List Frame) × All IsWire fs
    × (flatten written' ≡ flatten written ++ wire fs)
    × (unpadded fs ≡ unpadded sent)

Carries-step :
    (written : List Bytes) (f : Frame) (sent : List Frame) (middle written' : List Bytes)
    → IsWire f
    → Sends written (to_bytes f) middle
    → Carries middle sent written'
    → Carries written (f ∷ sent) written'
unfolding wire unpadded
Carries-step written f sent middle written' w (ns, h, q) (fs, k, p, u) = (
  f ∷ (map waste_frame ns ++ fs),
  (w, All-append IsWire (map waste_frame ns) fs (waste-IsWire ns h) k),
  p ∙ ap (λ (b : Bytes). b ++ wire fs) q ∙ simp (wire-append, append_assoc),
  ground (arith, unpadded-append (map waste_frame ns) fs, unpadded-waste ns),
)

-- A round of the loop that did not end it.
writer_loop-step :
    (c : Conn) (w : WriterState) (written : List Bytes) (j : Job) (jobs : List Job)
    (r : WriterState × (List Bytes × Result ℕ))
    → write_conn c j.padding j.rng w written (to_bytes j.frame) ≡ r
    → (writer_loop c w written (j ∷ jobs)).failed ≡ false
    → (n : ℕ) × (r.1.1 ≡ ok n)
      × ((writer_loop c r.0 r.1.0 jobs).failed ≡ false)
      × ((writer_loop c w written (j ∷ jobs)).written ≡ (writer_loop c r.0 r.1.0 jobs).written)
unfolding writer_loop flush
writer_loop-step c w written j jobs (w', (m, err x)) e f = absurd (ground arith)
writer_loop-step c w written j jobs (w', (m, ok n)) e f = (n, refl, ground arith, ground arith)

writer_loop-Carries :
    (c : Conn) (w : WriterState) (written : List Bytes) (jobs : List Job)
    → w.buffering ≡ false
    → w.buffer ≡ []
    → All IsJob jobs
    → (writer_loop c w written jobs).failed ≡ false
    → Carries written (map job_frame jobs) (writer_loop c w written jobs).written
writer_loop-Carries c w written [] b e h f =
    ([], tt, unfold writer_loop wire in sym (append-nil (flatten written)), refl)
writer_loop-Carries c w written (j ∷ jobs) b e h f =
    let r = write_conn c j.padding j.rng w written (to_bytes j.frame) in
    let (n, done, more, same) = writer_loop-step c w written j jobs r refl f in
    let (sends, _, empty, direct) =
      write_conn-Sends c j.padding j.rng w r.0 written r.1.0 (to_bytes j.frame) n b h.0.1
        (λ i. (r.0, (r.1.0, done i))) in
    rw same (
      Carries-step written j.frame (map job_frame jobs) r.1.0 _ h.0.0
        (subst (λ (x : Bytes). Sends written (x ++ to_bytes j.frame) r.1.0) e sends)
        (writer_loop-Carries c r.0 r.1.0 jobs direct empty h.1 more))

-- A writer outside buffering that starts with nothing written or buffered, writes frames that fit
-- their headers and ends without a failure has sent bytes from which the peer's receive loop takes
-- the frames of the queue, in order and with nothing left over, once it drops the waste frames:
-- padding is never seen, whatever the schemes and the random draws were, as long as no size reaches
-- 65536.
pub receive-writer_loop :
    (c : Conn) (w : WriterState) (jobs : List Job)
    → w.buffering ≡ false
    → w.buffer ≡ []
    → All IsJob jobs
    → (writer_loop c w [] jobs).failed ≡ false
    → let received = receive (flatten (writer_loop c w [] jobs).written) in
      (unpadded received.0 ≡ unpadded (map job_frame jobs)) × (received.1 ≡ [])
unfolding flatten receive take_frames
receive-writer_loop c w jobs b e h f =
    let (fs, k, p, u) = writer_loop-Carries c w [] jobs b e h f in
    let whole : receive (flatten (writer_loop c w [] jobs).written) ≡ (fs, []) =
      ap receive (p ∙ sym (append-nil (wire fs)))
      ∙ receive-wire fs [] k
      ∙ (λ i. (append-nil fs i, [])) in
    rw whole (u, refl)

-- The connection takes all that it is given.
abbrev pub IsHealthy : Conn → Type 0
IsHealthy c =
    ((written : List Bytes) (b : Bytes) → c.accepts written b ≡ true)
    × ((written : List Bytes) → c.flushes written ≡ true)

IsOk : {A : Type 0} → Result A → Type 0
IsOk (ok a) = Unit {0}
IsOk (err e) = ⊥

module _ (c : Conn) (healthy : IsHealthy c) where
  write_records-move :
      (spec : ℤ) (specs : List ℤ) (written : List Bytes) (bytes : Bytes) (m : Move)
      → record_move spec bytes ≡ m
      → ((w : List Bytes) (b : Bytes) → IsOk (write_records c specs w b).1)
      → IsOk (write_records c (spec ∷ specs) written bytes).1
  unfolding write_records write_all IsOk
  write_records-move spec specs written bytes stop e ih = rw (e, write_records) tt
  write_records-move spec specs written bytes skip e ih = rw (e, write_records) (ih written bytes)
  write_records-move spec specs written bytes (emit out rest) e ih =
      rw (e, write_records) (rw (healthy.0 written out, write_records) (ih _ _))

  write_records-IsOk :
      (specs : List ℤ) (written : List Bytes) (bytes : Bytes)
      → IsOk (write_records c specs written bytes).1
  write_records-IsOk [] written bytes = unfold write_records IsOk in tt
  write_records-IsOk (spec ∷ specs) written bytes =
      write_records-move spec specs written bytes (record_move spec bytes) refl
        (write_records-IsOk specs)

  report-IsOk :
      (n : ℕ) (written : List Bytes) (b : Bytes) → IsOk (report n (write_all c written b)).1
  unfolding write_all IsOk
  report-IsOk n written b = rw (healthy.0 written b) tt

  write_rest-IsOk : (n : ℕ) (r : List Bytes × Result Bytes) → IsOk r.1 → IsOk (write_rest c n r).1
  unfolding write_rest IsOk
  write_rest-IsOk n (w, err e) h = absurd h
  write_rest-IsOk n (w, ok []) h = tt
  write_rest-IsOk n (w, ok (x ∷ xs)) h =
      let e : (length (x ∷ xs) == 0) ≡ false = ground arith in rw e (report-IsOk n w (x ∷ xs))

  flush_ok : (r : List Bytes × Result ℕ) → IsOk r.1 → flush c r ≡ ok tt
  unfolding flush IsOk
  flush_ok (w, ok n) h = rw (healthy.1 w)
  flush_ok (w, err e) h = absurd h

  write_conn-IsOk :
      (padding : PaddingFactory) (rng : Rng) (w : WriterState) (written : List Bytes) (b : Bytes)
      → IsOk (write_conn c padding rng w written b).1.1
  unfolding write_conn write_padded next_packet_counter take_buffered_bytes
  write_conn-IsOk padding rng w written b = elim (Bool-cases w.buffering) [
    | inl e ↦ rw e (unfold IsOk in tt)
    | inr e ↦ rw e (elim (Bool-cases w.send_padding) [
      | inr e₂ ↦ rw e₂ (report-IsOk _ written (w.buffer ++ b))
      | inl e₂ ↦ rw e₂ (elim (Bool-cases (ltb (w.pkt_counter + 1) padding.stop)) [
        | inr e₃ ↦ rw e₃ (report-IsOk _ written (w.buffer ++ b))
        | inl e₃ ↦ rw e₃ (write_rest-IsOk _ _ (write_records-IsOk _ written (w.buffer ++ b)))
      ])
    ])
  ]

  -- On a connection that takes every write and every flush the writer never fails.
  pub writer_loop-healthy :
      (w : WriterState) (written : List Bytes) (jobs : List Job)
      → (writer_loop c w written jobs).failed ≡ false
  unfolding writer_loop
  writer_loop-healthy w written [] = refl
  writer_loop-healthy w written (j ∷ jobs) =
      let r = write_conn c j.padding j.rng w written (to_bytes j.frame) in
      rw (flush_ok r.1 (write_conn-IsOk j.padding j.rng w written (to_bytes j.frame)), writer_loop)
        (writer_loop-healthy r.0 r.1.0 jobs)
