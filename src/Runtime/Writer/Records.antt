-- ===== src/Runtime/Writer/Records.antt =====
-- src/runtime/mod.rs, `write_conn`: the records of a packet hold its bytes and padding behind them.
use mathlib.Core.List.{flatten, map-append}
use anytls_rs_legacy.Common.{
  ℕ, ◌+◌, ◌-◌, ◌<◌, ◌≡◌, refl, ◌∙◌, sym, ap, inl, inr, false, List, [], ◌∷◌, ◌++◌, map, ltb,
  if◌then◌else◌, arith, All, length, replicate, Result, ok, err, append-nil, append_assoc,
  take-append-drop, length-replicate, All-append, Bool-cases,
}
use anytls_rs_legacy.Common.Int.{ℤ, to_usize}
use anytls_rs_legacy.Common.Bytes.{Bytes}
use anytls_rs_legacy.Core.Frame.{Frame, waste, to_bytes, frame_with_data, header_overhead_size}
use anytls_rs_legacy.Core.Frame.RoundTrip.{IsWire}
use anytls_rs_legacy.Core.Padding.{PaddingFactory, Rng, generate_record_payload_sizes}
use anytls_rs_legacy.Proxy.Receive.Chunks.{wire}
use anytls_rs_legacy.Runtime.Writer.{
  WriterState, Conn, write_all, padding_frame, Move, stop, skip, emit, pad_record, record_move,
  write_records, write_padded, write_conn, next_packet_counter, disable_send_padding,
  take_buffered_bytes, write_rest, report,
}

abbrev pub waste_frame : ℕ → Frame
waste_frame n = frame_with_data waste 0 (replicate n 0)

abbrev pub wastes : List ℕ → Bytes
wastes ns = wire (map waste_frame ns)

abbrev pub Fits : ℕ → Type 0
Fits n = n < 65536

pub waste_frame-IsWire : (n : ℕ) → Fits n → IsWire (waste_frame n)
waste_frame-IsWire n h = record {
  command = tt;
  stream = omega arith;
  fits = rw (length-replicate {A = ℕ} n 0) h;
}

-- A padding frame is the wire form of a waste frame over zeros.
padding_frame-to_bytes : (n : ℕ) → padding_frame n ≡ to_bytes (waste_frame n)
unfolding padding_frame to_bytes
padding_frame-to_bytes n = rw (length-replicate {A = ℕ} n 0)

pub wire-append : (fs gs : List Frame) → wire (fs ++ gs) ≡ wire fs ++ wire gs
unfolding wire
wire-append [] gs = refl
wire-append (f ∷ fs) gs =
    rw (wire-append fs gs) (sym (append_assoc (to_bytes f) (wire fs) (wire gs)))

pub flatten-snoc : (bs : List Bytes) (b : Bytes) → flatten (bs ++ (b ∷ [])) ≡ flatten bs ++ b
unfolding flatten
flatten-snoc [] b = append-nil b
flatten-snoc (c ∷ bs) b = rw (flatten-snoc bs b) (sym (append_assoc c (flatten bs) b))

-- The padding frames that one size adds.
abbrev paddings_of : ℤ → Bytes → List ℕ
paddings_of spec bytes =
    if ltb (to_usize spec) (length bytes)
    then []
    else if ltb 0 (length bytes)
    then (if ltb 0 (to_usize spec - length bytes - header_overhead_size)
        then (to_usize spec - length bytes - header_overhead_size) ∷ []
        else [])
    else to_usize spec ∷ []

wastes_one : (n : ℕ) → wastes (n ∷ []) ≡ padding_frame n
unfolding wire
wastes_one n = append-nil (to_bytes (waste_frame n)) ∙ sym (padding_frame-to_bytes n)

wastes_none : wastes [] ≡ []
unfolding wire
wastes_none = refl

record_move-emit :
    (spec : ℤ) (bytes : Bytes) {out rest : Bytes}
    → record_move spec bytes ≡ emit out rest
    → out ++ rest ≡ bytes ++ wastes (paddings_of spec bytes)
unfolding record_move pad_record
record_move-emit spec [] e =
    ground (arith, wastes_one (to_usize spec), append-nil (padding_frame (to_usize spec)))
record_move-emit spec (c ∷ cs) e =
    let bytes : Bytes = c ∷ cs in
    let pad = to_usize spec - length bytes - header_overhead_size in
    ground (
      arith,
      take-append-drop (to_usize spec) bytes,
      append-nil bytes,
      append-nil (bytes ++ padding_frame pad),
      wastes_one pad,
      wastes_none,
    )

paddings_of-Fits :
    (spec : ℤ) (bytes : Bytes) → Fits (to_usize spec) → All Fits (paddings_of spec bytes)
paddings_of-Fits spec bytes h = ground arith

-- What was written, with what remains, is what there was before with padding behind it.
abbrev pub Padded : List Bytes → Bytes → List Bytes → Bytes → Type 0
Padded written bytes written' rest =
    (ns : List ℕ) × All Fits ns
    × (flatten written' ++ rest ≡ flatten written ++ (bytes ++ wastes ns))

Padded-step :
    (written : List Bytes) (bytes out rest : Bytes) (ns : List ℕ) (written' : List Bytes)
    (rest' : Bytes)
    → All Fits ns
    → out ++ rest ≡ bytes ++ wastes ns
    → Padded (written ++ (out ∷ [])) rest written' rest'
    → Padded written bytes written' rest'
Padded-step written bytes out rest ns written' rest' h e (ms, k, q) =
    (ns ++ ms, All-append Fits ns ms h k, q ∙ chain)
  where
    chain :
        flatten (written ++ (out ∷ [])) ++ (rest ++ wastes ms)
        ≡ flatten written ++ (bytes ++ wastes (ns ++ ms))
    chain =
        simp (flatten-snoc, map-append, wire-append, append_assoc)
          (ap (◌++◌ (flatten written)) (
            sym (append_assoc out rest (wastes ms))
            ∙ ap (λ (b : Bytes). b ++ wastes ms) e
            ∙ append_assoc bytes (wastes ns) (wastes ms)))

Padded-none :
    (written : List Bytes) (bytes : Bytes) {written' : List Bytes} {rest : Bytes}
    → ◌≡◌ {A = List Bytes × Result Bytes} (written, ok bytes) (written', ok rest)
    → Padded written bytes written' rest
Padded-none written bytes e = ([], tt, ground (arith, wastes_none, append-nil bytes))

-- One size, given what the later ones do.
write_records-step :
    (c : Conn) (spec : ℤ) (specs : List ℤ) (written : List Bytes) (bytes : Bytes)
    (written' : List Bytes) (rest : Bytes) (m : Move)
    → Fits (to_usize spec)
    → ((w : List Bytes) (b : Bytes)
        → write_records c specs w b ≡ (written', ok rest)
        → Padded w b written' rest)
    → record_move spec bytes ≡ m
    → write_records c (spec ∷ specs) written bytes ≡ (written', ok rest)
    → Padded written bytes written' rest
unfolding write_records write_all
write_records-step c spec specs written bytes written' rest stop h ih q e =
    Padded-none written bytes (rw (q, write_records) at e)
write_records-step c spec specs written bytes written' rest skip h ih q e =
    ih written bytes (rw (q, write_records) at e)
write_records-step c spec specs written bytes written' rest (emit out left) h ih q e =
    elim (Bool-cases (c.accepts written out)) [
      | inl a ↦
          Padded-step written bytes out left (paddings_of spec bytes) written' rest
            (paddings_of-Fits spec bytes h) (record_move-emit spec bytes q)
            (ih (written ++ (out ∷ [])) left (ground arith))
      | inr a ↦ absurd (ground arith)
    ]

write_records-Padded :
    (c : Conn) (specs : List ℤ) (written : List Bytes) (bytes : Bytes) (written' : List Bytes)
    (rest : Bytes)
    → All (λ z. Fits (to_usize z)) specs
    → write_records c specs written bytes ≡ (written', ok rest)
    → Padded written bytes written' rest
unfolding write_records
write_records-Padded c [] written bytes written' rest h e = Padded-none written bytes e
write_records-Padded c (spec ∷ specs) written bytes written' rest h e =
    write_records-step c spec specs written bytes written' rest (record_move spec bytes) h.0
      (λ w b. write_records-Padded c specs w b written' rest h.1) refl e

-- What a packet writes: its bytes, and padding behind them.
abbrev pub Sends : List Bytes → Bytes → List Bytes → Type 0
Sends written bytes written' =
    (ns : List ℕ) × All Fits ns × (flatten written' ≡ flatten written ++ (bytes ++ wastes ns))

abbrev pub SizesFit : PaddingFactory → Rng → Type 0
SizesFit padding rng =
    (pkt : ℕ) → All (λ z. Fits (to_usize z)) (generate_record_payload_sizes padding rng pkt)

Sends-all :
    (c : Conn) (n m : ℕ) (written : List Bytes) (bytes : Bytes) (written' : List Bytes)
    → report n (write_all c written bytes) ≡ (written', ok m)
    → Sends written bytes written' × (m ≡ n)
unfolding write_all
Sends-all c n m written bytes written' e = elim (Bool-cases (c.accepts written bytes)) [
  | inl a ↦ (
    ([], tt, ground (arith, flatten-snoc written bytes, wastes_none, append-nil bytes)),
    ground arith,
  )
  | inr a ↦ absurd (ground arith)
]

Sends-rest :
    (c : Conn) (n m : ℕ) (written : List Bytes) (bytes : Bytes) (r : List Bytes × Result Bytes)
    (written' : List Bytes)
    → ((w : List Bytes) (rest : Bytes) → r ≡ (w, ok rest) → Padded written bytes w rest)
    → write_rest c n r ≡ (written', ok m)
    → Sends written bytes written' × (m ≡ n)
unfolding write_rest write_all
Sends-rest c n m written bytes (w, err x) written' p e = cc
Sends-rest c n m written bytes (w, ok []) written' p e =
    let (ns, h, q) = p w [] refl in ((ns, h, ground (arith, append-nil (flatten w))), ground arith)
Sends-rest c n m written bytes (w, ok (x ∷ xs)) written' p e =
    elim (Bool-cases (c.accepts w (x ∷ xs))) [
      | inl a ↦
          let (ns, h, q) = p w (x ∷ xs) refl in
          ((ns, h, ground (arith, flatten-snoc w (x ∷ xs))), ground arith)
      | inr a ↦ absurd (ground arith)
    ]

-- Writing a packet outside buffering, if it succeeds and no size reaches 65536, sends what was
-- buffered, then its bytes, then padding frames only, and reports the length of the first two;
-- nothing stays in the buffer.
pub write_conn-Sends :
    (c : Conn) (padding : PaddingFactory) (rng : Rng) (w w' : WriterState)
    (written written' : List Bytes) (bytes : Bytes) (n : ℕ)
    → w.buffering ≡ false
    → SizesFit padding rng
    → write_conn c padding rng w written bytes ≡ (w', (written', ok n))
    → Sends written (w.buffer ++ bytes) written'
      × (n ≡ length (w.buffer ++ bytes))
      × (w'.buffer ≡ [])
      × (w'.buffering ≡ false)
unfolding write_conn write_padded next_packet_counter disable_send_padding take_buffered_bytes
write_conn-Sends c padding rng w w' written written' bytes n b fit e =
    elim (Bool-cases w.send_padding) [
      | inr off ↦
          let s =
            Sends-all c (length (w.buffer ++ bytes)) n written (w.buffer ++ bytes) written'
              (ground arith) in
          (s.0, s.1, ground arith, ground arith)
      | inl on ↦ elim (Bool-cases (ltb (w.pkt_counter + 1) padding.stop)) [
        | inr last ↦
            let s =
              Sends-all c (length (w.buffer ++ bytes)) n written (w.buffer ++ bytes) written'
                (ground arith) in
            (s.0, s.1, ground arith, ground arith)
        | inl more ↦
            let specs = generate_record_payload_sizes padding rng (w.pkt_counter + 1) in
            let r = write_records c specs written (w.buffer ++ bytes) in
            let s =
              Sends-rest c (length (w.buffer ++ bytes)) n written (w.buffer ++ bytes) r written'
                (λ v rest.
                  write_records-Padded c specs written (w.buffer ++ bytes) v rest
                    (fit (w.pkt_counter + 1)))
                (ground arith) in
            (s.0, s.1, ground arith, ground arith)
      ]
    ]
