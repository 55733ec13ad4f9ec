-- ===== src/Server/Packets/Order.antt =====
-- bin/server.rs: what a relay of packets carries, and what it charges.
use anytls_rs_legacy.Common.{
  Bool, false, ◌⊎◌, ℕ, ◌+◌, ◌≡◌, ◌≢◌, refl, sym, ap, subst, ◌∙◌, true, Option, none, some, List, [],
  ◌∷◌, ◌++◌, append_assoc, length, arith, Result, ok, err, Bool-cases, Result-cases, Option-cases,
  inl, inr,
}
use anytls_rs_legacy.Common.Int.{ℤ}
use anytls_rs_legacy.Common.Bytes.{Bytes}
use anytls_rs_legacy.Uot.{
  AddressCodec, IsCodec, UotMode, uot_encode_packet, uot_get_packet_from_stream, get_payload,
}
use anytls_rs_legacy.Uot.RoundTrip.{get-encode_packet}
use anytls_rs_legacy.Server.Connection.{ConnCtx, ServerState, approved}
use anytls_rs_legacy.Server.Relay.Charges.{
  charged_up, charged_down, counted, Charges, counted-counted, ctx_record_up-Charges,
  ctx_record_down-Charges,
}
use anytls_rs_legacy.Server.Packets.{
  Ending, runs, left, panicked, torn, tear, dropping, Target, anywhere, fixed, Packet, mode_of,
  destination_of, shown_source, UotRelay, after, uot_tick, uot_packet, uot_received, uot_send,
  uot_forward, uot_write, Branch, ticks, reads_packet, receives, uot_round,
}

-- The packets at the start of some bytes, and the bytes behind them.
pub data Reads (c : AddressCodec) (mode : UotMode) : Bytes → List (Packet c) → Bytes → Type 0 where
  reads_none : {bs : Bytes} → Reads c mode bs [] bs
  reads_more :
      {bs rest behind : Bytes} {ps : List (Packet c)} {p : Packet c}
      → Reads c mode bs ps rest
      → uot_get_packet_from_stream c mode rest ≡ ok (p, behind)
      → Reads c mode bs (ps ++ (p ∷ [])) behind

module _ (c : AddressCodec) where
  -- The packets with the destinations that they are sent to.
  unfoldable pub addressed : Target c → List (Packet c) → List (c.Address × Bytes)
  addressed target [] = []
  addressed target ((o, payload) ∷ ps) = elim (destination_of c target o) [
    | none ↦ addressed target ps
    | some a ↦ (a, payload) ∷ addressed target ps
  ]

  unfoldable pub total : List (Packet c) → ℕ
  total [] = 0
  total (p ∷ ps) = length p.1 + total ps

  total-append :
      (ps : List (Packet c)) (p : Packet c) → total (ps ++ (p ∷ [])) ≡ total ps + length p.1
  unfolding total
  total-append [] p = omega arith
  total-append (q ∷ ps) p = rw (total-append ps p) (omega arith)

  addressed-append :
      (target : Target c) (ps : List (Packet c)) (o : Option c.Address) (a : c.Address)
      (payload : Bytes)
      → destination_of c target o ≡ some a
      → addressed target (ps ++ ((o, payload) ∷ [])) ≡ addressed target ps ++ ((a, payload) ∷ [])
  unfolding addressed
  addressed-append target [] o a payload e = rw (addressed, e) refl
  addressed-append target ((o', p) ∷ ps) o a payload e =
      elim (Option-cases (destination_of c target o')) [
        | inl f ↦ rw (addressed, f) (addressed-append target ps o a payload e)
        | inr (b, f) ↦
            rw (addressed, f) (ap (λ x. (b, p) ∷ x) (addressed-append target ps o a payload e))
      ]

  -- A packet that was read has a destination where the mode asks for one.
  pub get_packet-destined :
      (target : Target c) (bs rest payload : Bytes) (o : Option c.Address)
      → uot_get_packet_from_stream c (mode_of c target) bs ≡ ok ((o, payload), rest)
      → (a : c.Address) × (destination_of c target o ≡ some a)
  unfolding uot_get_packet_from_stream
  get_packet-destined (fixed a) bs rest payload o e = (a, refl)
  get_packet-destined anywhere bs rest payload none e = elim (Result-cases (c.retrieve bs)) [
    | inr (x, f) ↦ absurd (ground (arith, e, f))
    | inl (r, f) ↦ elim (Result-cases (get_payload r.1)) [
      | inr (x, g) ↦ absurd (ground (arith, e, f, g))
      | inl (p, g) ↦ absurd (ground (arith, e, f, g))
    ]
  ]
  get_packet-destined anywhere bs rest payload (some a) e = (a, refl)

module _ (c : AddressCodec) (codec : IsCodec c) (ctx : ConnCtx) (target : Target c) (start : Bytes)
    (s : ServerState) where
  abbrev pub Good : UotRelay c → Type 0
  Good r =
      ((taken : List (Packet c)) × Reads c (mode_of c target) start taken r.reader
        × (r.sent ≡ addressed c target taken)
        × (lost : ℕ) × Charges ctx r.server (counted ctx (charged_up ctx s) (total c taken))
            (counted ctx (charged_down ctx s) (total c r.packets + lost))
        × ((r.ending ≢ runs) ⊎ (lost ≡ 0)))
      × ((rest : Bytes) → Reads c (mode_of c target) (r.frames ++ rest) r.packets rest)
      × (r.ending ≢ panicked)

  ended-Good :
      (r : UotRelay c) (result : Result {0} Unit)
      → Good r
      → Good (record r { ending = left result })
  ended-Good r result ((taken, reads, sent, lost, k, z), w, p) = (
    (taken, reads, sent, lost, k, inl (λ e. absurd (ground (arith, e)))),
    w,
    λ e. absurd (ground (arith, e)),
  )

  tear-runs : (x : Ending) → tear x ≢ runs
  tear-runs runs e = absurd (ground (arith, e))
  tear-runs panicked e = absurd (ground (arith, e))
  tear-runs torn e = absurd (ground (arith, e))
  tear-runs (left result) e = absurd (ground (arith, e))

  tear-panicked : (x : Ending) → x ≢ panicked → tear x ≢ panicked
  tear-panicked runs h e = absurd (ground (arith, e))
  tear-panicked panicked h e = h e
  tear-panicked torn h e = absurd (ground (arith, e))
  tear-panicked (left result) h e = absurd (ground (arith, e))

  dropping-Good :
      (mid_packet : Bool) (r : UotRelay c) → Good r → Good (dropping c ctx target mid_packet r)
  unfolding dropping
  dropping-Good false r g = g
  dropping-Good true r ((taken, reads, sent, lost, k, z), w, p) =
      ((taken, reads, sent, lost, k, inl (tear-runs r.ending)), w, tear-panicked r.ending p)

  uot_tick-Good : (now : ℤ) (r : UotRelay c) → Good r → Good (uot_tick c ctx target now r)
  unfolding uot_tick
  uot_tick-Good now r g = elim (Bool-cases (approved now ctx r.server)) [
    | inl a ↦ rw a g
    | inr a ↦ rw a (ended-Good (record r { terminated = true }) (ok tt) g)
  ]

  none_lost : (x : Ending) (lost : ℕ) → x ≡ runs → (x ≢ runs) ⊎ (lost ≡ 0) → lost ≡ 0
  none_lost x lost e (inl f) = absurd (f e)
  none_lost x lost e (inr z) = z

  after-runs : (sends : Result {0} Unit) → after c sends ≢ panicked
  after-runs (ok u) e = absurd (ground (arith, e))
  after-runs (err x) e = absurd (ground (arith, e))

  uot_send-Good :
      (o o' : Option c.Address) (payload rest : Bytes) (sends : Result {0} Unit) (r : UotRelay c)
      → uot_get_packet_from_stream c (mode_of c target) r.reader ≡ ok ((o', payload), rest)
      → destination_of c target o' ≡ o
      → r.ending ≡ runs
      → Good r
      → Good (uot_send c ctx target o payload rest sends r)
  unfolding uot_send
  uot_send-Good none o' payload rest sends r f d running g =
      let (a, d') = get_packet-destined c target r.reader rest payload o' f in
      absurd (ground (arith, d, d'))
  uot_send-Good (some a) o' payload rest sends r f d running
        ((taken, reads, sent, lost, (known, up, down), z), w, p) =
      let (known', up', down') = ctx_record_up-Charges (length payload) ctx r.server known in
      (
        (
          taken ++ ((o', payload) ∷ []),
          reads_more reads f,
          ap (λ x. x ++ ((a, payload) ∷ [])) sent
              ∙ sym (addressed-append c target taken o' a payload d),
          lost,
          (
            known',
            up'
                ∙ ap (λ x. counted ctx x (length payload)) up
                ∙ counted-counted ctx (charged_up ctx s) (total c taken) (length payload)
                ∙ ap (counted ctx (charged_up ctx s)) (sym (total-append c taken (o', payload))),
            down' ∙ down,
          ),
          inr (none_lost r.ending lost running z),
        ),
        w,
        after-runs sends,
      )

  uot_forward-Good :
      (got : Result (Packet c × Bytes)) (sends : Result {0} Unit) (r : UotRelay c)
      → uot_get_packet_from_stream c (mode_of c target) r.reader ≡ got
      → r.ending ≡ runs
      → Good r
      → Good (uot_forward c ctx target got sends r)
  unfolding uot_forward
  uot_forward-Good (err e) sends r f running g = ended-Good r _ g
  uot_forward-Good (ok ((o, payload), rest)) sends r f running g =
      uot_send-Good (destination_of c target o) o payload rest sends r f refl running g

  uot_write-Good :
      (encoded : Result Bytes) (payload : Bytes) (source : c.Address) (writes : Result {0} Unit)
      (r : UotRelay c)
      → uot_encode_packet c (mode_of c target) (shown_source c target source) payload ≡ encoded
      → r.ending ≡ runs
      → Good r
      → Good (uot_write c ctx target encoded payload source writes r)
  unfolding uot_write
  uot_write-Good (err e) payload source writes r f running g = ended-Good r (err e) g
  uot_write-Good (ok frame) payload source (err e) r f running
        ((taken, reads, sent, lost, (known, up, down), z), w, p) =
      let (known', up', down') = ctx_record_down-Charges (length payload) ctx r.server known in
      (
        (
          taken,
          reads,
          sent,
          lost + length payload,
          (
            known',
            up' ∙ up,
            down'
                ∙ ap (λ x. counted ctx x (length payload)) down
                ∙ counted-counted ctx (charged_down ctx s) (total c r.packets + lost)
                    (length payload)
                ∙ ap (counted ctx (charged_down ctx s)) (omega arith),
          ),
          inl (λ e. absurd (ground (arith, e))),
        ),
        w,
        λ e. absurd (ground (arith, e)),
      )
  uot_write-Good (ok frame) payload source (ok u) r f running
        ((taken, reads, sent, lost, (known, up, down), z), w, p) =
      let (known', up', down') = ctx_record_down-Charges (length payload) ctx r.server known in
      let shown = shown_source c target source in
      (
        (
          taken,
          reads,
          sent,
          lost,
          (
            known',
            up' ∙ up,
            down'
                ∙ ap (λ x. counted ctx x (length payload)) down
                ∙ counted-counted ctx (charged_down ctx s) (total c r.packets + lost)
                    (length payload)
                ∙ ap (counted ctx (charged_down ctx s))
                    (omega (arith, total-append c r.packets (shown, payload))),
          ),
          z,
        ),
        λ rest.
            subst (λ x. Reads c (mode_of c target) x (r.packets ++ ((shown, payload) ∷ [])) rest)
              (sym (append_assoc r.frames frame rest))
              (reads_more (w (frame ++ rest))
                (get-encode_packet c codec (mode_of c target) shown payload frame rest f)),
        p,
      )

  pub uot_round-Good :
      (b : Branch c ctx target) (r : UotRelay c)
      → r.ending ≡ runs
      → Good r
      → Good (uot_round c ctx target b r)
  unfolding uot_round uot_packet uot_received
  uot_round-Good (ticks mid now) r running g =
      dropping-Good mid (uot_tick c ctx target now r) (uot_tick-Good now r g)
  uot_round-Good (reads_packet sends) r running g = uot_forward-Good _ sends r refl running g
  uot_round-Good (receives mid (err e) writes) r running g =
      dropping-Good mid (record r { ending = left (err e) }) (ended-Good r (err e) g)
  uot_round-Good (receives mid (ok (payload, source)) writes) r running g =
      dropping-Good mid _ (uot_write-Good _ payload source writes r refl running g)
