-- ===== src/Server/Relay/Steps.antt =====
-- bin/server.rs: what holds of every relay, whatever its sockets give.
use anytls_rs_legacy.Common.{
  ◌⊎◌, arith, ◌<◌, ◌≡◌, ◌^◌, refl, sym, ap, ◌∙◌, Bool, true, false, [], ◌∷◌, ◌++◌, append_assoc,
  append-nil, take, drop, take-append-drop, length, length-append, Result, ok, err, Bool-cases, inl,
  inr,
}
use anytls_rs_legacy.Common.Bytes.{Bytes}
use anytls_rs_legacy.Server.Connection.{
  ConnCtx, ServerState, ctx_record_up, ctx_record_down, approved,
}
use anytls_rs_legacy.Server.Relay.{
  Relay, Side, running, finished, cancelled, broken, Written, wrote_all, wrote_part, part_of,
  after_write, leave_s2o, leave_o2s, s2o_cancelled, s2o_tick, s2o_read, o2s_cancelled, o2s_tick,
  o2s_read, relay_start, Step, up_cancelled, up_tick, up_read, down_cancelled, down_tick, down_read,
  Run, stays, goes,
}
use anytls_rs_legacy.Server.Relay.Charges.{
  charged_up, charged_down, counted, IsCharged, Charges, counted-counted, counted_zero,
  ctx_record_up-Charges, ctx_record_down-Charges,
}

abbrev is_broken : Side → Bool
is_broken running = false
is_broken finished = false
is_broken cancelled = false
is_broken (broken e) = true

-- The one side took what the other gave, in order, up to a rest that a broken side lost.
abbrev pub Carried : Side → Bytes → Bytes → Type 0
Carried side given taken =
    (rest : Bytes) × (given ≡ taken ++ rest) × ((is_broken side ≡ true) ⊎ (rest ≡ []))

-- The counts of the connection are what they were with the bytes that were read.
abbrev pub Counted : ConnCtx → ServerState → Relay → Type 0
Counted ctx s r =
    Charges ctx r.server (counted ctx (charged_up ctx s) (length r.from_client))
      (counted ctx (charged_down ctx s) (length r.from_outbound))

-- A user of the registry or a client of the audit, whose counts fit a `u64`.
abbrev pub Known : ConnCtx → ServerState → Type 0
Known ctx s = IsCharged ctx s × (charged_up ctx s < 2 ^ 64) × (charged_down ctx s < 2 ^ 64)

abbrev pub Good : ConnCtx → ServerState → Relay → Type 0
Good ctx s r =
    Carried r.s2o r.from_client r.to_outbound
    × Carried r.o2s r.from_outbound r.to_client
    × (Known ctx s → Counted ctx s r)

none_lost :
    (side : Side) (rest : Bytes)
    → is_broken side ≡ false
    → (is_broken side ≡ true) ⊎ (rest ≡ [])
    → rest ≡ []
none_lost side rest b (inl t) = absurd (ground (arith, b, t))
none_lost side rest b (inr z) = z

-- A side that has read the whole of what it was given stays good when it is left.
kept_whole :
    (side side' : Side) (given taken : Bytes)
    → is_broken side ≡ false
    → Carried side given taken
    → Carried side' given taken
kept_whole side side' given taken b (rest, e, f) = (rest, e, inr (none_lost side rest b f))

leave_s2o-Good :
    (side : Side) (shutdown : Result {0} Unit) (ctx : ConnCtx) (s : ServerState) (r : Relay)
    → Carried side r.from_client r.to_outbound
    → Carried r.o2s r.from_outbound r.to_client
    → (Known ctx s → Counted ctx s r)
    → Good ctx s (leave_s2o side shutdown r)
unfolding leave_s2o
leave_s2o-Good running shutdown ctx s r u d c = (u, d, c)
leave_s2o-Good cancelled shutdown ctx s r u d c = (u, d, c)
leave_s2o-Good finished (ok x) ctx s r u d c = (u, d, c)
leave_s2o-Good finished (err e) ctx s r u d c =
    (kept_whole finished (broken e) r.from_client r.to_outbound refl u, d, c)
leave_s2o-Good (broken e) (ok x) ctx s r u d c = (u, d, c)
leave_s2o-Good (broken e) (err f) ctx s r u d c = (u, d, c)

leave_o2s-Good :
    (side : Side) (ctx : ConnCtx) (s : ServerState) (r : Relay)
    → Carried r.s2o r.from_client r.to_outbound
    → Carried side r.from_outbound r.to_client
    → (Known ctx s → Counted ctx s r)
    → Good ctx s (leave_o2s side r)
unfolding leave_o2s
leave_o2s-Good running ctx s r u d c = (u, d, c)
leave_o2s-Good cancelled ctx s r u d c = (u, d, c)
leave_o2s-Good finished ctx s r u d c = (u, d, c)
leave_o2s-Good (broken e) ctx s r u d c = (u, d, c)

whole :
    (side : Side) (given taken rest : Bytes)
    → side ≡ running
    → given ≡ taken ++ rest
    → (is_broken side ≡ true) ⊎ (rest ≡ [])
    → given ≡ taken
whole side given taken rest e q f =
    q ∙ ap (λ x. taken ++ x) (none_lost side rest (ap is_broken e) f) ∙ append-nil taken

-- One read and the write behind it.
read_and_written :
    (side : Side) (written : Written) (given taken bs : Bytes)
    → side ≡ running
    → Carried side given taken
    → Carried (after_write written) (given ++ bs) (taken ++ part_of written bs)
read_and_written side wrote_all given taken bs e (rest, q, f) = (
  [],
  ap (λ x. x ++ bs) (whole side given taken rest e q f) ∙ sym (append-nil (taken ++ bs)),
  inr refl,
)
read_and_written side (wrote_part n x) given taken bs e (rest, q, f) = (
  drop n bs,
  ap (λ x. x ++ bs) (whole side given taken rest e q f)
      ∙ ap (λ x. taken ++ x) (sym (take-append-drop n bs))
      ∙ sym (append_assoc taken (take n bs) (drop n bs)),
  inl refl,
)

read_up-Counted :
    (ctx : ConnCtx) (s : ServerState) (r : Relay) (bs : Bytes)
    → Counted ctx s r
    → Charges ctx
        (ctx_record_up (length bs) ctx r.server)
        (counted ctx (charged_up ctx s) (length (r.from_client ++ bs)))
        (counted ctx (charged_down ctx s) (length r.from_outbound))
read_up-Counted ctx s r bs (k, up, down) =
    let (k', up', down') = ctx_record_up-Charges (length bs) ctx r.server k in
    (
      k',
      up'
          ∙ ap (λ x. counted ctx x (length bs)) up
          ∙ counted-counted ctx (charged_up ctx s) (length r.from_client) (length bs)
          ∙ ap (counted ctx (charged_up ctx s)) (sym (length-append r.from_client bs)),
      down' ∙ down,
    )

read_down-Counted :
    (ctx : ConnCtx) (s : ServerState) (r : Relay) (bs : Bytes)
    → Counted ctx s r
    → Charges ctx
        (ctx_record_down (length bs) ctx r.server)
        (counted ctx (charged_up ctx s) (length r.from_client))
        (counted ctx (charged_down ctx s) (length (r.from_outbound ++ bs)))
read_down-Counted ctx s r bs (k, up, down) =
    let (k', up', down') = ctx_record_down-Charges (length bs) ctx r.server k in
    (
      k',
      up' ∙ up,
      down'
          ∙ ap (λ x. counted ctx x (length bs)) down
          ∙ counted-counted ctx (charged_down ctx s) (length r.from_outbound) (length bs)
          ∙ ap (counted ctx (charged_down ctx s)) (sym (length-append r.from_outbound bs)),
    )

-- A side that runs is left, with nothing read.
left_up :
    (side : Side) (shutdown : Result {0} Unit) (ctx : ConnCtx) (s : ServerState) (r : Relay)
    → r.s2o ≡ running
    → Good ctx s r
    → Good ctx s (leave_s2o side shutdown r)
left_up side shutdown ctx s r e (u, d, k) =
    leave_s2o-Good side shutdown ctx s r
      (kept_whole r.s2o side r.from_client r.to_outbound (ap is_broken e) u) d k

left_down :
    (side : Side) (ctx : ConnCtx) (s : ServerState) (r : Relay)
    → r.o2s ≡ running
    → Good ctx s r
    → Good ctx s (leave_o2s side r)
left_down side ctx s r e (u, d, k) =
    leave_o2s-Good side ctx s r u
      (kept_whole r.o2s side r.from_outbound r.to_client (ap is_broken e) d) k

Step-Good :
    (ctx : ConnCtx) (s : ServerState) {r t : Relay} → Step ctx r t → Good ctx s r → Good ctx s t
unfolding s2o_cancelled s2o_tick s2o_read o2s_cancelled o2s_tick o2s_read
Step-Good ctx s {r} (up_cancelled e c) g = left_up cancelled (ok tt) ctx s r e g
Step-Good ctx s {r} (up_tick now shutdown e) g = elim (Bool-cases (approved now ctx r.server)) [
  | inl a ↦ rw a g
  | inr a ↦ rw a (left_up finished shutdown ctx s (record r { session_terminated = true }) e g)
]
Step-Good ctx s {r} (up_read (err x) written shutdown e) g = left_up (broken x) shutdown ctx s r e g
Step-Good ctx s {r} (up_read (ok []) written shutdown e) g = left_up finished shutdown ctx s r e g
Step-Good ctx s {r} (up_read (ok (b ∷ bs)) written shutdown e) (u, d, k) =
    leave_s2o-Good (after_write written) shutdown ctx s _
      (read_and_written r.s2o written r.from_client r.to_outbound (b ∷ bs) e u) d
      (λ h. read_up-Counted ctx s r (b ∷ bs) (k h))
Step-Good ctx s {r} (down_cancelled e c) g = left_down cancelled ctx s r e g
Step-Good ctx s {r} (down_tick now e) g = elim (Bool-cases (approved now ctx r.server)) [
  | inl a ↦ rw a g
  | inr a ↦ rw a (left_down finished ctx s (record r { session_terminated = true }) e g)
]
Step-Good ctx s {r} (down_read (err x) written close e) g = left_down (broken x) ctx s r e g
Step-Good ctx s {r} (down_read (ok []) written (ok x) e) g =
    left_down finished ctx s (record r { stream_closed = true }) e g
Step-Good ctx s {r} (down_read (ok []) written (err x) e) (u, d, k) =
    (u, kept_whole r.o2s (broken x) r.from_outbound r.to_client (ap is_broken e) d, k)
Step-Good ctx s {r} (down_read (ok (b ∷ bs)) written close e) (u, d, k) =
    leave_o2s-Good (after_write written) ctx s _ u
      (read_and_written r.o2s written r.from_outbound r.to_client (b ∷ bs) e d)
      (λ h. read_down-Counted ctx s r (b ∷ bs) (k h))

Run-Good :
    (ctx : ConnCtx) (s : ServerState) {r t : Relay} → Run ctx r t → Good ctx s r → Good ctx s t
Run-Good ctx s stays g = g
Run-Good ctx s (goes step run) g = Run-Good ctx s run (Step-Good ctx s step g)

relay_start-Good : (ctx : ConnCtx) (s : ServerState) → Good ctx s (relay_start s)
relay_start-Good ctx s = (
  ([], refl, inr refl),
  ([], refl, inr refl),
  λ h. (
    h.0,
    sym (counted_zero ctx (charged_up ctx s) h.1),
    sym (counted_zero ctx (charged_down ctx s) h.2),
  ),
)

-- However the two loops of a relay take turns, and whatever the sockets give, each side has taken what the other gave, in order, up to a rest that a side lost that broke.
pub Run-Carried :
    (ctx : ConnCtx) (s : ServerState) {r : Relay}
    → Run ctx (relay_start s) r
    → Carried r.s2o r.from_client r.to_outbound × Carried r.o2s r.from_outbound r.to_client
Run-Carried ctx s {r} run = let (u, d, k) = Run-Good ctx s run (relay_start-Good ctx s) in (u, d)

-- However the two loops of a relay take turns, and whatever the sockets give, if the connection has a user of the registry or a client of the audit whose counts fit a `u64`, these counts are what they were, with all bytes that were read from each side.
pub Run-Counted :
    (ctx : ConnCtx) (s : ServerState) {r : Relay}
    → IsCharged ctx s
    → charged_up ctx s < 2 ^ 64
    → charged_down ctx s < 2 ^ 64
    → Run ctx (relay_start s) r
    → (charged_up ctx r.server ≡ counted ctx (charged_up ctx s) (length r.from_client))
      × (charged_down ctx r.server ≡ counted ctx (charged_down ctx s) (length r.from_outbound))
Run-Counted ctx s {r} k hu hd run =
    let (u, d, counts) = Run-Good ctx s run (relay_start-Good ctx s) in
    let (known, up, down) = counts (k, hu, hd) in (up, down)
