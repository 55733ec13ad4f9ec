-- ===== src/Server/Relay/Denial.antt =====
-- bin/server.rs: a relay whose connection is no longer approved.
use anytls_rs_legacy.Common.{
  ◌≡◌, refl, ap, true, false, [], ◌∷◌, arith, Result, ok, err, Bool-cases, inl, inr,
}
use anytls_rs_legacy.Common.Int.{ℤ}
use anytls_rs_legacy.Common.Bytes.{Bytes}
use anytls_rs_legacy.Server.Connection.{ConnCtx, approved}
use anytls_rs_legacy.Server.Relay.{
  Relay, Side, is_running, running, finished, cancelled, broken, after_write, leave_s2o, leave_o2s,
  s2o_cancelled, s2o_tick, s2o_read, o2s_cancelled, o2s_tick, o2s_read, Step, up_cancelled, up_tick,
  up_read, down_cancelled, down_tick, down_read, Run, stays, goes,
}

-- A direction has stopped, with what was delivered, on a stream that was terminated.
abbrev StoppedUp : Bytes → Relay → Type 0
StoppedUp bs r = (is_running r.s2o ≡ false) × (r.to_outbound ≡ bs) × (r.session_terminated ≡ true)

abbrev StoppedDown : Bytes → Relay → Type 0
StoppedDown bs r = (is_running r.o2s ≡ false) × (r.to_client ≡ bs) × (r.session_terminated ≡ true)

leave_o2s-StoppedUp :
    (bs : Bytes) (side : Side) (r : Relay) → StoppedUp bs r → StoppedUp bs (leave_o2s side r)
unfolding leave_o2s
leave_o2s-StoppedUp bs running r g = g
leave_o2s-StoppedUp bs finished r g = g
leave_o2s-StoppedUp bs cancelled r g = g
leave_o2s-StoppedUp bs (broken e) r g = g

leave_s2o-StoppedDown :
    (bs : Bytes) (side : Side) (shutdown : Result {0} Unit) (r : Relay)
    → StoppedDown bs r
    → StoppedDown bs (leave_s2o side shutdown r)
unfolding leave_s2o
leave_s2o-StoppedDown bs running shutdown r g = g
leave_s2o-StoppedDown bs cancelled shutdown r g = g
leave_s2o-StoppedDown bs finished (ok u) r g = g
leave_s2o-StoppedDown bs finished (err e) r g = g
leave_s2o-StoppedDown bs (broken e) (ok u) r g = g
leave_s2o-StoppedDown bs (broken e) (err f) r g = g

not_running : (side : Side) → side ≡ running → is_running side ≡ false → ⊥
not_running side e f = absurd (ground (arith, ap is_running e, f))

Step-StoppedUp :
    (ctx : ConnCtx) (bs : Bytes) {r t : Relay} → Step ctx r t → StoppedUp bs r → StoppedUp bs t
unfolding o2s_cancelled o2s_tick o2s_read
Step-StoppedUp ctx bs {r} (up_cancelled e c) g = absurd (not_running r.s2o e g.0)
Step-StoppedUp ctx bs {r} (up_tick now shutdown e) g = absurd (not_running r.s2o e g.0)
Step-StoppedUp ctx bs {r} (up_read got written shutdown e) g = absurd (not_running r.s2o e g.0)
Step-StoppedUp ctx bs {r} (down_cancelled e c) g = leave_o2s-StoppedUp bs cancelled r g
Step-StoppedUp ctx bs {r} (down_tick now e) g = elim (Bool-cases (approved now ctx r.server)) [
  | inl a ↦ rw a g
  | inr a ↦
      rw a
        (leave_o2s-StoppedUp bs finished (record r { session_terminated = true }) (g.0, g.1, refl))
]
Step-StoppedUp ctx bs {r} (down_read (err x) written close e) g =
    leave_o2s-StoppedUp bs (broken x) r g
Step-StoppedUp ctx bs {r} (down_read (ok []) written (ok x) e) g =
    leave_o2s-StoppedUp bs finished (record r { stream_closed = true }) g
Step-StoppedUp ctx bs {r} (down_read (ok []) written (err x) e) g = g
Step-StoppedUp ctx bs {r} (down_read (ok (b ∷ cs)) written close e) g =
    leave_o2s-StoppedUp bs (after_write written) _ g

Step-StoppedDown :
    (ctx : ConnCtx) (bs : Bytes) {r t : Relay} → Step ctx r t → StoppedDown bs r → StoppedDown bs t
unfolding s2o_cancelled s2o_tick s2o_read
Step-StoppedDown ctx bs {r} (down_cancelled e c) g = absurd (not_running r.o2s e g.0)
Step-StoppedDown ctx bs {r} (down_tick now e) g = absurd (not_running r.o2s e g.0)
Step-StoppedDown ctx bs {r} (down_read got written close e) g = absurd (not_running r.o2s e g.0)
Step-StoppedDown ctx bs {r} (up_cancelled e c) g = leave_s2o-StoppedDown bs cancelled (ok tt) r g
Step-StoppedDown ctx bs {r} (up_tick now shutdown e) g =
    elim (Bool-cases (approved now ctx r.server)) [
      | inl a ↦ rw a g
      | inr a ↦ rw a (
          leave_s2o-StoppedDown bs finished shutdown (record r { session_terminated = true })
            (g.0, g.1, refl))
    ]
Step-StoppedDown ctx bs {r} (up_read (err x) written shutdown e) g =
    leave_s2o-StoppedDown bs (broken x) shutdown r g
Step-StoppedDown ctx bs {r} (up_read (ok []) written shutdown e) g =
    leave_s2o-StoppedDown bs finished shutdown r g
Step-StoppedDown ctx bs {r} (up_read (ok (b ∷ cs)) written shutdown e) g =
    leave_s2o-StoppedDown bs (after_write written) shutdown _ g

Run-StoppedUp :
    (ctx : ConnCtx) (bs : Bytes) {r t : Relay} → Run ctx r t → StoppedUp bs r → StoppedUp bs t
Run-StoppedUp ctx bs stays g = g
Run-StoppedUp ctx bs (goes step run) g = Run-StoppedUp ctx bs run (Step-StoppedUp ctx bs step g)

Run-StoppedDown :
    (ctx : ConnCtx) (bs : Bytes) {r t : Relay} → Run ctx r t → StoppedDown bs r → StoppedDown bs t
Run-StoppedDown ctx bs stays g = g
Run-StoppedDown ctx bs (goes step run) g =
    Run-StoppedDown ctx bs run (Step-StoppedDown ctx bs step g)

left_finished :
    (shutdown : Result {0} Unit) (r : Relay)
    → StoppedUp r.to_outbound (leave_s2o finished shutdown (record r { session_terminated = true }))
unfolding leave_s2o
left_finished (ok u) r = (refl, refl, refl)
left_finished (err e) r = (refl, refl, refl)

left_down_finished :
    (r : Relay)
    → StoppedDown r.to_client (leave_o2s finished (record r { session_terminated = true }))
unfolding leave_o2s
left_down_finished r = (refl, refl, refl)

-- When both loops have had a tick that found the connection not approved any more, in whatever order and with whatever steps between and behind, each has delivered what it had delivered by its own tick, and nothing more.
pub tick-stops :
    (ctx : ConnCtx) (up_now down_now : ℤ) (shutdown : Result {0} Unit) (r s : Relay) {t : Relay}
    → approved up_now ctx r.server ≡ false
    → approved down_now ctx s.server ≡ false
    → Run ctx (s2o_tick ctx up_now shutdown r) t
    → Run ctx (o2s_tick ctx down_now s) t
    → (t.to_outbound ≡ r.to_outbound) × (t.to_client ≡ s.to_client)
unfolding s2o_tick o2s_tick
tick-stops ctx up_now down_now shutdown r s {t} up_denied down_denied behind_up behind_down =
    let up_stops : StoppedUp r.to_outbound (s2o_tick ctx up_now shutdown r) =
      rw up_denied (left_finished shutdown r) in
    let down_stops : StoppedDown s.to_client (o2s_tick ctx down_now s) =
      rw down_denied (left_down_finished s) in
    (
      (Run-StoppedUp ctx r.to_outbound behind_up up_stops).1,
      (Run-StoppedDown ctx s.to_client behind_down down_stops).1,
    )
