-- ===== src/Server/Relay.antt =====
-- bin/server.rs: the relay of `handle_tcp_stream` behind a connected target. Its two loops run side by
-- side; a step is one round of a `select!` with the branch that was taken. What a read or a write
-- of the sockets gives is an input of the step.
pub mod Charges
pub mod Steps
pub mod Denial
use anytls_rs_legacy.Common.{
  ℕ, ◌+◌, ◌<◌, ◌≡◌, ◌≢◌, ◌^◌, Bool, true, false, not, ◌&&◌, ◌||◌, Option, none, some, List, [], ◌∷◌,
  ◌++◌, if◌then◌else◌, take, length, Result, ok, err, IoError,
}
use anytls_rs_legacy.Common.Int.{ℤ}
use anytls_rs_legacy.Common.Bytes.{Bytes}
use anytls_rs_legacy.Server.Connection.{
  ConnCtx, ServerState, ctx_record_up, ctx_record_down, approved,
}

-- A loop that runs, or that has left its `loop` with a result; `cancelled` by the other's token.
pub data Side : Type 0 where
  running finished cancelled : Side
  broken : IoError → Side

-- `write_all` writes the whole, or fails behind a part of it.
pub data Written : Type 0 where
  wrote_all : Written
  wrote_part : ℕ → IoError → Written

pub record Relay : Type 0 where
  pub s2o : Side
  pub o2s : Side
  pub relay_cancel : Bool
  -- What the stream and the target gave, and what the other side took of it.
  pub from_client : Bytes
  pub to_outbound : Bytes
  pub from_outbound : Bytes
  pub to_client : Bytes
  pub outbound_shut : Bool
  pub stream_closed : Bool
  pub session_terminated : Bool
  pub server : ServerState

abbrev pub is_running : Side → Bool
is_running running = true
is_running finished = false
is_running cancelled = false
is_running (broken e) = false

abbrev pub part_of : Written → Bytes → Bytes
part_of wrote_all bs = bs
part_of (wrote_part n e) bs = take n bs

abbrev pub after_write : Written → Side
after_write wrote_all = running
after_write (wrote_part n e) = broken e

-- What stands behind the loop of s2o: a loop that was not cancelled shuts the outbound down, and if
-- that fails, its error ends the block before the token is touched.
unfoldable pub leave_s2o : Side → Result {0} Unit → Relay → Relay
leave_s2o running shutdown r = record r { s2o = running }
leave_s2o cancelled shutdown r = record r { s2o = cancelled }
leave_s2o finished (ok u) r = record r { s2o = finished; outbound_shut = true }
leave_s2o finished (err e) r = record r { s2o = broken e }
leave_s2o (broken e) (ok u) r = record r {
  s2o = broken e;
  outbound_shut = true;
  relay_cancel = true;
}
leave_s2o (broken e) (err f) r = record r { s2o = broken f }

unfoldable pub leave_o2s : Side → Relay → Relay
leave_o2s running r = record r { o2s = running }
leave_o2s cancelled r = record r { o2s = cancelled }
leave_o2s finished r = record r { o2s = finished }
leave_o2s (broken e) r = record r { o2s = broken e; relay_cancel = true }

module _ (ctx : ConnCtx) where
  unfoldable pub s2o_cancelled : Relay → Relay
  s2o_cancelled r = leave_s2o cancelled (ok tt) r

  unfoldable pub s2o_tick : ℤ → Result {0} Unit → Relay → Relay
  s2o_tick now shutdown r =
      if not (approved now ctx r.server)
      then leave_s2o finished shutdown (record r { session_terminated = true })
      else r

  unfoldable pub s2o_read : Result Bytes → Written → Result {0} Unit → Relay → Relay
  s2o_read (err e) written shutdown r = leave_s2o (broken e) shutdown r
  s2o_read (ok []) written shutdown r = leave_s2o finished shutdown r
  s2o_read (ok (b ∷ bs)) written shutdown r = leave_s2o (after_write written) shutdown (record r {
    server = ctx_record_up (length (b ∷ bs)) ctx r.server;
    from_client = r.from_client ++ (b ∷ bs);
    to_outbound = r.to_outbound ++ part_of written (b ∷ bs);
  })

  unfoldable pub o2s_cancelled : Relay → Relay
  o2s_cancelled r = leave_o2s cancelled r

  unfoldable pub o2s_tick : ℤ → Relay → Relay
  o2s_tick now r =
      if not (approved now ctx r.server)
      then leave_o2s finished (record r { session_terminated = true })
      else r

  -- A failed `close` leaves the block by `?`, before the token is touched.
  unfoldable pub o2s_read : Result Bytes → Written → Result {0} Unit → Relay → Relay
  o2s_read (err e) written close r = leave_o2s (broken e) r
  o2s_read (ok []) written (ok u) r = leave_o2s finished (record r { stream_closed = true })
  o2s_read (ok []) written (err e) r = record r { o2s = broken e }
  o2s_read (ok (b ∷ bs)) written close r = leave_o2s (after_write written) (record r {
    server = ctx_record_down (length (b ∷ bs)) ctx r.server;
    from_outbound = r.from_outbound ++ (b ∷ bs);
    to_client = r.to_client ++ part_of written (b ∷ bs);
  })

abbrev pub relay_start : ServerState → Relay
relay_start s = record {
  s2o = running;
  o2s = running;
  relay_cancel = false;
  from_client = [];
  to_outbound = [];
  from_outbound = [];
  to_client = [];
  outbound_shut = false;
  stream_closed = false;
  session_terminated = false;
  server = s;
}

-- A round of one of the loops, while it runs. The token's branch waits for the token.
pub data Step (ctx : ConnCtx) : Relay → Relay → Type 0 where
  up_cancelled :
      {r : Relay} → r.s2o ≡ running → r.relay_cancel ≡ true → Step ctx r (s2o_cancelled ctx r)
  up_tick :
      {r : Relay} (now : ℤ) (shutdown : Result {0} Unit)
      → r.s2o ≡ running
      → Step ctx r (s2o_tick ctx now shutdown r)
  up_read :
      {r : Relay} (got : Result Bytes) (written : Written) (shutdown : Result {0} Unit)
      → r.s2o ≡ running
      → Step ctx r (s2o_read ctx got written shutdown r)
  down_cancelled :
      {r : Relay} → r.o2s ≡ running → r.relay_cancel ≡ true → Step ctx r (o2s_cancelled ctx r)
  down_tick : {r : Relay} (now : ℤ) → r.o2s ≡ running → Step ctx r (o2s_tick ctx now r)
  down_read :
      {r : Relay} (got : Result Bytes) (written : Written) (close : Result {0} Unit)
      → r.o2s ≡ running
      → Step ctx r (o2s_read ctx got written close r)

pub data Run (ctx : ConnCtx) : Relay → Relay → Type 0 where
  stays : {r : Relay} → Run ctx r r
  goes : {r s t : Relay} → Step ctx r s → Run ctx s t → Run ctx r t
