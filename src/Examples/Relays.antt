-- ===== src/Examples/Relays.antt =====
-- The theorems on relays at concrete inputs.
use anytls_rs_legacy.Common.{
  ℕ, List, ◌++◌, ◌+◌, ◌≢◌, ◌⊎◌, codes, ◌<◌, ◌≡◌, ◌^◌, refl, Bool, true, false, none, some, [], ◌∷◌,
  arith, ok, length, io_error, broken_pipe, nat_key,
}
use anytls_rs_legacy.Common.Int.{pos}
use anytls_rs_legacy.Common.Map.{lookup, contains_key}
use anytls_rs_legacy.Panel.TrafficAudit.{
  contain_client, get_upstream_traffic_of, get_downstream_traffic_of, get_enable_of,
}
use anytls_rs_legacy.Common.Bytes.{Bytes}
use anytls_rs_legacy.Server.Packets.{
  Packet, Branch, ticks, reads_packet, receives, UotRelay, uot_loop, uot_start, anywhere, mode_of,
  runs, panicked,
}
use anytls_rs_legacy.Server.Packets.Order.{Reads, addressed, total}
use anytls_rs_legacy.Server.Packets.Relayed.{uot_loop-Relayed}
use anytls_rs_legacy.Examples.Packets.{codec, codec-IsCodec, dns}
use anytls_rs_legacy.Server.Connection.{
  ConnCtx, ServerState, shared_password, approved, check_incoming_client_approved,
}
use anytls_rs_legacy.Server.Relay.{
  down_tick, Relay, wrote_all, wrote_part, relay_start, s2o_read, s2o_tick, o2s_tick, o2s_read, Run,
  stays, goes, up_read, down_read, leave_s2o,
}
use anytls_rs_legacy.Server.Relay.Charges.{charged_up, charged_down, counted, IsCharged}
use anytls_rs_legacy.Server.Relay.Steps.{Run-Carried, Run-Counted, Carried}
use anytls_rs_legacy.Server.Relay.Denial.{tick-stops}

abbrev client : ConnCtx
client = record { user = none; client_id = some 7; panel_sync = true }

abbrev audited : Bool → ServerState
audited enable = record {
  authenticator = shared_password [];
  audit = (7, record { enable = enable; upstream_traffic = 10; downstream_traffic = 20 }) ∷ [];
}

-- Two bytes go up, and one of the two that come down is lost.
abbrev first_read : Relay
first_read = s2o_read client (ok (1 ∷ 2 ∷ [])) wrote_all (ok tt) (relay_start (audited true))

abbrev second_read : Relay
second_read =
    o2s_read client (ok (8 ∷ 9 ∷ [])) (wrote_part 1 (io_error broken_pipe "closed")) (ok tt)
      first_read

reads_run : Run client (relay_start (audited true)) second_read
unfolding s2o_read leave_s2o
reads_run = goes (up_read (ok (1 ∷ 2 ∷ [])) wrote_all (ok tt) refl) (
    goes (down_read (ok (8 ∷ 9 ∷ [])) (wrote_part 1 (io_error broken_pipe "closed")) (ok tt) refl)
      stays)

audited-IsCharged : IsCharged client (audited true)
unfolding IsCharged contain_client contains_key lookup
audited-IsCharged = refl

audited_up : charged_up client (audited true) < 2 ^ 64
unfolding charged_up get_upstream_traffic_of lookup
audited_up = ground arith

audited_down : charged_down client (audited true) < 2 ^ 64
unfolding charged_down get_downstream_traffic_of lookup
audited_down = ground arith

Run-Carried_example :
    Carried second_read.s2o second_read.from_client second_read.to_outbound
    × Carried second_read.o2s second_read.from_outbound second_read.to_client
Run-Carried_example = Run-Carried client (audited true) reads_run

Run-Counted_example :
    (charged_up client second_read.server
      ≡ counted client (charged_up client (audited true)) (length second_read.from_client))
    × (charged_down client second_read.server
        ≡ counted client (charged_down client (audited true)) (length second_read.from_outbound))
Run-Counted_example =
    Run-Counted client (audited true) audited-IsCharged audited_up audited_down reads_run

abbrev stopped_up : Relay
stopped_up = s2o_tick client (pos 1) (ok tt) (relay_start (audited false))

disapproved : approved (pos 1) client (audited false) ≡ false
unfolding approved check_incoming_client_approved get_enable_of lookup
disapproved = refl

still_disapproved : approved (pos 1) client stopped_up.server ≡ false
unfolding approved check_incoming_client_approved get_enable_of lookup s2o_tick leave_s2o
still_disapproved = refl

abbrev stopped : Relay
stopped = o2s_tick client (pos 1) stopped_up

then_down : Run client stopped_up stopped
unfolding s2o_tick leave_s2o approved check_incoming_client_approved get_enable_of lookup
then_down = goes (down_tick (pos 1) refl) stays

tick-stops_example : (stopped.to_outbound ≡ []) × (stopped.to_client ≡ stopped_up.to_client)
tick-stops_example =
    tick-stops client (pos 1) (pos 1) (ok tt) (relay_start (audited false)) stopped_up disapproved
      still_disapproved then_down stays

-- A packet of the client to a name, one of the socket, and a tick that denies the connection.
abbrev wanted : Bytes
wanted = 53 ∷ 3 ∷ (codes "a.b" ++ (0 ∷ 2 ∷ 8 ∷ 9 ∷ []))

abbrev rounds : List (Branch codec client anywhere)
rounds = reads_packet (ok tt) ∷ receives false (ok (5 ∷ [], dns)) (ok tt) ∷ ticks true (pos 1) ∷ []

abbrev relayed : UotRelay codec
relayed =
    uot_loop codec client anywhere rounds (uot_start codec client anywhere wanted (audited true))

uot_loop-Relayed_example :
    ((taken : List (Packet codec)) × Reads codec
        (mode_of codec anywhere)
        wanted
        taken
        relayed.reader
      × (relayed.sent ≡ addressed codec anywhere taken)
      × (charged_up client relayed.server
          ≡ counted client (charged_up client (audited true)) (total codec taken)))
    × Reads codec (mode_of codec anywhere) (relayed.frames ++ (7 ∷ [])) relayed.packets (7 ∷ [])
    × ((lost : ℕ) × (charged_down client relayed.server
          ≡ counted client
              (charged_down client (audited true))
              (total codec relayed.packets + lost))
        × ((relayed.ending ≢ runs) ⊎ (lost ≡ 0)))
    × (relayed.ending ≢ panicked)
uot_loop-Relayed_example =
    uot_loop-Relayed codec codec-IsCodec client anywhere wanted (audited true) rounds (7 ∷ [])
      relayed refl audited-IsCharged audited_up audited_down

approved_client : approved (pos 1) client (audited true) ≡ true
unfolding approved check_incoming_client_approved get_enable_of lookup
approved_client = refl
