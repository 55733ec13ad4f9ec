-- ===== src/Server/Packets.antt =====
-- bin/server.rs: the loops of `handle_uot_datagram_stream` and `handle_uot_connected_stream`, round by round
-- of their `select!`. What the UDP socket gives, and whether a send or a write succeeds, are inputs;
-- a packet of the client is read from the bytes that its stream has still to give. That read is a branch
-- of the `select!`, which drops it when another branch is ready first: where it had taken bytes by then,
-- they are lost, and the reader keeps its buffer. The relay is followed up to that round.
pub mod Order
pub mod Relayed
use anytls_rs_legacy.Common.{
  ℕ, Bool, true, false, not, ◌||◌, Option, none, some, List, [], ◌∷◌, ◌++◌, if◌then◌else◌, length,
  Result, ok, err, IoError, ErrorKind, broken_pipe, would_block, unexpected_eof, invalid_data,
  invalid_input, timed_out, other,
}
use anytls_rs_legacy.Common.Int.{ℤ}
use anytls_rs_legacy.Common.Bytes.{Bytes}
use anytls_rs_legacy.Uot.{
  AddressCodec, UotMode, datagram, connected, UotRequest, uot_is_sentinel_destination,
  uot_get_request_from_stream, uot_encode_packet, uot_get_packet_from_stream,
}
use anytls_rs_legacy.Server.Connection.{
  ConnCtx, ServerState, ctx_record_up, ctx_record_down, approved,
}

unfoldable pub is_error_of_session_broken : IoError → Bool
is_error_of_session_broken e = elim e.kind [
  | broken_pipe ↦ true
  | would_block ↦ false
  | unexpected_eof ↦ true
  | invalid_data ↦ false
  | invalid_input ↦ false
  | timed_out ↦ false
  | other ↦ false
]

-- Whether the loop runs, has left with a result, has panicked on a packet without a destination, or is torn:
-- it goes on in the code, but a read of a packet was dropped that had taken bytes.
pub data Ending : Type 0 where
  runs panicked torn : Ending
  left : Result {0} Unit → Ending

abbrev pub tear : Ending → Ending
tear runs = torn
tear panicked = panicked
tear torn = torn
tear (left result) = left result

module _ (c : AddressCodec) where
  -- What the client asked for: packets for any destination, or for the one of its request.
  pub data Target : Type 0 where
    anywhere : Target
    fixed : c.Address → Target

  abbrev pub Packet : Type 0
  Packet = Option c.Address × Bytes

  abbrev pub mode_of : Target → UotMode
  mode_of anywhere = datagram
  mode_of (fixed a) = connected

  abbrev pub destination_of : Target → Option c.Address → Option c.Address
  destination_of anywhere destination = destination
  destination_of (fixed a) destination = some a

  abbrev pub shown_source : Target → c.Address → Option c.Address
  shown_source anywhere source = some source
  shown_source (fixed a) source = none

  pub record UotRelay : Type 0 where
    pub ending : Ending
    -- The bytes of the client, what was sent for it, what the socket gave, and the frames written.
    pub reader : Bytes
    pub sent : List (c.Address × Bytes)
    pub packets : List Packet
    pub frames : Bytes
    pub terminated : Bool
    pub server : ServerState

  abbrev pub after : Result {0} Unit → Ending
  after (ok u) = runs
  after (err e) = left (err e)

  module _ (ctx : ConnCtx) (target : Target) where
    unfoldable pub uot_tick : ℤ → UotRelay → UotRelay
    uot_tick now r =
        if not (approved now ctx r.server)
        then record r { ending = left (ok tt); terminated = true }
        else r

    -- A packet that was read is counted and sent.
    unfoldable pub uot_send :
        Option c.Address → Bytes → Bytes → Result {0} Unit → UotRelay → UotRelay
    uot_send none payload rest sends r = record r { ending = panicked }
    uot_send (some a) payload rest sends r = record r {
      ending = after sends;
      reader = rest;
      sent = r.sent ++ ((a, payload) ∷ []);
      server = ctx_record_up (length payload) ctx r.server;
    }

    unfoldable pub uot_forward : Result (Packet × Bytes) → Result {0} Unit → UotRelay → UotRelay
    uot_forward (err e) sends r = record r {
      ending = left (if is_error_of_session_broken e then ok tt else err e);
    }
    uot_forward (ok ((destination, payload), rest)) sends r =
        uot_send (destination_of target destination) payload rest sends r

    unfoldable pub uot_packet : Result {0} Unit → UotRelay → UotRelay
    uot_packet sends r =
        uot_forward (uot_get_packet_from_stream c (mode_of target) r.reader) sends r

    -- A packet of the socket is encoded, counted and written to the stream.
    unfoldable pub uot_write :
        Result Bytes → Bytes → c.Address → Result {0} Unit → UotRelay → UotRelay
    uot_write (err e) payload source writes r = record r { ending = left (err e) }
    uot_write (ok frame) payload source (err e) r = record r {
      ending = left (err e);
      server = ctx_record_down (length payload) ctx r.server;
    }
    uot_write (ok frame) payload source (ok u) r = record r {
      packets = r.packets ++ ((shown_source target source, payload) ∷ []);
      frames = r.frames ++ frame;
      server = ctx_record_down (length payload) ctx r.server;
    }

    unfoldable pub uot_received : Result (Bytes × c.Address) → Result {0} Unit → UotRelay → UotRelay
    uot_received (err e) writes r = record r { ending = left (err e) }
    uot_received (ok (payload, source)) writes r =
        uot_write (uot_encode_packet c (mode_of target) (shown_source target source) payload)
          payload source writes r

    -- A round of another branch, and whether the read of a packet that it drops had taken bytes.
    unfoldable pub dropping : Bool → UotRelay → UotRelay
    dropping mid_packet r = if mid_packet then record r { ending = tear r.ending } else r

    -- The branches that a round can take.
    pub data Branch : Type 0 where
      ticks : Bool → ℤ → Branch
      reads_packet : Result {0} Unit → Branch
      receives : Bool → Result (Bytes × c.Address) → Result {0} Unit → Branch

    unfoldable pub uot_round : Branch → UotRelay → UotRelay
    uot_round (ticks mid_packet now) r = dropping mid_packet (uot_tick now r)
    uot_round (reads_packet sends) r = uot_packet sends r
    uot_round (receives mid_packet got writes) r = dropping mid_packet (uot_received got writes r)

    unfoldable pub uot_loop : List Branch → UotRelay → UotRelay
    uot_loop [] r = r
    uot_loop (b ∷ bs) r = elim r.ending [
      | runs ↦ uot_loop bs (uot_round b r)
      | left result ↦ r
      | panicked ↦ r
      | torn ↦ r
    ]

    abbrev pub uot_start : Bytes → ServerState → UotRelay
    uot_start bs s = record {
      ending = runs;
      reader = bs;
      sent = [];
      packets = [];
      frames = [];
      terminated = false;
      server = s;
    }

  -- One round of `handle_session`, up to the relay that it starts on the bytes that follow.
  pub data Round : Type 0 where
    session_ended session_denied : Round
    session_failed : IoError → Round
    serves_tcp : c.Address → Bytes → Round
    serves_uot : Target → Bytes → Round

  abbrev pub target_of : UotRequest c → Target
  target_of request = elim request.mode [
    | datagram ↦ anywhere
    | connected ↦ fixed request.destination
  ]

  unfoldable pub handle_uot_stream : Bytes → Round
  handle_uot_stream reader = elim (uot_get_request_from_stream c reader) [
    | err e ↦ session_failed e
    | ok (request, rest) ↦ serves_uot (target_of request) rest
  ]

  -- Whether the session is terminated is asked before the round, and after a failed read.
  unfoldable pub session_round : ConnCtx → ℤ → Bool → Bool → Bytes → ServerState → Round
  session_round ctx now terminated_before terminated_after reader s =
      if terminated_before
      then session_ended
      else if not (approved now ctx s)
      then session_denied
      else elim (c.retrieve reader) [
        | err e ↦
            if terminated_after || is_error_of_session_broken e
            then session_ended
            else session_failed e
        | ok (destination, rest) ↦
            if uot_is_sentinel_destination c destination
            then handle_uot_stream rest
            else serves_tcp destination rest
      ]
