-- ===== src/Runner/Associate.antt =====
-- src/client_runner.rs: `handle_udp_associate` behind the two binds, round by round of its `select!`. What the
-- local socket gives, and whether a send or a write succeeds, are inputs of a round. The read of a packet of
-- the proxy is a branch of the `select!`, which drops it when another branch is ready first: where it had
-- taken bytes by then, they are lost, and the reader keeps its buffer. The relay is followed up to that round.
pub mod Served
use anytls_rs_legacy.Common.{
  ℕ, Bool, true, false, not, Option, none, some, List, [], ◌∷◌, ◌++◌, ◌==◌, if◌then◌else◌, length,
  Result, ok, err, IoError, io_error, invalid_data,
}
use anytls_rs_legacy.Common.Bytes.{Bytes}
use anytls_rs_legacy.Uot.{
  AddressCodec, UotMode, datagram, UotRequest, bytes_of_request, uot_sentinel_destination,
  uot_encode_packet, uot_get_packet_from_stream,
}

-- Whether the loop runs, has broken with its result, or was left by a `?`, behind which the stream is
-- neither closed nor terminated; or has panicked on a packet without a source; or is torn: it goes on in
-- the code, but a read of a packet was dropped that had taken bytes.
pub data Ending : Type 0 where
  runs panicked torn : Ending
  broke : Result {0} Unit → Ending
  returned : IoError → Ending

abbrev pub tear : Ending → Ending
tear runs = torn
tear panicked = panicked
tear torn = torn
tear (broke result) = broke result
tear (returned e) = returned e

module _ (c : AddressCodec) (Peer : Type 0) (port : Peer → ℕ) where
  -- A packet of the local socket: its data, its fragment number, its destination and its sender.
  pub record Local : Type 0 where
    pub pkt : Bytes
    pub frag : ℕ
    pub destination : c.Address
    pub src_addr : Peer

  -- `received` is what was written of the local packets, `delivered` what was sent to the local client.
  pub record Associate : Type 0 where
    pub ending : Ending
    pub incoming_addr : Peer
    pub written : Bytes
    pub received : List (Option c.Address × Bytes)
    pub reader : Bytes
    pub delivered : List (Bytes × c.Address × Peer)

  -- What the client writes before the packets.
  unfoldable pub opening : c.Address → Bytes
  opening unspecified =
      c.write_to_buf (uot_sentinel_destination c)
      ++ bytes_of_request c (record { mode = datagram; destination = unspecified })

  unfoldable pub write_local : Result Bytes → Local → Result {0} Unit → Associate → Associate
  write_local (err e) l writes r = record r { ending = returned e }
  write_local (ok frame) l (err e) r = record r { ending = returned e }
  write_local (ok frame) l (ok u) r = record r {
    written = r.written ++ frame;
    received = r.received ++ ((some l.destination, l.pkt) ∷ []);
  }

  unfoldable pub recv_local : Result Local → Result {0} Unit → Associate → Associate
  recv_local (err e) writes r = record r { ending = returned e }
  recv_local (ok l) writes r =
      if not (l.frag == 0)
      then record r {
        ending = broke (err (io_error invalid_data "UDP fragmentation is not supported"));
      }
      else write_local (uot_encode_packet c datagram (some l.destination) l.pkt) l writes
          (record r { incoming_addr = l.src_addr })

  unfoldable pub send_local : Option c.Address → Bytes → Result {0} Unit → Associate → Associate
  send_local none payload sends r = record r { ending = panicked }
  send_local (some source) payload (err e) r = record r { ending = returned e }
  send_local (some source) payload (ok u) r = record r {
    delivered = r.delivered ++ ((payload, source, r.incoming_addr) ∷ []);
  }

  unfoldable pub deliver :
      Result ((Option c.Address × Bytes) × Bytes) → Result {0} Unit → Associate → Associate
  deliver (err e) sends r = record r { ending = returned e }
  deliver (ok ((source, payload), rest)) sends r =
      if port r.incoming_addr == 0
      then record r { reader = rest }
      else send_local source payload sends (record r { reader = rest })

  unfoldable pub recv_proxy : Result {0} Unit → Associate → Associate
  recv_proxy sends r = deliver (uot_get_packet_from_stream c datagram r.reader) sends r

  unfoldable pub listener_closed : Result {0} Unit → Associate → Associate
  listener_closed (err e) r = record r { ending = returned e }
  listener_closed (ok u) r = record r { ending = broke (ok tt) }

  -- A round of another branch, and whether the read of a packet that it drops had taken bytes.
  unfoldable pub dropping : Bool → Associate → Associate
  dropping mid_packet r = if mid_packet then record r { ending = tear r.ending } else r

  pub data Branch : Type 0 where
    local : Bool → Result Local → Result {0} Unit → Branch
    proxy : Result {0} Unit → Branch
    closes : Bool → Result {0} Unit → Branch

  unfoldable pub associate_round : Branch → Associate → Associate
  associate_round (local mid_packet got writes) r = dropping mid_packet (recv_local got writes r)
  associate_round (proxy sends) r = recv_proxy sends r
  associate_round (closes mid_packet got) r = dropping mid_packet (listener_closed got r)

  unfoldable pub associate_loop : List Branch → Associate → Associate
  associate_loop [] r = r
  associate_loop (b ∷ bs) r = elim r.ending [
    | runs ↦ associate_loop bs (associate_round b r)
    | panicked ↦ r
    | broke result ↦ r
    | returned e ↦ r
    | torn ↦ r
  ]

  -- The local client is not known at first: its address has port 0.
  abbrev pub associate_start : c.Address → Peer → Bytes → Associate
  associate_start unspecified unknown reader = record {
    ending = runs;
    incoming_addr = unknown;
    written = opening unspecified;
    received = [];
    reader = reader;
    delivered = [];
  }
