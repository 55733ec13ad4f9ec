-- ===== src/Server/Packets/Relayed.antt =====
-- bin/server.rs: a relay of packets as a whole, and the rounds of a session that start it.
use anytls_rs_legacy.Common.{
  ap, ◌∙◌, inl, some, Option-cases, Bool-cases, text_same, text_same_iff, subst, ℕ, ◌+◌, ◌<◌, ◌≡◌,
  ◌≢◌, ◌^◌, ◌⊎◌, refl, sym, Bool, true, false, List, [], ◌∷◌, ◌++◌, arith, inr,
}
use anytls_rs_legacy.Common.Int.{ℤ}
use anytls_rs_legacy.Common.Bytes.{Bytes}
use anytls_rs_legacy.Uot.{
  v2_magic_address, AddressCodec, IsCodec, UotRequest, bytes_of_request,
  uot_is_sentinel_destination, uot_sentinel_destination,
}
use anytls_rs_legacy.Uot.RoundTrip.{sentinel_any, get_request-bytes_of_request}
use anytls_rs_legacy.Server.Connection.{ConnCtx, ServerState, approved}
use anytls_rs_legacy.Server.Relay.Charges.{
  charged_up, charged_down, counted, IsCharged, counted_zero,
}
use anytls_rs_legacy.Server.Packets.{
  Ending, runs, left, panicked, torn, Target, Packet, mode_of, UotRelay, Branch, uot_round,
  uot_loop, uot_start, serves_tcp, serves_uot, target_of, handle_uot_stream, session_round,
}
use anytls_rs_legacy.Server.Packets.Order.{
  Reads, reads_none, addressed, total, Good, uot_round-Good,
}

module _ (c : AddressCodec) (codec : IsCodec c) (ctx : ConnCtx) (target : Target c) (start : Bytes)
    (s : ServerState) where
  one_round :
      (x : Ending) (r next : UotRelay c)
      → r.ending ≡ x
      → Good c codec ctx target start s r
      → (r.ending ≡ runs → Good c codec ctx target start s next)
      → Good c codec ctx target start s
          (elim x [ runs ↦ next | left result ↦ r | panicked ↦ r | torn ↦ r ])
  one_round runs r next e g f = f e
  one_round (left result) r next e g f = g
  one_round panicked r next e g f = g
  one_round torn r next e g f = g

  uot_loop-Good :
      (bs : List (Branch c ctx target)) (r : UotRelay c)
      → Good c codec ctx target start s r
      → Good c codec ctx target start s (uot_loop c ctx target bs r)
  unfolding uot_loop
  uot_loop-Good [] r g = g
  uot_loop-Good (b ∷ bs) r g =
      one_round r.ending r (uot_loop c ctx target bs (uot_round c ctx target b r)) refl g
        (λ running.
          uot_loop-Good bs (uot_round c ctx target b r)
            (uot_round-Good c codec ctx target start s b r running g))

  -- However the rounds of a relay of packets fall out, up to and with the first one that drops a read of a packet which had taken bytes, if the crate reads an address back from its wire form and the connection has a user or a client whose counts fit a `u64`: the packets that the client put at the start of its stream are sent in order, each to its own destination or to that of the request, and are counted for that user or client; the frames that the relay writes are read back as the packets that the socket gave, in order and with their sources where they are shown, and what was counted for them are their bytes, with those of what was lost if the relay has ended; and the relay does not panic.
  pub uot_loop-Relayed :
      (bs : List (Branch c ctx target)) (rest : Bytes) (r : UotRelay c)
      → r ≡ uot_loop c ctx target bs (uot_start c ctx target start s)
      → IsCharged ctx s
      → charged_up ctx s < 2 ^ 64
      → charged_down ctx s < 2 ^ 64
      → ((taken : List (Packet c)) × Reads c (mode_of c target) start taken r.reader
          × (r.sent ≡ addressed c target taken)
          × (charged_up ctx r.server ≡ counted ctx (charged_up ctx s) (total c taken)))
        × Reads c (mode_of c target) (r.frames ++ rest) r.packets rest
        × ((lost : ℕ) × (charged_down ctx r.server
              ≡ counted ctx (charged_down ctx s) (total c r.packets + lost))
            × ((r.ending ≢ runs) ⊎ (lost ≡ 0)))
        × (r.ending ≢ panicked)
  unfolding addressed total
  uot_loop-Relayed bs rest r e k hu hd =
      let begun : Good c codec ctx target start s (uot_start c ctx target start s) = (
        (
          [],
          reads_none,
          refl,
          0,
          (
            k,
            sym (counted_zero ctx (charged_up ctx s) hu),
            sym (counted_zero ctx (charged_down ctx s) hd),
          ),
          inr refl,
        ),
        λ x. reads_none,
        λ x. absurd (ground (arith, x)),
      ) in
      let ((taken, reads, sent, lost, (k', up, down), z), w, p) =
        subst (Good c codec ctx target start s) (sym e)
          (uot_loop-Good bs (uot_start c ctx target start s) begun) in
      ((taken, reads, sent, up), w rest, (lost, down, z), p)

module _ (c : AddressCodec) (codec : IsCodec c) where
  pub session_round-uot :
      (ctx : ConnCtx) (now : ℤ) (terminated_after : Bool) (s : ServerState) (request : UotRequest c)
      (rest : Bytes)
      → approved now ctx s ≡ true
      → session_round c ctx now false terminated_after
          (c.write_to_buf (uot_sentinel_destination c) ++ (bytes_of_request c request ++ rest))
          s
        ≡ serves_uot (target_of c request) rest
  unfolding session_round handle_uot_stream uot_sentinel_destination
  session_round-uot ctx now terminated_after s request rest a =
      rw
        (
          session_round,
          a,
          codec.retrieves (uot_sentinel_destination c) (bytes_of_request c request ++ rest),
          sentinel_any c codec 0,
          handle_uot_stream,
          get_request-bytes_of_request c codec request rest,
        )
        refl

  ordinary :
      (destination : c.Address)
      → c.domain destination ≢ some v2_magic_address
      → uot_is_sentinel_destination c destination ≡ false
  unfolding uot_is_sentinel_destination
  ordinary destination h = elim (Option-cases (c.domain destination)) [
    | inl e ↦ rw (uot_is_sentinel_destination, e) refl
    | inr (d, e) ↦ elim (Bool-cases (text_same d v2_magic_address)) [
      | inl same ↦ absurd (h (e ∙ ap (λ x. some x) ((text_same_iff d v2_magic_address).0 same)))
      | inr other ↦ rw (uot_is_sentinel_destination, e) other
    ]
  ]

  -- If the crate reads an address back from its wire form: an approved session whose client wrote an address whose domain is not that of UDP over TCP serves it with a relay of bytes to the address, and one whose client wrote the address of UDP over TCP and a request serves it with a relay of packets for that request; both on the bytes that follow.
  session_round-serves :
      (ctx : ConnCtx) (now : ℤ) (terminated_after : Bool) (s : ServerState)
      (destination : c.Address) (request : UotRequest c) (rest : Bytes)
      → approved now ctx s ≡ true
      → c.domain destination ≢ some v2_magic_address
      → (session_round c ctx now false terminated_after (c.write_to_buf destination ++ rest) s
          ≡ serves_tcp destination rest)
        × (session_round c ctx now false terminated_after
              (c.write_to_buf (uot_sentinel_destination c) ++ (bytes_of_request c request ++ rest))
              s
            ≡ serves_uot (target_of c request) rest)
  unfolding session_round handle_uot_stream uot_sentinel_destination
  session_round-serves ctx now terminated_after s destination request rest a d = (
    rw (session_round, a, codec.retrieves destination rest, ordinary destination d) refl,
    session_round-uot ctx now terminated_after s request rest a,
  )
