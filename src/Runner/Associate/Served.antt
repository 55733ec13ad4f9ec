-- ===== src/Runner/Associate/Served.antt =====
-- src/client_runner.rs with bin/server.rs: the server serves what the client's relay of packets writes.
use anytls_rs_legacy.Common.{
  ℕ, ◌≡◌, ◌≢◌, refl, sym, ap, ◌∙◌, subst, Bool, true, false, Option, some, List, [], ◌∷◌, ◌++◌,
  ◌==◌, append_assoc, append-nil, arith, Result, ok, err, Bool-cases, inl, inr,
}
use anytls_rs_legacy.Common.Int.{ℤ}
use anytls_rs_legacy.Common.Bytes.{Bytes}
use anytls_rs_legacy.Uot.{
  AddressCodec, IsCodec, datagram, UotRequest, bytes_of_request, uot_sentinel_destination,
  uot_encode_packet, uot_get_packet_from_stream,
}
use anytls_rs_legacy.Uot.RoundTrip.{get-encode_packet}
use anytls_rs_legacy.Server.Connection.{ConnCtx, ServerState, approved}
use anytls_rs_legacy.Server.Packets.Relayed.{session_round-uot}
use anytls_rs_legacy.Server.Packets.{anywhere, serves_uot, session_round}
use anytls_rs_legacy.Server.Packets.Order.{Reads, reads_none, reads_more, get_packet-destined}
use anytls_rs_legacy.Runner.Associate.{
  Ending, runs, panicked, torn, tear, dropping, broke, returned, Local, Associate, opening,
  write_local, recv_local, send_local, deliver, recv_proxy, listener_closed, Branch, local, proxy,
  closes, associate_round, associate_loop, associate_start,
}

module _ (c : AddressCodec) (codec : IsCodec c) (Peer : Type 0) (port : Peer → ℕ)
    (unspecified : c.Address) where
  -- What was written is the opening and frames that are read back as the packets.
  abbrev Good : Associate c Peer port → Type 0
  Good r =
      ((frames : Bytes) × (r.written ≡ opening c Peer port unspecified ++ frames)
        × ((rest : Bytes) → Reads c datagram (frames ++ rest) r.received rest))
      × (r.ending ≢ panicked)

  ended :
      (x : Ending) (r : Associate c Peer port)
      → x ≢ panicked
      → Good r
      → Good (record r { ending = x })
  ended x r h g = (g.0, h)

  write_local-Good :
      (encoded : Result Bytes) (l : Local c Peer port) (writes : Result {0} Unit)
      (r : Associate c Peer port)
      → uot_encode_packet c datagram (some l.destination) l.pkt ≡ encoded
      → Good r
      → Good (write_local c Peer port encoded l writes r)
  unfolding write_local
  write_local-Good (err e) l writes r f g = ended (returned e) r (λ x. absurd (ground (arith, x))) g
  write_local-Good (ok frame) l (err e) r f g =
      ended (returned e) r (λ x. absurd (ground (arith, x))) g
  write_local-Good (ok frame) l (ok u) r f ((frames, e, reads), h) = (
    (
      frames ++ frame,
      ap (λ x. x ++ frame) e ∙ append_assoc (opening c Peer port unspecified) frames frame,
      λ rest.
          subst (λ x. Reads c datagram x (r.received ++ ((some l.destination, l.pkt) ∷ [])) rest)
            (sym (append_assoc frames frame rest))
            (reads_more (reads (frame ++ rest))
              (get-encode_packet c codec datagram (some l.destination) l.pkt frame rest f)),
    ),
    h,
  )

  send_local-Good :
      (a : c.Address) (payload : Bytes) (sends : Result {0} Unit) (r : Associate c Peer port)
      → Good r
      → Good (send_local c Peer port (some a) payload sends r)
  unfolding send_local
  send_local-Good a payload (err e) r g = ended (returned e) r (λ x. absurd (ground (arith, x))) g
  send_local-Good a payload (ok u) r g = g

  deliver-Good :
      (got : Result ((Option c.Address × Bytes) × Bytes)) (sends : Result {0} Unit)
      (r : Associate c Peer port)
      → uot_get_packet_from_stream c datagram r.reader ≡ got
      → Good r
      → Good (deliver c Peer port got sends r)
  unfolding deliver
  deliver-Good (err e) sends r f g = ended (returned e) r (λ x. absurd (ground (arith, x))) g
  deliver-Good (ok ((source, payload), rest)) sends r f g =
      elim (Bool-cases (port r.incoming_addr == 0)) [
        | inl e ↦ rw e g
        | inr e ↦ rw e (
            let (a, d) = get_packet-destined c anywhere r.reader rest payload source f in
            subst (λ o. Good (send_local c Peer port o payload sends (record r { reader = rest })))
              (sym d) (send_local-Good a payload sends (record r { reader = rest }) g))
      ]

  tear-panicked : (x : Ending) → x ≢ panicked → tear x ≢ panicked
  tear-panicked runs h e = absurd (ground (arith, e))
  tear-panicked panicked h e = h e
  tear-panicked torn h e = absurd (ground (arith, e))
  tear-panicked (broke result) h e = absurd (ground (arith, e))
  tear-panicked (returned x) h e = absurd (ground (arith, e))

  dropping-Good :
      (mid_packet : Bool) (r : Associate c Peer port)
      → Good r
      → Good (dropping c Peer port mid_packet r)
  unfolding dropping
  dropping-Good false r g = g
  dropping-Good true r g = (g.0, tear-panicked r.ending g.1)

  recv_local-Good :
      (got : Result (Local c Peer port)) (writes : Result {0} Unit) (r : Associate c Peer port)
      → Good r
      → Good (recv_local c Peer port got writes r)
  unfolding recv_local
  recv_local-Good (err e) writes r g = ended (returned e) r (λ x. absurd (ground (arith, x))) g
  recv_local-Good (ok l) writes r g = elim (Bool-cases (l.frag == 0)) [
    | inl e ↦ rw e (write_local-Good _ l writes (record r { incoming_addr = l.src_addr }) refl g)
    | inr e ↦ rw e (ended _ r (λ x. absurd (ground (arith, x))) g)
  ]

  listener_closed-Good :
      (got : Result {0} Unit) (r : Associate c Peer port)
      → Good r
      → Good (listener_closed c Peer port got r)
  unfolding listener_closed
  listener_closed-Good (err e) r g = ended (returned e) r (λ x. absurd (ground (arith, x))) g
  listener_closed-Good (ok u) r g = ended (broke (ok tt)) r (λ x. absurd (ground (arith, x))) g

  round-Good :
      (b : Branch c Peer port) (r : Associate c Peer port)
      → Good r
      → Good (associate_round c Peer port b r)
  unfolding associate_round recv_proxy
  round-Good (local mid got writes) r g =
      dropping-Good mid (recv_local c Peer port got writes r) (recv_local-Good got writes r g)
  round-Good (proxy sends) r g = deliver-Good _ sends r refl g
  round-Good (closes mid got) r g =
      dropping-Good mid (listener_closed c Peer port got r) (listener_closed-Good got r g)

  one_round :
      (x : Ending) (r next : Associate c Peer port)
      → Good r
      → Good next
      → Good (elim x [ runs ↦ next | panicked ↦ r | broke result ↦ r | returned e ↦ r | torn ↦ r ])
  one_round runs r next g f = f
  one_round panicked r next g f = g
  one_round torn r next g f = g
  one_round (broke result) r next g f = g
  one_round (returned e) r next g f = g

  loop-Good :
      (bs : List (Branch c Peer port)) (r : Associate c Peer port)
      → Good r
      → Good (associate_loop c Peer port bs r)
  unfolding associate_loop
  loop-Good [] r g = g
  loop-Good (b ∷ bs) r g =
      one_round r.ending r (associate_loop c Peer port bs (associate_round c Peer port b r)) g
        (loop-Good bs (associate_round c Peer port b r) (round-Good b r g))

  opening-served :
      (ctx : ConnCtx) (now : ℤ) (terminated_after : Bool) (s : ServerState) (frames rest : Bytes)
      → approved now ctx s ≡ true
      → session_round c ctx now false terminated_after
          ((opening c Peer port unspecified ++ frames) ++ rest)
          s
        ≡ serves_uot anywhere (frames ++ rest)
  unfolding opening
  opening-served ctx now terminated_after s frames rest a =
      let address = c.write_to_buf (uot_sentinel_destination c) in
      let request : UotRequest c = record { mode = datagram; destination = unspecified } in
      ap (λ x. session_round c ctx now false terminated_after x s)
        (append_assoc (address ++ bytes_of_request c request) frames rest
          ∙ append_assoc address (bytes_of_request c request) (frames ++ rest))
      ∙ session_round-uot c codec ctx now terminated_after s request (frames ++ rest) a

  -- Whatever the rounds of the client's relay of packets bring, up to and with the first one that drops a read of a packet which had taken bytes, the server, on an approved connection, takes what the client wrote for a relay of packets to anywhere, and reads from it the packets of the local client that were written, in order, with their destinations, if the crate reads an address back from its wire form; and the relay does not panic.
  pub associate_loop-served :
      (bs : List (Branch c Peer port)) (unknown : Peer) (reader rest : Bytes)
      (r : Associate c Peer port) (ctx : ConnCtx) (now : ℤ) (terminated_after : Bool)
      (s : ServerState)
      → r ≡ associate_loop c Peer port bs (associate_start c Peer port unspecified unknown reader)
      → approved now ctx s ≡ true
      → ((frames : Bytes) × (session_round c ctx now false terminated_after (r.written ++ rest) s
            ≡ serves_uot anywhere (frames ++ rest))
          × Reads c datagram (frames ++ rest) r.received rest)
        × (r.ending ≢ panicked)
  associate_loop-served bs unknown reader rest r ctx now terminated_after s e a =
      let begun : Good (associate_start c Peer port unspecified unknown reader) = (
        ([], sym (append-nil (opening c Peer port unspecified)), λ x. reads_none),
        λ x. absurd (ground (arith, x)),
      ) in
      let ((frames, w, reads), h) =
        subst Good (sym e)
          (loop-Good bs (associate_start c Peer port unspecified unknown reader) begun) in
      (
        (
          frames,
          ap (λ x. session_round c ctx now false terminated_after (x ++ rest) s) w
              ∙ opening-served ctx now terminated_after s frames rest a,
          reads rest,
        ),
        h,
      )
