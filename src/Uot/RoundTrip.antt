-- ===== src/Uot/RoundTrip.antt =====
-- src/uot/mod.rs: what one end puts into a stream, the other end takes out of it.
use anytls_rs_legacy.Common.{
  ℕ, ◌<◌, ◌≡◌, refl, ◌∙◌, sym, ◌↔◌, inl, inr, true, Option, none, some, ◌++◌, arith, length, ltb,
  append_assoc, take-append, drop-append, length-append, Bool-cases, text_same_iff, Result, ok, err,
}
use anytls_rs_legacy.Common.Bytes.{Bytes}
use anytls_rs_legacy.Uot.{
  AddressCodec, IsCodec, UotMode, datagram, connected, mode_of_u8, u8_of_mode, read_u8, read_u16,
  read_exact, get_payload, put_payload, UotRequest, bytes_of_request, uot_is_sentinel_destination,
  uot_get_request_from_stream, encode_body, uot_encode_packet, uot_get_packet_from_stream,
  v2_magic_address,
}

get-put_payload :
    (payload rest : Bytes)
    → length payload < 65536
    → get_payload (put_payload payload ++ rest) ≡ ok (payload, rest)
unfolding get_payload put_payload read_u16 read_exact
get-put_payload payload rest h =
    ground (arith, take-append payload rest, drop-append payload rest, length-append payload rest)

mode_of_u8-u8_of_mode : (mode : UotMode) → mode_of_u8 (u8_of_mode mode) ≡ ok mode
unfolding mode_of_u8 u8_of_mode
mode_of_u8-u8_of_mode datagram = refl
mode_of_u8-u8_of_mode connected = refl

module _ (c : AddressCodec) (codec : IsCodec c) where
  -- A packet that was encoded is read back with its destination, and the bytes behind it stay, if
  -- the crate reads an address back from its wire form.
  pub get-encode_packet :
      (mode : UotMode) (destination : Option c.Address) (payload bytes rest : Bytes)
      → uot_encode_packet c mode destination payload ≡ ok bytes
      → uot_get_packet_from_stream c mode (bytes ++ rest) ≡ ok ((destination, payload), rest)
  unfolding uot_encode_packet encode_body uot_get_packet_from_stream
  get-encode_packet datagram none payload bytes rest e = absurd (ground arith)
  get-encode_packet datagram (some a) payload bytes rest e =
      elim (Bool-cases (ltb 65535 (length payload))) [
        | inl big ↦ absurd (ground arith)
        | inr small ↦
            let whole : c.write_to_buf a ++ (put_payload payload ++ rest) ≡ bytes ++ rest =
              sym (append_assoc (c.write_to_buf a) (put_payload payload) rest) ∙ ground arith in
            let fits : length payload < 65536 = ground arith in
            ground (
              arith,
              whole,
              codec.retrieves a (put_payload payload ++ rest),
              get-put_payload payload rest fits,
            )
      ]
  get-encode_packet connected (some a) payload bytes rest e = absurd (ground arith)
  get-encode_packet connected none payload bytes rest e =
      elim (Bool-cases (ltb 65535 (length payload))) [
        | inl big ↦ absurd (ground arith)
        | inr small ↦
            let fits : length payload < 65536 = ground arith in
            ground (arith, get-put_payload payload rest fits)
      ]

  abbrev IsFitting : UotMode → Option c.Address → Bytes → Type 0
  IsFitting datagram none payload = ⊥
  IsFitting datagram (some a) payload = length payload < 65536
  IsFitting connected (some a) payload = ⊥
  IsFitting connected none payload = length payload < 65536

  abbrev pub IsOk : Result Bytes → Type 0
  IsOk (ok bytes) = Unit {0}
  IsOk (err e) = ⊥

  -- A packet can be encoded exactly if its data has at most 65535 bytes and it has a destination in
  -- datagram mode, none in connected mode.
  encode_packet-IsFitting :
      (mode : UotMode) (destination : Option c.Address) (payload : Bytes)
      → IsOk (uot_encode_packet c mode destination payload) ↔ IsFitting mode destination payload
  unfolding uot_encode_packet encode_body
  encode_packet-IsFitting datagram none payload = ground arith
  encode_packet-IsFitting datagram (some a) payload = ground arith
  encode_packet-IsFitting connected none payload = ground arith
  encode_packet-IsFitting connected (some a) payload = ground arith

  -- A request is read back, and the bytes behind it stay, if the crate reads an address back from
  -- its wire form.
  pub get_request-bytes_of_request :
      (request : UotRequest c) (rest : Bytes)
      → uot_get_request_from_stream c (bytes_of_request c request ++ rest) ≡ ok (request, rest)
  unfolding uot_get_request_from_stream bytes_of_request read_u8
  get_request-bytes_of_request request rest =
      ground (arith, mode_of_u8-u8_of_mode request.mode, codec.retrieves request.destination rest)

  -- The destination that switches a stream to packets is known by its domain, whatever the port.
  pub sentinel_any :
      (port : ℕ) → uot_is_sentinel_destination c (c.domain_address v2_magic_address port) ≡ true
  unfolding uot_is_sentinel_destination
  sentinel_any port = ground (
    arith,
    codec.keeps_domain v2_magic_address port (omega arith),
    text_same_iff v2_magic_address v2_magic_address,
  )
