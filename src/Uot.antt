-- ===== src/Uot.antt =====
-- src/uot/mod.rs: UDP packets in a stream. The addresses and their wire form are those of the crate
-- socks5_impl, a parameter of the model. A reader is the bytes that it still has to give.
pub mod RoundTrip
use anytls_rs_legacy.Common.{
  ◌≤◌, ◌==◌, ◌+◌, ◌≡◌, ◌*◌, ℕ, ◌%◌, Bool, true, false, Option, none, some, List, [], ◌∷◌, ◌++◌,
  length, take, drop, ltb, if◌then◌else◌, Text, codes, text_same, IoError, io_error, invalid_data,
  invalid_input, unexpected_eof, numbered, Result, ok, err,
}
use anytls_rs_legacy.Common.Bytes.{Bytes, put_u16}

-- What the program uses of the crate, for the addresses that have a wire form: a domain has at most
-- 255 bytes there, which every address has that was read off a stream or from a socket. The wire form, reading an address off a stream, and the domain
-- of an address that is one.
pub record AddressCodec : Type 1 where
  pub Address : Type 0
  pub domain_address : Text → ℕ → Address
  pub domain : Address → Option Text
  pub write_to_buf : Address → Bytes
  pub retrieve : Bytes → Result (Address × Bytes)

-- An address is read off a stream that starts with its wire form, and the bytes behind it stay.
pub record IsCodec (c : AddressCodec) : Type 0 where
  pub retrieves :
      (a : c.Address) (rest : Bytes) → c.retrieve (c.write_to_buf a ++ rest) ≡ ok (a, rest)
  pub keeps_domain :
      (t : Text) (port : ℕ) → length t ≤ 255 → c.domain (c.domain_address t port) ≡ some t

abbrev pub v2_magic_address : Text
v2_magic_address = codes "sp.v2.udp-over-tcp.arpa"

pub data UotMode : Type 0 where
  datagram connected : UotMode

unfoldable pub mode_of_u8 : ℕ → Result UotMode
mode_of_u8 value =
    if value == 0
    then ok datagram
    else if value == 1
    then ok connected
    else err (record { kind = invalid_data; message = numbered "invalid UOT mode: " value })

unfoldable pub u8_of_mode : UotMode → ℕ
u8_of_mode datagram = 0
u8_of_mode connected = 1

abbrev pub early_eof : IoError
early_eof = io_error unexpected_eof "early eof"

unfoldable pub read_u8 : Bytes → Result (ℕ × Bytes)
read_u8 [] = err early_eof
read_u8 (b ∷ bs) = ok (b, bs)

unfoldable pub read_u16 : Bytes → Result (ℕ × Bytes)
read_u16 [] = err early_eof
read_u16 (b ∷ []) = err early_eof
read_u16 (b₁ ∷ b₀ ∷ bs) = ok (b₁ * 256 + b₀, bs)

unfoldable pub read_exact : ℕ → Bytes → Result (Bytes × Bytes)
read_exact n bs = if ltb (length bs) n then err early_eof else ok (take n bs, drop n bs)

-- The length and the data of a packet.
unfoldable pub get_payload : Bytes → Result (Bytes × Bytes)
get_payload bs = elim (read_u16 bs) [ err e ↦ err e | ok r ↦ read_exact r.0 r.1 ]

unfoldable pub put_payload : Bytes → Bytes
put_payload payload = put_u16 (length payload % 65536) ++ payload

module _ (c : AddressCodec) where
  pub record UotRequest : Type 0 where
    pub mode : UotMode
    pub destination : c.Address

  unfoldable pub bytes_of_request : UotRequest → Bytes
  bytes_of_request request = u8_of_mode request.mode ∷ c.write_to_buf request.destination

  unfoldable pub uot_sentinel_destination : c.Address
  uot_sentinel_destination = c.domain_address v2_magic_address 0

  unfoldable pub uot_is_sentinel_destination : c.Address → Bool
  uot_is_sentinel_destination address = elim (c.domain address) [
    | none ↦ false
    | some d ↦ text_same d v2_magic_address
  ]

  unfoldable pub uot_get_request_from_stream : Bytes → Result (UotRequest × Bytes)
  uot_get_request_from_stream reader = elim (read_u8 reader) [
    | err e ↦ err e
    | ok r ↦ elim (mode_of_u8 r.0) [
      | err e ↦ err e
      | ok mode ↦ elim (c.retrieve r.1) [
        | err e ↦ err e
        | ok s ↦ ok (record { mode = mode; destination = s.0 }, s.1)
      ]
    ]
  ]

  unfoldable pub encode_body : UotMode → Option c.Address → Bytes → Result Bytes
  encode_body datagram none payload =
      err (io_error invalid_input "Datagram mode requires a destination")
  encode_body datagram (some destination) payload =
      ok (c.write_to_buf destination ++ put_payload payload)
  encode_body connected (some destination) payload =
      err (io_error invalid_input "Connected mode does not allow a destination")
  encode_body connected none payload = ok (put_payload payload)

  unfoldable pub uot_encode_packet : UotMode → Option c.Address → Bytes → Result Bytes
  uot_encode_packet mode destination payload =
      if ltb 65535 (length payload)
      then err (io_error invalid_input "UOT packet too large")
      else encode_body mode destination payload

  unfoldable pub uot_get_packet_from_stream :
      UotMode → Bytes → Result ((Option c.Address × Bytes) × Bytes)
  uot_get_packet_from_stream datagram reader = elim (c.retrieve reader) [
    | err e ↦ err e
    | ok r ↦ elim (get_payload r.1) [ err e ↦ err e | ok s ↦ ok ((some r.0, s.0), s.1) ]
  ]
  uot_get_packet_from_stream connected reader = elim (get_payload reader) [
    | err e ↦ err e
    | ok s ↦ ok ((none, s.0), s.1)
  ]
