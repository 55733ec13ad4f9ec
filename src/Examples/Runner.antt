-- ===== src/Examples/Runner.antt =====
-- The theorems on the client's front end at concrete inputs.
use anytls_rs_legacy.Common.{
  Text, All, drop, text_same, ℕ, ◌≡◌, ◌≢◌, refl, true, false, none, [], ◌∷◌, ◌++◌, List, codes,
  if◌then◌else◌, take, arith, ok,
}
use anytls_rs_legacy.Common.Int.{pos}
use anytls_rs_legacy.Common.Bytes.{Bytes}
use anytls_rs_legacy.Core.Text.{lead}
use anytls_rs_legacy.Core.Text.Strict.{from_utf8}
use anytls_rs_legacy.Uot.{datagram}
use anytls_rs_legacy.Server.Connection.{
  ConnCtx, ServerState, shared_password, approved, check_incoming_client_approved,
}
use anytls_rs_legacy.Server.Packets.{anywhere, serves_uot, session_round}
use anytls_rs_legacy.Server.Packets.Order.{Reads}
use anytls_rs_legacy.Runner.Sniff.{
  sniff, sniff_text, any_method, fits_method, is_char_boundary, methods, http, unknown, panics,
}
use anytls_rs_legacy.Runner.Sniff.Methods.{sniff-ascii, begins_any}
use anytls_rs_legacy.Runner.Associate.{
  panicked, Associate, Branch, local, proxy, closes, associate_loop, associate_start,
}
use anytls_rs_legacy.Runner.Associate.Served.{associate_loop-served}
use mathlib.Core.List.{flatten}
use anytls_rs_legacy.Core.Text.Search.{strip_prefix}
use anytls_rs_legacy.Runner.Mitm.{Buffered, connect_via_mitm_proxy, connect_request, is_accepted}
use anytls_rs_legacy.Runner.Mitm.Tunnel.{
  IsReached, connect_via_mitm_proxy-behind, IsHeader, header_bytes,
}
use anytls_rs_legacy.Examples.Packets.{codec, codec-IsCodec, dns}

sniff-ascii_example :
    sniff (codes "get / HTTP") ≡ (if begins_any methods (codes "get / HTTP") then http else unknown)
sniff-ascii_example =
    sniff-ascii b'g' (codes "et / HTTP") (ground arith) (ground arith) (ground arith)

-- Two letters and a character of two bytes: the slice for `GET` cuts the character.
cut_character : sniff (97 ∷ 97 ∷ 195 ∷ 169 ∷ []) ≡ panics
unfolding sniff sniff_text any_method fits_method is_char_boundary from_utf8 lead
cut_character = refl

abbrev anyone : ConnCtx
anyone = record { user = none; client_id = none; panel_sync = false }

abbrev open_server : ServerState
open_server = record { authenticator = shared_password []; audit = [] }

abbrev brought : List (Branch codec ℕ (λ p. p))
brought =
    local false (ok (record { pkt = 8 ∷ 9 ∷ []; frag = 0; destination = dns; src_addr = 4000 }))
      (ok tt)
    ∷ proxy (ok tt)
    ∷ closes true (ok tt)
    ∷ []

abbrev associated : Associate codec ℕ (λ p. p)
associated =
    associate_loop codec ℕ (λ p. p) brought
      (associate_start codec ℕ (λ p. p) (0, []) 0 (53 ∷ 3 ∷ (codes "a.b" ++ (0 ∷ 1 ∷ 5 ∷ []))))

everyone_approved : approved (pos 1) anyone open_server ≡ true
unfolding approved check_incoming_client_approved
everyone_approved = refl

associate_loop-served_example :
    ((frames : Bytes) × (session_round codec anyone
          (pos 1)
          false
          false
          (associated.written ++ [])
          open_server
        ≡ serves_uot anywhere (frames ++ []))
      × Reads codec datagram (frames ++ []) associated.received [])
    × (associated.ending ≢ panicked)
associate_loop-served_example =
    associate_loop-served codec codec-IsCodec ℕ (λ p. p) (0, []) brought 0
      (53 ∷ 3 ∷ (codes "a.b" ++ (0 ∷ 1 ∷ 5 ∷ []))) [] associated anyone (pos 1) false open_server
      refl everyone_approved

-- The answer of a proxy in three chunks: the first two bytes behind it come with its end.
abbrev status : Text
status = codes "HTTP/1.1 200 OK" ++ (13 ∷ [])

abbrev headers : List Text
headers = (codes "Via: x" ++ (13 ∷ [])) ∷ []

abbrev answered : List Bytes
answered =
    (status ++ (10 ∷ codes "Via:"))
    ∷ (codes " x" ++ (13 ∷ 10 ∷ 13 ∷ 10 ∷ 1 ∷ 2 ∷ []))
    ∷ (3 ∷ 4 ∷ [])
    ∷ []

answered-flatten :
    flatten answered ≡ status ++ (10 ∷ (header_bytes headers ++ (13 ∷ 10 ∷ 1 ∷ 2 ∷ 3 ∷ 4 ∷ [])))
unfolding flatten header_bytes
answered-flatten = refl

status-IsHeader : IsHeader status
unfolding text_same
status-IsHeader = (ground arith, ground arith, refl)

headers-IsHeader : All IsHeader headers
unfolding text_same
headers-IsHeader = ((ground arith, ground arith, refl), tt)

accepted : is_accepted (status ++ (10 ∷ [])) ≡ true
unfolding strip_prefix
accepted = refl

connect_via_mitm_proxy-behind_example :
    (b : Buffered) × (connect_via_mitm_proxy answered ≡ ok b.later)
    × (b.buffer ++ flatten b.later ≡ 1 ∷ 2 ∷ 3 ∷ 4 ∷ [])
    × IsReached answered b
connect_via_mitm_proxy-behind_example =
    connect_via_mitm_proxy-behind answered status headers (1 ∷ 2 ∷ 3 ∷ 4 ∷ []) answered-flatten
      status-IsHeader accepted headers-IsHeader

request_of_a : take 5 (drop 9 (connect_request (codes "a"))) ≡ codes " HTTP"
unfolding connect_request
request_of_a = refl

request_end : drop 52 (connect_request (codes "a")) ≡ codes "Alive" ++ (13 ∷ 10 ∷ 13 ∷ 10 ∷ [])
unfolding connect_request
request_end = refl
