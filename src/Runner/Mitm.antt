-- ===== src/Runner/Mitm.antt =====
-- src/client_runner.rs, `connect_via_mitm_proxy`: a tunnel through an HTTP proxy. The connection gives its bytes in
-- chunks; a buffered reader reads the proxy's answer, and what it has buffered behind it is dropped.
pub mod Tunnel
use mathlib.Core.List.{flatten}
use anytls_rs_legacy.Common.{
  ℕ, zero, suc, ◌+◌, Bool, true, false, ◌||◌, Option, none, some, List, [], ◌∷◌, ◌++◌,
  if◌then◌else◌, length, Text, codes, text_same, Result, ok, err, IoError, io_error, invalid_data,
  other,
}
use anytls_rs_legacy.Common.Bytes.{Bytes}
use anytls_rs_legacy.Core.Text.{split_once}
use anytls_rs_legacy.Core.Text.Strict.{from_utf8}
use anytls_rs_legacy.Core.Text.Search.{strip_prefix, is_given}

-- The bytes in the buffer, and the chunks that the connection has still to give.
pub record Buffered : Type 0 where
  pub buffer : Bytes
  pub later : List Bytes

-- The bytes up to a line end, or up to the end of the connection.
unfoldable pub cut_line : Bytes → List Bytes → Text × Buffered
cut_line buf [] = elim (split_once 10 buf) [
  | none ↦ (buf, record { buffer = []; later = [] })
  | some (line, rest) ↦ (line ++ (10 ∷ []), record { buffer = rest; later = [] })
]
cut_line buf (chunk ∷ chunks) =
    let next = cut_line chunk chunks in
    elim (split_once 10 buf) [
      | none ↦ (buf ++ next.0, next.1)
      | some (line, rest) ↦ (line ++ (10 ∷ []), record { buffer = rest; later = chunk ∷ chunks })
    ]

unfoldable pub checked_line : Text × Buffered → Result (Text × Buffered)
checked_line (line, b) = elim (from_utf8 line) [
  | none ↦ err (io_error invalid_data "stream did not contain valid UTF-8")
  | some chars ↦ ok (line, b)
]

unfoldable pub read_line : Buffered → Result (Text × Buffered)
read_line b = checked_line (cut_line b.buffer b.later)

abbrev pub is_blank : Text → Bool
is_blank line = text_same line [] || (text_same line (13 ∷ 10 ∷ []) || text_same line (10 ∷ []))

-- A round takes a byte, so that the number of bytes is enough.
unfoldable pub skip_headers : ℕ → Buffered → Result Buffered
skip_headers zero b = ok b
skip_headers (suc fuel) b = elim (read_line b) [
  | err e ↦ err e
  | ok (line, next) ↦ elim (is_blank line) [ true ↦ ok next | false ↦ skip_headers fuel next ]
]

abbrev pub is_accepted : Text → Bool
is_accepted line =
    is_given (strip_prefix (codes "HTTP/1.1 200") line)
    || is_given (strip_prefix (codes "HTTP/1.0 200") line)

unfoldable pub connect_request : Text → Text
connect_request target_authority =
    codes "CONNECT "
    ++ target_authority
    ++ codes " HTTP/1.1\r\nHost: "
    ++ target_authority
    ++ codes "\r\nProxy-Connection: Keep-Alive\r\n\r\n"

-- Behind the status line: what the connection has still to give, without what was buffered.
unfoldable pub behind_status : ℕ → Text × Buffered → Result (List Bytes)
behind_status fuel (status_line, b) =
    if is_accepted status_line
    then elim (skip_headers fuel b) [ err e ↦ err e | ok c ↦ ok c.later ]
    else err (io_error other "HTTP proxy CONNECT failed")

unfoldable pub connect_via_mitm_proxy : List Bytes → Result (List Bytes)
connect_via_mitm_proxy chunks = elim (read_line (record { buffer = []; later = chunks })) [
  | err e ↦ err e
  | ok r ↦ behind_status (length (flatten chunks)) r
]
