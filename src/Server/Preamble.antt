-- ===== src/Server/Preamble.antt =====
-- The first bytes of a connection: src/client_runner.rs, `dail_out_callback`, writes them, and
-- bin/server.rs, `handle_connection`, reads them. A client identifier is a number; its text and the
-- reading of it (crate uuid) are parameters.
pub mod Reading
pub mod ClientId
use mathlib.Core.List.{flatten}
use anytls_rs_legacy.Common.{
  ℕ, zero, suc, ◌+◌, ◌-◌, ◌%◌, ◌^◌, max, Bool, true, false, not, ◌||◌, Option, none, some, List, [],
  ◌∷◌, ◌++◌, ltb, leb, ◌==◌, if◌then◌else◌, take, drop, replicate, length, Text, Result, ok, err,
  io_error, unexpected_eof,
}
use anytls_rs_legacy.Common.Int.{ℤ, pos, negsuc}
use anytls_rs_legacy.Common.Bytes.{Bytes, put_u16, get_u16}
use anytls_rs_legacy.Core.Text.Strict.{from_utf8, trim_front, trim_back, is_whitespace}

-- `z as u16`.
abbrev pub as_u16 : ℤ → ℕ
as_u16 (pos n) = n % 2 ^ 16
as_u16 (negsuc n) = 2 ^ 16 - 1 - n % 2 ^ 16

abbrev pub first_size : List ℤ → ℕ
first_size [] = 0
first_size (z ∷ zs) = as_u16 z

abbrev pub is_empty_bytes : Bytes → Bool
is_empty_bytes [] = true
is_empty_bytes (b ∷ bs) = false

-- The length of the padding, for the sizes of packet 0 and the text of the client's identifier.
unfoldable pub padding_len : List ℤ → Bytes → ℕ
padding_len sizes id_bytes =
    let n = first_size sizes in
    if is_empty_bytes id_bytes then n else max n (length id_bytes % 2 ^ 16)

unfoldable pub auth_data : Bytes → List ℤ → Bytes → Bytes
auth_data password_sha256 sizes id_bytes =
    let n = padding_len sizes id_bytes in
    password_sha256 ++ put_u16 n ++ id_bytes ++ replicate (n - length id_bytes) 0

-- The bytes that the TLS layer still gives, in the pieces of its reads. The end is the empty list.
abbrev pub Incoming : Type 0
Incoming = List Bytes

-- A read into a buffer of `n` free bytes; a read that fails, by which `handle_connection` is left, is not modelled.
unfoldable pub read_some : ℕ → Incoming → Bytes × Incoming
read_some n [] = ([], [])
read_some n ([] ∷ cs) = read_some n cs
read_some n ((b ∷ bs) ∷ cs) = (take n (b ∷ bs), drop n (b ∷ bs) ∷ cs)

-- Reads until the buffer of `n` bytes is full or the bytes end. A read that is not at the end gives a
-- byte, so that `n` rounds are enough.
unfoldable pub fill : ℕ → ℕ → Incoming → Bytes × Incoming
fill zero n s = ([], s)
fill (suc fuel) n s =
    let (got, later) = read_some n s in
    let (more, last) = fill fuel (n - length got) later in
    if (n == 0) then ([], s) else if is_empty_bytes got then ([], later) else (got ++ more, last)

abbrev pub auth_size : ℕ
auth_size = 34

abbrev pub uuid_str_len : ℕ
uuid_str_len = 36

abbrev pub is_nul : Text → Bool
is_nul (b ∷ []) = b == 0
is_nul cs = false

module _ (parse_str : Text → Option ℕ) where
  unfoldable pub extract_client_id_from_padding : Bytes → Option ℕ
  extract_client_id_from_padding padding =
      if ltb (length padding) uuid_str_len
      then none
      else elim (from_utf8 (take uuid_str_len padding)) [
        | none ↦ none
        | some chars ↦
            let candidate =
              flatten
                (trim_back is_whitespace (trim_front is_whitespace (trim_back is_nul chars))) in
            if length candidate == uuid_str_len then parse_str candidate else none
      ]

  unfoldable pub read_padding : ℕ → Incoming → Result (Option ℕ × Incoming)
  read_padding n s =
      let (padding, later) = fill n n s in
      if n == 0
      then ok (none, s)
      else if ltb (length padding) n
      then err (io_error unexpected_eof "early eof")
      else ok (extract_client_id_from_padding padding, later)

  -- What `handle_connection` reads behind the 34 bytes `auth`.
  unfoldable pub read_client_id : Bytes → Incoming → Result (Option ℕ × Incoming)
  read_client_id auth s = read_padding (get_u16 (drop 32 auth)) s
