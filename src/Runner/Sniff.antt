-- ===== src/Runner/Sniff.antt =====
-- src/client_runner.rs, `handle_listener_stream`: what a local connection is taken for, by its first bytes.
pub mod Methods
use anytls_rs_legacy.Common.{
  ℕ, ◌+◌, ◌-◌, Bool, true, false, not, ◌&&◌, Option, none, some, List, [], ◌∷◌, ◌==◌, ltb, leb,
  if◌then◌else◌, take, length, map, Text, codes, text_same,
}
use anytls_rs_legacy.Core.Text.Strict.{from_utf8}

pub data Sniffed : Type 0 where
  closed socks5 socks4 http unknown panics : Sniffed

abbrev pub methods : List Text
methods =
    codes "CONNECT"
    ∷ codes "GET"
    ∷ codes "POST"
    ∷ codes "HEAD"
    ∷ codes "PUT"
    ∷ codes "OPTIONS"
    ∷ codes "DELETE"
    ∷ codes "TRACE"
    ∷ codes "PATCH"
    ∷ codes "LOCK"
    ∷ codes "UNLOCK"
    ∷ codes "PROPFIND"
    ∷ codes "MKCOL"
    ∷ codes "COPY"
    ∷ codes "MOVE"
    ∷ []

abbrev pub ascii_lowercase : ℕ → ℕ
ascii_lowercase c = if leb 65 c && leb c 90 then c + 32 else c

-- Whether a byte index is the start of a character, or the end.
unfoldable pub is_char_boundary : ℕ → List Text → Bool
is_char_boundary n [] = n == 0
is_char_boundary n (c ∷ cs) =
    let rest = is_char_boundary (n - length c) cs in
    if n == 0 then true else if ltb n (length c) then false else rest

-- Whether the byte at an index is a space.
unfoldable pub space_at : ℕ → Text → Bool
space_at n [] = false
space_at n (c ∷ cs) = let rest = space_at (n - 1) cs in if n == 0 then c == 32 else rest

-- One method: nothing if the slice of the text panics.
unfoldable pub fits_method : Text → List Text → Text → Option Bool
fits_method text chars method =
    if ltb (length text) (length method)
    then some false
    else if not (is_char_boundary (length method) chars)
    then none
    else some (
        text_same (map ascii_lowercase (take (length method) text)) (map ascii_lowercase method)
        && space_at (length method) text)

unfoldable pub any_method : List Text → Text → List Text → Option Bool
any_method [] text chars = some false
any_method (m ∷ ms) text chars = elim (fits_method text chars m) [
  | none ↦ none
  | some true ↦ some true
  | some false ↦ any_method ms text chars
]

unfoldable pub sniff_text : Text → Sniffed
sniff_text first = elim (from_utf8 first) [
  | none ↦ unknown
  | some chars ↦ elim (any_method methods first chars) [
    | none ↦ panics
    | some true ↦ http
    | some false ↦ unknown
  ]
]

-- By what `peek` gave, which is ten bytes at most, and may be fewer than the client has sent or will send.
unfoldable pub sniff : Text → Sniffed
sniff [] = closed
sniff (c ∷ cs) = if c == 0x05 then socks5 else if c == 0x04 then socks4 else sniff_text (c ∷ cs)
