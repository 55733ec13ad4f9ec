-- ===== src/Url.antt =====
-- src/util/parse_url.rs: anytls URLs. The crates url, percent_encoding and uuid, the socket addresses of
-- the standard library and their crate socks5_impl are parameters. Where the source cuts a text at the
-- place of an ASCII character, the cut is `split_once`, `span_until` or `after_last`.
pub mod Parse
pub mod Print
pub mod Zone
use Prim.Native.String.{String}
use mathlib.Core.List.{flatten}
use anytls_rs_legacy.Common.{
  ℕ, ◌^◌, Bool, true, false, not, ◌&&◌, ◌||◌, Option, none, some, List, [], ◌∷◌, ◌++◌, ltb, leb,
  ◌==◌, if◌then◌else◌, Text, codes, text_same, Result, ok, err, IoError, io_error, invalid_input,
  other, ◌>>=◌,
}
use anytls_rs_legacy.Core.Text.{split_once, to_string, parse_uint}
use anytls_rs_legacy.Core.Text.Strict.{from_utf8, trim_front, trim_back, is_whitespace}
use anytls_rs_legacy.Core.Text.Search.{
  strip_prefix, contains_char, contains_text, span_until, after_last, replace_char,
}

-- `Address` of socks5_impl over the socket addresses `S`.
pub data Address (S : Type 0) : Type 0 where
  socket_address : S → Address S
  domain_address : Text → ℕ → Address S

-- What the parser asks of a parsed URL.
pub record ParsedUrl : Type 0 where
  pub scheme : Text
  pub host_str : Option Text
  pub url_port : Option ℕ
  pub username : Text
  pub url_password : Option Text
  pub url_query : Option Text
  pub url_fragment : Option Text

pub record Crates : Type 1 where
  pub Socket : Type 0
  pub parse_socket : Text → Option Socket
  pub show_socket : Socket → Text
  pub socket_host : Socket → Text
  pub socket_port : Socket → ℕ
  pub socket_is_ipv6 : Socket → Bool
  pub address_of : Text → ℕ → Address Socket
  pub percent_encode : (ℕ → Bool) → Text → Text
  pub percent_decode : Text → Text
  pub form_parse : Text → List (Text × Text)
  pub form_serialize : List (Text × Text) → Text
  pub parse_uuid : Text → Option ℕ
  pub show_uuid : ℕ → Text
  pub parse_url : Text → Result ParsedUrl

abbrev pub is_empty : Text → Bool
is_empty [] = true
is_empty (c ∷ cs) = false

-- The ends of the authority in a URL.
abbrev pub is_delimiter : ℕ → Bool
is_delimiter c = (c == b'/') || (c == b'?') || (c == b'#')

abbrev pub or_else : {A : Type 0} → Option A → A → A
or_else none a = a
or_else (some b) a = b

unfoldable pub is_anytls_ipv6_zone_url : Text → Bool
is_anytls_ipv6_zone_url raw_url =
    let raw = or_else (strip_prefix (codes "anytls://") raw_url) raw_url in
    let auth_and_host = after_last b'@' (span_until is_delimiter raw).0 in
    elim (split_once b'[' auth_and_host) [
      | none ↦ false
      | some (_, inside) ↦ elim (split_once b']' inside) [
        | none ↦ false
        | some (host, _) ↦ contains_char b'%' host
      ]
    ]

-- A control character, or one of those that a set adds. Bytes beyond ASCII are encoded always.
abbrev is_control : ℕ → Bool
is_control c = ltb c 32 || (c == 127)

unfoldable pub userinfo_encode_set : ℕ → Bool
userinfo_encode_set c =
    is_control c
    || contains_char c (
        b' ' ∷ b'"' ∷ b'#' ∷ b'<' ∷ b'>' ∷ b'?' ∷ b'@' ∷ b'[' ∷ b'\\' ∷ b']' ∷ b'^' ∷ b'`' ∷ b'{'
        ∷ b'|' ∷ b'}' ∷ [])

unfoldable pub fragment_encode_set : ℕ → Bool
fragment_encode_set c = is_control c || contains_char c (b' ' ∷ b'"' ∷ b'<' ∷ b'>' ∷ b'`' ∷ [])

unfoldable pub trim : Text → Text
trim t = elim (from_utf8 t) [
  | none ↦ t
  | some chars ↦ flatten (trim_back is_whitespace (trim_front is_whitespace chars))
]

pub record ClientRuntimeConfig (S : Type 0) : Type 0 where
  pub server : Address S
  pub password : Text
  pub sni : Option Text
  pub client_id : Option ℕ
  pub insecure : Bool
  pub display_name : Option Text

-- The parser of a URL with a zone can panic at a slice.
pub data Parsed (A : Type 0) : Type 0 where
  returns : Result A → Parsed A
  panics : Parsed A

abbrev pub invalid : String → IoError
invalid message = io_error invalid_input message

-- The part before the first character, where there is one.
unfoldable pub before_first : ℕ → Text → Text
before_first c t = elim (split_once c t) [ none ↦ t | some (front, _) ↦ front ]

-- The user's name, or the password where the name is empty.
unfoldable pub password_of_userinfo : Text → Text
password_of_userinfo userinfo = elim (split_once b':' userinfo) [
  | none ↦ userinfo
  | some (username, rest) ↦ if is_empty username then rest else username
]

unfoldable pub query_of_rest : Text → Text
query_of_rest rest = elim (split_once b'?' rest) [
  | none ↦ []
  | some (_, query_fragment) ↦ before_first b'#' query_fragment
]

abbrev pub in_brackets : Text → Text
in_brackets host = b'[' ∷ (host ++ b']' ∷ [])
