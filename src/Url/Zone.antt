-- ===== src/Url/Zone.antt =====
-- src/util/parse_url.rs: what the round trip of a URL with a zone relies on.
pub mod Options
pub mod Parts
pub mod Hosts
pub mod RoundTrip
use anytls_rs_legacy.Common.{
  ℕ, ◌<◌, ◌≡◌, ◌≢◌, ◌^◌, Bool, true, false, Option, none, some, List, [], ◌∷◌, ◌++◌, Text, codes,
  All,
}
use anytls_rs_legacy.Core.Text.{to_string}
use anytls_rs_legacy.Core.Text.Utf8.{IsAscii}
use anytls_rs_legacy.Core.Text.Search.{contains_char, replace_char}
use anytls_rs_legacy.Url.{
  Address, domain_address, Crates, ClientRuntimeConfig, userinfo_encode_set, fragment_encode_set,
  in_brackets,
}

-- The documented behaviour of the crates, on ASCII texts.
pub record IsFaithful (k : Crates) : Type 0 where
  -- Only what is in the set is encoded, and only a `%` begins what is decoded.
  pub encode_plain :
      (set : ℕ → Bool) (t : Text)
      → All (λ c. (c < 128) × (set c ≡ false)) t
      → k.percent_encode set t ≡ t
  pub decode_plain : (t : Text) → All (λ c. (c < 128) × (c ≢ b'%')) t → k.percent_decode t ≡ t
  pub decode_percent :
      (t : Text) → IsAscii t → k.percent_decode (replace_char b'%' (codes "%25") t) ≡ t
  -- A query is read as it was written, and only of characters that end nothing.
  pub parse_serialize :
      (ps : List (Text × Text))
      → All (λ p. IsAscii p.0 × IsAscii p.1) ps
      → k.form_parse (k.form_serialize ps) ≡ ps
  pub serialize_nil : k.form_serialize [] ≡ []
  pub serialize_quiet :
      (ps : List (Text × Text)) → All (λ c. (c ≢ b'#') × (c ≢ b'@')) (k.form_serialize ps)
  pub parse_show : (id : ℕ) → id < 2 ^ 128 → k.parse_uuid (k.show_uuid id) ≡ some id
  pub show_ascii : (id : ℕ) → id < 2 ^ 128 → IsAscii (k.show_uuid id) × (k.show_uuid id ≢ [])

-- A character that ends no part of a URL.
abbrev pub IsQuiet : ℕ → Type 0
IsQuiet c = (c < 128) × (c ≢ b'/') × (c ≢ b'?') × (c ≢ b'#') × (c ≢ b'@') × (c ≢ b'[') × (c ≢ b']')

-- A character of a name that is shown as it is.
abbrev pub IsShown : ℕ → Type 0
IsShown c =
    (32 < c) × (c < 128) × (c ≢ b'?') × (c ≢ b'@') × (c ≢ b'%') × (fragment_encode_set c ≡ false)

abbrev pub AllGiven : {A : Type 0} → (A → Type 0) → Option A → Type 0
AllGiven P none = Unit
AllGiven P (some a) = P a

-- A server under a name with a zone, and texts that need no encoding.
pub record IsZoned (k : Crates) (c : ClientRuntimeConfig k.Socket) (name : Text) (n : ℕ)
    : Type 0 where
  pub is_server : c.server ≡ domain_address name n
  pub port_fits : n < 2 ^ 16
  pub name_quiet : All IsQuiet name
  pub has_zone : contains_char b'%' name ≡ true
  pub has_colon : contains_char b':' name ≡ true
  pub no_socket : k.parse_socket (in_brackets name ++ (b':' ∷ to_string n)) ≡ none
  pub password_quiet : All (λ x. IsQuiet x × (userinfo_encode_set x ≡ false)) c.password
  pub sni_ascii : AllGiven IsAscii c.sni
  pub id_fits : AllGiven (λ x. x < 2 ^ 128) c.client_id
  pub name_shown : AllGiven (λ t. All IsShown t × (t ≢ [])) c.display_name
