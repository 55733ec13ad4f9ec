-- ===== src/Url/Print.antt =====
-- src/util/parse_url.rs: a configuration written as a URL.
use anytls_rs_legacy.Common.{
  ℕ, Bool, false, ◌||◌, Option, none, some, List, [], ◌∷◌, ◌++◌, ◌==◌, if◌then◌else◌, Text, codes,
}
use anytls_rs_legacy.Core.Text.{to_string}
use anytls_rs_legacy.Core.Text.Search.{contains_char, replace_char}
use anytls_rs_legacy.Url.{
  Address, socket_address, domain_address, Crates, ClientRuntimeConfig, is_empty,
  userinfo_encode_set, fragment_encode_set, in_brackets,
}

module _ (k : Crates) where
  unfoldable pub host : Address k.Socket → Text
  host (socket_address s) = k.socket_host s
  host (domain_address name port) = name

  unfoldable pub port : Address k.Socket → ℕ
  port (socket_address s) = k.socket_port s
  port (domain_address name n) = n

  unfoldable pub is_ipv6 : Address k.Socket → Bool
  is_ipv6 (socket_address s) = k.socket_is_ipv6 s
  is_ipv6 (domain_address name n) = false

  unfoldable pub format_authority : Address k.Socket → Text
  format_authority (socket_address s) = k.show_socket s
  format_authority (domain_address name n) =
      if contains_char b':' name
      then in_brackets name ++ (b':' ∷ to_string n)
      else name ++ (b':' ∷ to_string n)

  unfoldable pub authority_of : ClientRuntimeConfig k.Socket → Text
  authority_of config =
      let plain = host config.server in
      let escaped =
        if contains_char b'%' plain then replace_char b'%' (codes "%25") plain else plain in
      let shown =
        if is_ipv6 config.server || contains_char b':' escaped
        then in_brackets escaped
        else escaped in
      if port config.server == 443 then shown else shown ++ (b':' ∷ to_string (port config.server))

  abbrev pub pair_if : {A : Type 0} → Option A → Text → (A → Text) → List (Text × Text)
  pair_if none key show = []
  pair_if (some a) key show = (key, show a) ∷ []

  unfoldable pub query_pairs : ClientRuntimeConfig k.Socket → List (Text × Text)
  query_pairs config =
      pair_if config.sni (codes "sni") (λ t. t)
      ++ (if config.insecure then (codes "insecure", codes "1") ∷ [] else [])
      ++ pair_if config.client_id (codes "client_id") k.show_uuid

  unfoldable pub userinfo_part : ClientRuntimeConfig k.Socket → Text
  userinfo_part config =
      if is_empty config.password
      then []
      else k.percent_encode userinfo_encode_set config.password ++ (b'@' ∷ [])

  unfoldable pub query_part : ClientRuntimeConfig k.Socket → Text
  query_part config =
      let query = k.form_serialize (query_pairs config) in
      if is_empty query then [] else codes "/?" ++ query

  unfoldable pub fragment_part : ClientRuntimeConfig k.Socket → Text
  fragment_part config = elim config.display_name [
    | none ↦ []
    | some name ↦ b'#' ∷ k.percent_encode fragment_encode_set name
  ]

  unfoldable pub string_of_config : ClientRuntimeConfig k.Socket → Text
  string_of_config config =
      codes "anytls://"
      ++ userinfo_part config
      ++ authority_of config
      ++ query_part config
      ++ fragment_part config
