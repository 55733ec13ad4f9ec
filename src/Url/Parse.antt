-- ===== src/Url/Parse.antt =====
-- src/util/parse_url.rs: a URL read as a configuration.
use anytls_rs_legacy.Common.{
  ℕ, ◌^◌, Bool, true, false, not, Option, none, some, List, [], ◌∷◌, ◌++◌, ◌==◌, if◌then◌else◌,
  Text, codes, text_same, Result, ok, err, io_error, other, ◌>>=◌,
}
use anytls_rs_legacy.Core.Text.{split_once, to_string, parse_uint}
use anytls_rs_legacy.Core.Text.Search.{strip_prefix, contains_char, contains_text, span_until}
use anytls_rs_legacy.Url.{
  Address, socket_address, domain_address, Crates, ParsedUrl, ClientRuntimeConfig, Parsed, returns,
  panics, is_empty, is_delimiter, is_anytls_ipv6_zone_url, or_else, invalid, password_of_userinfo,
  query_of_rest, in_brackets, trim,
}

-- What the loop over the query has found.
pub record Found : Type 0 where
  pub found_sni : Option Text
  pub found_insecure : Bool
  pub found_client_id : Option ℕ

abbrev pub nothing_found : Found
nothing_found = record { found_sni = none; found_insecure = false; found_client_id = none }

abbrev push_kept : ℕ → Option Text → Option Text
push_kept c none = none
push_kept c (some t) = some (c ∷ t)

-- `strip_suffix` of one character.
unfoldable pub strip_end : ℕ → Text → Option Text
strip_end c [] = none
strip_end c (x ∷ []) = if x == c then some [] else none
strip_end c (x ∷ y ∷ ys) = push_kept x (strip_end c (y ∷ ys))

module _ (k : Crates) where
  unfoldable pub take_pair : Text × Text → Found → Result Found
  take_pair (key, value) f =
      if text_same key (codes "password")
      then err (invalid "Password must be provided in the URI auth field, not in query parameters")
      else if text_same key (codes "sni")
      then ok (record f { found_sni = some value })
      else if text_same key (codes "insecure")
      then (if text_same value (codes "1")
          then ok (record f { found_insecure = true })
          else if text_same value (codes "0")
          then ok (record f { found_insecure = false })
          else err (invalid "Invalid insecure value in AnyTLS URL"))
      else if text_same key (codes "client_id")
      then (if is_empty value then ok f else elim (k.parse_uuid value) [
        | none ↦ err (io_error other "uuid")
        | some id ↦ ok (record f { found_client_id = some id })
      ])
      else ok f

  unfoldable pub take_pairs : List (Text × Text) → Found → Result Found
  take_pairs [] f = ok f
  take_pairs (p ∷ ps) f = take_pair p f >>= take_pairs ps

  abbrev pub unless_empty : Text → Option Text
  unless_empty [] = none
  unless_empty (c ∷ cs) = some (c ∷ cs)

  unfoldable pub display_name_of : Option Text → Option Text
  display_name_of none = none
  display_name_of (some fragment) = unless_empty (k.percent_decode fragment)

  unfoldable pub build_client_runtime_config :
      Address k.Socket → Text → Text → Option Text → Result (ClientRuntimeConfig k.Socket)
  build_client_runtime_config server password query fragment =
      take_pairs (k.form_parse query) nothing_found >>= (λ f. ok (record {
        server = server;
        password = password;
        sni = f.found_sni;
        client_id = f.found_client_id;
        insecure = f.found_insecure;
        display_name = display_name_of fragment;
      }))

  -- A socket address if the text in brackets is one, or a name.
  unfoldable pub server_of_brackets : Text → ℕ → Address k.Socket
  server_of_brackets host port =
      elim (k.parse_socket (in_brackets host ++ (b':' ∷ to_string port))) [
        | some s ↦ socket_address s
        | none ↦ domain_address host port
      ]

  -- The port behind the host, and what follows it.
  unfoldable pub port_and_rest : Text → Result (ℕ × Text)
  port_and_rest after = elim (strip_prefix (b':' ∷ []) after) [
    | none ↦ ok (443, after)
    | some after_colon ↦
        let (port_text, rest) = span_until is_delimiter after_colon in
        elim (parse_uint (2 ^ 16) port_text) [
          | none ↦ err (invalid "Invalid port in AnyTLS URL")
          | some port ↦ ok (port, rest)
        ]
  ]

  unfoldable pub decoded_host : Text → Text
  decoded_host host = if contains_text (codes "%25") host then k.percent_decode host else host

  -- The name behind the first `#`, trimmed and decoded.
  unfoldable pub zone_display_name : Text → Option Text
  zone_display_name rest = elim (split_once b'#' rest) [
    | none ↦ none
    | some (_, fragment) ↦ elim (trim fragment) [
      | [] ↦ none
      | c ∷ cs ↦ some (k.percent_decode (c ∷ cs))
    ]
  ]

  -- The parser behind the host in brackets.
  unfoldable pub parse_behind_host : Text → Text → Text → Result (ClientRuntimeConfig k.Socket)
  parse_behind_host userinfo host after = port_and_rest after >>= (λ (port, rest).
      build_client_runtime_config (server_of_brackets (decoded_host host) port)
        (password_of_userinfo userinfo) (query_of_rest rest) (zone_display_name rest))

  -- `[` is found first, then `]` from the start: where `]` stands before `[`, the slice panics.
  unfoldable pub parse_authority : Text → Text → Parsed (ClientRuntimeConfig k.Socket)
  parse_authority userinfo text = elim (split_once b'[' text) [
    | none ↦ returns (err (invalid "AnyTLS URL must include a host"))
    | some (before, inside) ↦
        if contains_char b']' before then panics else elim (split_once b']' inside) [
          | none ↦ returns (err (invalid "Invalid IPv6 host in AnyTLS URL"))
          | some (host, after) ↦ returns (parse_behind_host userinfo host after)
        ]
  ]

  unfoldable pub parse_anytls_url_ipv6_zone : Text → Parsed (ClientRuntimeConfig k.Socket)
  parse_anytls_url_ipv6_zone raw_url = elim (strip_prefix (codes "anytls://") raw_url) [
    | none ↦ returns (err (invalid "URL scheme must be anytls"))
    | some without_scheme ↦ elim (split_once b'@' without_scheme) [
      | none ↦ parse_authority [] without_scheme
      | some (userinfo, text) ↦ parse_authority userinfo text
    ]
  ]

  -- The host without its brackets, where it has both.
  unfoldable pub strip_brackets : Text → Text
  strip_brackets host = elim (strip_prefix (b'[' ∷ []) host) [
    | none ↦ host
    | some inside ↦ elim (strip_end b']' inside) [ none ↦ host | some inner ↦ inner ]
  ]

  unfoldable pub parse_plain_url : ParsedUrl → Result (ClientRuntimeConfig k.Socket)
  parse_plain_url url =
      if not (text_same url.scheme (codes "anytls"))
      then err (invalid "URL scheme must be anytls")
      else elim url.host_str [
        | none ↦ err (invalid "AnyTLS URL must include a host")
        | some name ↦
            let host = strip_brackets name in
            let port = or_else url.url_port 443 in
            let server =
              if contains_char b':' host
              then server_of_brackets host port
              else k.address_of host port in
            let password =
              if is_empty url.username then or_else url.url_password [] else url.username in
            build_client_runtime_config server password (or_else url.url_query []) url.url_fragment
      ]

  unfoldable pub parse_anytls_url : Text → Parsed (ClientRuntimeConfig k.Socket)
  parse_anytls_url raw_url =
      if is_anytls_ipv6_zone_url raw_url
      then parse_anytls_url_ipv6_zone raw_url
      else returns (k.parse_url raw_url >>= parse_plain_url)
