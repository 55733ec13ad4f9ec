-- ===== src/Url/Zone/RoundTrip.antt =====
-- src/util/parse_url.rs: a URL with a zone, read as it was written.
use anytls_rs_legacy.Common.{
  ℕ, ◌≡◌, ◌≢◌, refl, ◌∙◌, sym, ap, [], ◌∷◌, ◌++◌, ◌==◌, Text, codes, All, All-append, All-mono,
  arith, append_assoc, ok, Bool-cases, inl, inr,
}
use anytls_rs_legacy.Core.Text.{to_string}
use anytls_rs_legacy.Core.Text.Utf8.{IsAscii}
use anytls_rs_legacy.Url.{query_of_rest, Crates, ClientRuntimeConfig, returns, password_of_userinfo}
use anytls_rs_legacy.Url.Parse.{
  nothing_found, take_pairs, parse_anytls_url, parse_behind_host, server_of_brackets,
  build_client_runtime_config,
}
use anytls_rs_legacy.Url.Print.{
  is_ipv6, host, port, userinfo_part, authority_of, query_part, fragment_part, string_of_config,
  query_pairs,
}
use anytls_rs_legacy.Url.Zone.{IsFaithful, IsQuiet, IsShown, IsZoned}
use anytls_rs_legacy.Url.Zone.Parts.{
  escaped-contains, query_of_rest-part, escaped, escaped-IsQuiet, IsRest, port_part,
  port_and_rest-part, with_query,
}
use anytls_rs_legacy.Url.Zone.Options.{
  found_of, with_query-IsRest, All-with_query, All-name_part, fragment_part-shown,
  decoded_host-escaped, take_pairs-query_pairs, display_name-part, query_pairs-IsAscii,
  name_part-IsFragment, name_part,
}
use anytls_rs_legacy.Url.Zone.Hosts.{
  with_userinfo, host_part, host_part-plain, parse_authority-host_part, is_zone_url-with_userinfo,
  parse_zone-with_userinfo, userinfo_written,
}

module _ (k : Crates) (l : IsFaithful k) (c : ClientRuntimeConfig k.Socket) (name : Text) (n : ℕ)
    (z : IsZoned k c name n) where
  e-IsQuiet : All IsQuiet (escaped name)
  e-IsQuiet = escaped-IsQuiet name z.name_quiet

  ascii : IsAscii name
  ascii = All-mono (λ x g. g.0) name z.name_quiet

  abbrev query : Text
  query = k.form_serialize (query_pairs k c)

  abbrev behind : Text
  behind = with_query query (name_part c.display_name)

  authority_of-zoned : authority_of k c ≡ host_part (escaped name) n
  unfolding authority_of host port is_ipv6
  authority_of-zoned = elim (Bool-cases (n == 443)) [
    | inl e ↦
        rw (authority_of, z.is_server, z.has_zone, escaped-contains b':' name z.has_colon, e) refl
    | inr e ↦
        rw (authority_of, z.is_server, z.has_zone, escaped-contains b':' name z.has_colon, e)
          (append_assoc (b'[' ∷ escaped name) (b']' ∷ []) (b':' ∷ to_string n))
  ]

  tail_zoned :
      authority_of k c ++ (query_part k c ++ fragment_part k c)
      ≡ host_part (escaped name) n ++ behind
  unfolding query_part
  tail_zoned = rw (authority_of-zoned, fragment_part-shown k l c z.name_shown) refl

  regrouped : (u a q f : Text) → u ++ a ++ q ++ f ≡ u ++ (a ++ (q ++ f))
  regrouped u a q f = append_assoc (u ++ a) q f ∙ append_assoc u a (q ++ f)

  string_of_config-zoned :
      string_of_config k c
      ≡ codes "anytls://" ++ with_userinfo c.password (host_part (escaped name) n ++ behind)
  unfolding string_of_config userinfo_part
  string_of_config-zoned =
      ap (λ x. codes "anytls://" ++ x)
        (regrouped (userinfo_part k c) (authority_of k c) (query_part k c) (fragment_part k c)
          ∙ userinfo_written k l c.password
              (authority_of k c ++ (query_part k c ++ fragment_part k c)) z.password_quiet
          ∙ ap (λ x. with_userinfo c.password x) tail_zoned)

  quiet_query : All (λ x. (x ≢ b'#') × (x ≢ b'@')) query
  quiet_query = l.serialize_quiet (query_pairs k c)

  hash_free : All (λ x. x ≢ b'#') query
  hash_free = All-mono (λ x g. g.0) query quiet_query

  behind-IsRest : IsRest behind
  behind-IsRest = with_query-IsRest query c.display_name

  name_unmarked :
      (P : ℕ → Type 0) → P b'#' → ((x : ℕ) → IsShown x → P x) → All P (name_part c.display_name)
  name_unmarked P h f = All-name_part P h f c.display_name z.name_shown

  query_of_rest-zoned : query_of_rest behind ≡ query
  query_of_rest-zoned =
      query_of_rest-part query (name_part c.display_name) hash_free
        (name_unmarked (λ x. x ≢ b'?') (ground arith) (λ x g. g.2))
        (name_part-IsFragment c.display_name)

  taken : take_pairs k (k.form_parse (query_of_rest behind)) nothing_found ≡ ok (found_of k l c)
  taken =
      ap (λ x. take_pairs k (k.form_parse x) nothing_found) query_of_rest-zoned
      ∙ ap (λ x. take_pairs k x nothing_found)
          (l.parse_serialize (query_pairs k c) (query_pairs-IsAscii k l c z.sni_ascii z.id_fits))
      ∙ take_pairs-query_pairs k l c z.id_fits

  server_of_brackets-zoned : server_of_brackets k name n ≡ c.server
  unfolding server_of_brackets
  server_of_brackets-zoned = rw (server_of_brackets, z.no_socket) (sym z.is_server)

  parse_behind_host-zoned :
      parse_behind_host k c.password (escaped name) (port_part n ++ behind)
      ≡ ok (record c { password = password_of_userinfo c.password })
  unfolding parse_behind_host build_client_runtime_config
  parse_behind_host-zoned =
      rw
        (
          parse_behind_host,
          port_and_rest-part k n behind z.port_fits behind-IsRest,
          decoded_host-escaped k l name ascii z.has_zone,
          server_of_brackets-zoned,
          build_client_runtime_config,
          taken,
          display_name-part k l query c.display_name hash_free z.name_shown,
        )
        refl

  behind_without_at : All (λ x. x ≢ b'@') (host_part (escaped name) n ++ behind)
  behind_without_at =
      All-append _ (host_part (escaped name) n) behind
        (All-mono (λ x g. g.0) (host_part (escaped name) n)
          (host_part-plain (escaped name) n e-IsQuiet))
        (All-with_query (λ x. x ≢ b'@') query (name_part c.display_name) (ground arith)
          (ground arith) (All-mono (λ x g. g.1) query quiet_query)
          (name_unmarked (λ x. x ≢ b'@') (ground arith) (λ x g. g.3)))

  -- A configuration is read back from its URL as it was written, if the crates keep what they document and the following holds. The server is a name with a `%` and a `:` and a port of 16 bits, the name and the password are ASCII without the characters `/?#@[]`, the password has none that the writer encodes, and the name in brackets with the port is no socket address. The SNI is ASCII, the identifier has 128 bits, and the display name is not empty and has printable ASCII only, without `?`, `@`, `%`, a space and the characters that the writer encodes. Of the password there comes back what the reader keeps: the part before its first colon, or what follows a colon at its start.
  pub parse_anytls_url-string_of_config :
      parse_anytls_url k (string_of_config k c)
      ≡ returns (ok (record c { password = password_of_userinfo c.password }))
  unfolding parse_anytls_url
  parse_anytls_url-string_of_config =
      let quiet = All-mono (λ x g. g.0) c.password z.password_quiet in
      let zone =
        is_zone_url-with_userinfo c.password (escaped name) behind n quiet e-IsQuiet
          (escaped-contains b'%' name z.has_zone) behind-IsRest in
      ap (λ x. parse_anytls_url k x) string_of_config-zoned
      ∙ rw (parse_anytls_url, zone)
          (parse_zone-with_userinfo k c.password (host_part (escaped name) n ++ behind) quiet
              behind_without_at
            ∙ parse_authority-host_part k c.password (escaped name) behind n e-IsQuiet
            ∙ ap (λ x. returns x) parse_behind_host-zoned)
