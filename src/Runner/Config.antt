-- ===== src/Runner/Config.antt =====
-- src/client_runner.rs, `resolve_client_config`: the URL's settings, under those of the arguments.
use anytls_rs_legacy.Common.{
  arith, ℕ, ◌≡◌, ap, refl, Bool, true, false, Option, none, some, [], ◌∷◌, if◌then◌else◌, Text,
  Result, ok, err,
}
use anytls_rs_legacy.Core.Text.Search.{contains_char}
use anytls_rs_legacy.Url.{
  socket_address, domain_address, Crates, ClientRuntimeConfig, Parsed, returns, panics, is_empty,
  invalid, or_else, password_of_userinfo,
}
use anytls_rs_legacy.Url.Parse.{parse_anytls_url}
use anytls_rs_legacy.Url.Print.{host, string_of_config}
use anytls_rs_legacy.Url.Zone.{IsFaithful, IsZoned}
use anytls_rs_legacy.Url.Zone.RoundTrip.{parse_anytls_url-string_of_config}

module _ (k : Crates) where
  pub record ClientArgs : Type 0 where
    pub url : Option Text
    pub server_arg : Option k.Socket
    pub password_arg : Option Text
    pub sni_arg : Option Text
    pub client_id_arg : Option ℕ
    pub insecure_arg : Option Bool

  abbrev pub unset : ClientRuntimeConfig k.Socket
  unset = record {
    server = domain_address [] 443;
    password = [];
    sni = none;
    client_id = none;
    insecure = false;
    display_name = none;
  }

  abbrev pub first_given : {A : Type 0} → Option A → Option A → Option A
  first_given none b = b
  first_given (some a) b = some a

  unfoldable pub override : ClientArgs → ClientRuntimeConfig k.Socket → ClientRuntimeConfig k.Socket
  override args c = record c {
    server = elim args.server_arg [ none ↦ c.server | some s ↦ socket_address s ];
    password = or_else args.password_arg c.password;
    sni = first_given args.sni_arg c.sni;
    client_id = first_given args.client_id_arg c.client_id;
    insecure = or_else args.insecure_arg c.insecure;
  }

  unfoldable pub with_server : ClientRuntimeConfig k.Socket → Result (ClientRuntimeConfig k.Socket)
  with_server c =
      if is_empty (host k c.server)
      then err (invalid "Server address is required (use --server or --url)")
      else ok c

  unfoldable pub resolve_client_config : ClientArgs → Parsed (ClientRuntimeConfig k.Socket)
  resolve_client_config args = elim args.url [
    | none ↦ returns (with_server (override args unset))
    | some url ↦ elim (parse_anytls_url k url) [
      | panics ↦ panics
      | returns (err e) ↦ returns (err e)
      | returns (ok c) ↦ returns (with_server (override args c))
    ]
  ]

  abbrev pub only_url : Text → ClientArgs
  only_url url = record {
    url = some url;
    server_arg = none;
    password_arg = none;
    sni_arg = none;
    client_id_arg = none;
    insecure_arg = none;
  }

  named_server :
      (c : ClientRuntimeConfig k.Socket) (name : Text) (n : ℕ)
      → c.server ≡ domain_address name n
      → contains_char b'%' name ≡ true
      → with_server c ≡ ok c
  unfolding with_server host contains_char
  named_server c [] n e h = absurd (ground (arith, h))
  named_server c (x ∷ name) n e h = rw (with_server, e) refl

  -- A client that is given nothing but the URL which `--print-url` prints for a server under a name with a zone runs with the configuration that was printed, but for what stands in the password behind its first colon.
  resolve_client_config-string_of_config :
      (l : IsFaithful k) (c : ClientRuntimeConfig k.Socket) (name : Text) (n : ℕ)
      → IsZoned k c name n
      → resolve_client_config (only_url (string_of_config k c))
        ≡ returns (ok (record c { password = password_of_userinfo c.password }))
  unfolding resolve_client_config override
  resolve_client_config-string_of_config l c name n z =
      rw (resolve_client_config, parse_anytls_url-string_of_config k l c name n z)
        (ap (λ x. returns x)
          (named_server (record c { password = password_of_userinfo c.password }) name n z.is_server
            z.has_zone))
