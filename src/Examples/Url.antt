-- ===== src/Examples/Url.antt =====
-- A URL with a zone, under crates that keep what the round trip relies on.
use anytls_rs_legacy.Common.{
  zero, suc, append-nil, ℕ, ◌<◌, ◌≡◌, ◌≢◌, ◌+◌, ◌-◌, refl, ◌∙◌, ap, true, false, ◌&&◌, Option, none,
  some, List, [], ◌∷◌, ◌++◌, ◌==◌, if◌then◌else◌, Text, codes, All, All-append, arith, ok, err,
  Bool-cases, inl, inr,
}
use anytls_rs_legacy.Core.Text.{split_once}
use anytls_rs_legacy.Core.Text.Search.{replace_char, contains_char}
use anytls_rs_legacy.Url.{
  userinfo_encode_set, fragment_encode_set, domain_address, Crates, ClientRuntimeConfig, returns,
  invalid, password_of_userinfo,
}
use anytls_rs_legacy.Url.Parse.{parse_anytls_url}
use anytls_rs_legacy.Url.Print.{string_of_config}
use anytls_rs_legacy.Url.Zone.{IsFaithful, IsZoned}
use anytls_rs_legacy.Url.Zone.RoundTrip.{parse_anytls_url-string_of_config}

-- `%25` is a `%`, and nothing else is decoded.
abbrev decode_percents : Text → Text
decode_percents [] = []
decode_percents (x ∷ []) = x ∷ []
decode_percents (x ∷ y ∷ []) = x ∷ y ∷ []
decode_percents (x ∷ y ∷ z ∷ t) =
    let after = decode_percents t in
    let rest = decode_percents (y ∷ z ∷ t) in
    if (x == b'%') && ((y == b'2') && (z == b'5')) then b'%' ∷ after else x ∷ rest

decode_other : (x : ℕ) (t : Text) → x ≢ b'%' → decode_percents (x ∷ t) ≡ x ∷ decode_percents t
decode_other x [] h = refl
decode_other x (y ∷ []) h = refl
decode_other x (y ∷ z ∷ t) h = ground arith

decode_plain_text : (t : Text) → All (λ c. (c < 128) × (c ≢ b'%')) t → decode_percents t ≡ t
decode_plain_text [] h = refl
decode_plain_text (c ∷ t) h = decode_other c t h.0.1 ∙ ap (λ x. c ∷ x) (decode_plain_text t h.1)

decode_escaped : (t : Text) → decode_percents (replace_char b'%' (codes "%25") t) ≡ t
unfolding replace_char
decode_escaped [] = refl
decode_escaped (c ∷ t) = elim (Bool-cases (c == b'%')) [
  | inl e ↦ rw e (ground (arith, decode_escaped t, e))
  | inr e ↦ rw e (
      decode_other c (replace_char b'%' (codes "%25") t) (ground (arith, e))
      ∙ ap (λ x. c ∷ x) (decode_escaped t))
]

-- A query with every character moved beyond ASCII, between its marks.
abbrev shifted : Text → Text
shifted [] = []
shifted (c ∷ t) = (c + 128) ∷ shifted t

abbrev serialized : List (Text × Text) → Text
serialized [] = []
serialized ((key, value) ∷ ps) = b'&' ∷ (shifted key ++ (b'=' ∷ (shifted value ++ serialized ps)))

record Reading : Type 0 where
  current : Text
  last_value : Text
  pairs : List (Text × Text)

abbrev read_mark : ℕ → Reading → Reading
read_mark c r =
    if c == b'&'
    then record { current = []; last_value = []; pairs = (r.current, r.last_value) ∷ r.pairs }
    else if c == b'='
    then record { current = []; last_value = r.current; pairs = r.pairs }
    else record { current = (c - 128) ∷ r.current; last_value = r.last_value; pairs = r.pairs }

abbrev reading : Text → Reading
reading [] = record { current = []; last_value = []; pairs = [] }
reading (c ∷ t) = read_mark c (reading t)

read_moved : (c : ℕ) (r : Reading) → read_mark (c + 128) r ≡ record r { current = c ∷ r.current }
read_moved c r =
    let other : ((c + 128) == b'&') ≡ false = ground arith in
    let no_mark : ((c + 128) == b'=') ≡ false = ground arith in
    let back : (c + 128) - 128 ≡ c = omega arith in rw (read_mark, other, no_mark, back) refl

read_shifted :
    (s t : Text)
    → reading (shifted s ++ t) ≡ record (reading t) { current = s ++ (reading t).current }
read_shifted [] t = refl
read_shifted (c ∷ s) t =
    ap (λ r. read_mark (c + 128) r) (read_shifted s t)
    ∙ read_moved c (record (reading t) { current = s ++ (reading t).current })

read_serialized :
    (ps : List (Text × Text))
    → reading (serialized ps) ≡ record { current = []; last_value = []; pairs = ps }
read_serialized [] = refl
read_serialized ((key, value) ∷ ps) =
    rw (read_shifted key, read_shifted value, read_serialized ps)
      (rw (append-nil key, append-nil value) refl)

shifted-quiet : (t : Text) → All (λ c. (c ≢ b'#') × (c ≢ b'@')) (shifted t)
shifted-quiet [] = tt
shifted-quiet (c ∷ t) = ((omega arith, omega arith), shifted-quiet t)

serialized-quiet : (ps : List (Text × Text)) → All (λ c. (c ≢ b'#') × (c ≢ b'@')) (serialized ps)
serialized-quiet [] = tt
serialized-quiet ((key, value) ∷ ps) = (
  ground arith,
  All-append _ (shifted key) (b'=' ∷ (shifted value ++ serialized ps)) (shifted-quiet key) (
    ground arith,
    All-append _ (shifted value) (serialized ps) (shifted-quiet value) (serialized-quiet ps),
  ),
)

-- An identifier in marks, one more than its value.
abbrev marks : ℕ → Text
marks zero = []
marks (suc n) = b'x' ∷ marks n

abbrev size : Text → ℕ
size [] = 0
size (c ∷ t) = suc (size t)

abbrev parse_marks : Text → Option ℕ
parse_marks [] = none
parse_marks (c ∷ t) = some (size t)

size-marks : (n : ℕ) → size (marks n) ≡ n
size-marks zero = refl
size-marks (suc n) = ap suc (size-marks n)

marks_ascii : (n : ℕ) → All (λ c. c < 128) (marks n)
marks_ascii zero = tt
marks_ascii (suc n) = (ground arith, marks_ascii n)

-- No text is a socket address, and every URL is read by the parser of a zone.
abbrev crates : Crates
crates = record {
  Socket = Unit;
  parse_socket = λ t. none;
  show_socket = λ s. [];
  socket_host = λ s. [];
  socket_port = λ s. 0;
  socket_is_ipv6 = λ s. false;
  address_of = λ name n. domain_address name n;
  percent_encode = λ set t. t;
  percent_decode = decode_percents;
  form_parse = λ t. (reading t).pairs;
  form_serialize = serialized;
  parse_uuid = parse_marks;
  show_uuid = λ id. b'x' ∷ marks id;
  parse_url = λ t. err (invalid "no URL");
}

crates-IsFaithful : IsFaithful crates
crates-IsFaithful = record {
  encode_plain = λ set t h. refl;
  decode_plain = decode_plain_text;
  decode_percent = λ t h. decode_escaped t;
  parse_serialize = λ ps h. ap (λ r. r.pairs) (read_serialized ps);
  serialize_nil = refl;
  serialize_quiet = serialized-quiet;
  parse_show = λ id h. ap (λ n. some n) (size-marks id);
  show_ascii = λ id h. ((ground arith, marks_ascii id), ground arith);
}

abbrev zoned : ClientRuntimeConfig Unit
zoned = record {
  server = domain_address (codes "fe80::1%eth0") 8443;
  password = codes "se:cret";
  sni = some (codes "example.com");
  client_id = some 7;
  insecure = true;
  display_name = some (codes "home");
}

zoned-IsZoned : IsZoned crates zoned (codes "fe80::1%eth0") 8443
unfolding contains_char userinfo_encode_set fragment_encode_set
zoned-IsZoned = record {
  is_server = refl;
  port_fits = ground arith;
  name_quiet = ground arith;
  has_zone = refl;
  has_colon = refl;
  no_socket = refl;
  password_quiet = ground arith;
  sni_ascii = ground arith;
  id_fits = ground arith;
  name_shown = (ground arith, ground arith);
}

-- What stands behind the colon of the password is lost.
parse_anytls_url-string_of_config_example :
    parse_anytls_url crates (string_of_config crates zoned)
    ≡ returns (ok (record zoned { password = codes "se" }))
unfolding password_of_userinfo split_once
parse_anytls_url-string_of_config_example =
    parse_anytls_url-string_of_config crates crates-IsFaithful zoned (codes "fe80::1%eth0") 8443
      zoned-IsZoned
