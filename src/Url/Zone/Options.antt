-- ===== src/Url/Zone/Options.antt =====
-- src/util/parse_url.rs: the name, the query and the host of a URL with a zone, read back.
use anytls_rs_legacy.Common.{
  ◌<◌, ◌^◌, All-append, inl, inr, ℕ, ◌≡◌, ◌≢◌, refl, ap, Bool, true, false, Option, none, some, [],
  ◌∷◌, ◌++◌, if◌then◌else◌, Text, codes, text_same, All, All-mono, arith, ok,
}
use anytls_rs_legacy.Core.Text.Utf8.{IsAscii}
use anytls_rs_legacy.Core.Text.Search.{contains_char}
use anytls_rs_legacy.Url.{fragment_encode_set, Crates, ClientRuntimeConfig, is_empty}
use anytls_rs_legacy.Url.Parse.{
  unless_empty, Found, nothing_found, take_pair, take_pairs, zone_display_name, display_name_of,
  decoded_host,
}
use anytls_rs_legacy.Url.Print.{query_pairs, pair_if, fragment_part}
use anytls_rs_legacy.Url.Zone.{IsFaithful, IsShown, AllGiven}
use anytls_rs_legacy.Url.Zone.Parts.{
  IsRest, IsFragment, escaped, escaped-contains_text, trim-shown, with_query, with_query-nameless,
  with_query-named,
}

-- The name, as it is written.
abbrev pub name_part : Option Text → Text
name_part none = []
name_part (some d) = b'#' ∷ d

pub name_part-IsFragment : (o : Option Text) → IsFragment (name_part o)
name_part-IsFragment none = inl refl
name_part-IsFragment (some d) = inr (d, refl)

pub All-name_part :
    (P : ℕ → Type 0)
    → P b'#'
    → ((x : ℕ) → IsShown x → P x)
    → (o : Option Text) → AllGiven (λ t. All IsShown t × (t ≢ [])) o
    → All P (name_part o)
All-name_part P h f none g = tt
All-name_part P h f (some d) g = (h, All-mono f d g.0)

pub with_query-IsRest : (q : Text) (o : Option Text) → IsRest (with_query q (name_part o))
with_query-IsRest [] none = tt
with_query-IsRest [] (some d) = refl
with_query-IsRest (c ∷ q) o = refl

pub All-with_query :
    (P : ℕ → Type 0) (q f : Text) → P b'/' → P b'?' → All P q → All P f → All P (with_query q f)
All-with_query P [] f a b h g = g
All-with_query P (c ∷ q) f a b h g = (a, (b, All-append P (c ∷ q) f h g))

module _ (k : Crates) (l : IsFaithful k) where
  pub decoded_host-escaped :
      (name : Text)
      → IsAscii name
      → contains_char b'%' name ≡ true
      → decoded_host k (escaped name) ≡ name
  unfolding decoded_host
  decoded_host-escaped name a h = rw (escaped-contains_text name h) (l.decode_percent name a)

  plain_name : (d : Text) → All IsShown d → k.percent_decode d ≡ d
  plain_name d h = l.decode_plain d (All-mono (λ c g. (g.1, g.4)) d h)

  -- The name is decoded twice, which leaves a name without `%` as it is.
  pub display_name-part :
      (q : Text) (o : Option Text)
      → All (λ c. c ≢ b'#') q
      → AllGiven (λ t. All IsShown t × (t ≢ [])) o
      → display_name_of k (zone_display_name k (with_query q (name_part o))) ≡ o
  unfolding display_name_of zone_display_name
  display_name-part q none h g = rw (zone_display_name, with_query-nameless q h) refl
  display_name-part q (some []) h g = absurd (g.1 refl)
  display_name-part q (some (c ∷ cs)) h g =
      let (x, cut) = with_query-named q (c ∷ cs) h in
      rw (zone_display_name, cut, trim-shown (c ∷ cs) g.0, plain_name (c ∷ cs) g.0)
        (ap (unless_empty k) (plain_name (c ∷ cs) g.0))

  shown_name :
      (o : Option Text)
      → AllGiven (λ t. All IsShown t × (t ≢ [])) o
      → elim o [ none ↦ [] | some name ↦ b'#' ∷ k.percent_encode fragment_encode_set name ]
        ≡ name_part o
  shown_name none g = refl
  shown_name (some d) g =
      ap (λ x. b'#' ∷ x) (l.encode_plain fragment_encode_set d (All-mono (λ c h. (h.1, h.5)) d g.0))

  pub fragment_part-shown :
      (c : ClientRuntimeConfig k.Socket)
      → AllGiven (λ t. All IsShown t × (t ≢ [])) c.display_name
      → fragment_part k c ≡ name_part c.display_name
  unfolding fragment_part
  fragment_part-shown c g = shown_name c.display_name g

  given_text : (t : Text) → t ≢ [] → is_empty t ≡ false
  given_text [] h = absurd (h refl)
  given_text (c ∷ cs) h = refl

  take_client_id :
      (s : Option Text) (b : Bool) (o : Option ℕ)
      → AllGiven (λ x. x < 2 ^ 128) o
      → take_pairs k
          (pair_if k o (codes "client_id") k.show_uuid)
          (record { found_sni = s; found_insecure = b; found_client_id = none })
        ≡ ok (record { found_sni = s; found_insecure = b; found_client_id = o })
  unfolding take_pairs take_pair text_same
  take_client_id s b none h = refl
  take_client_id s b (some id) h =
      rw
        (
          take_pairs,
          take_pair,
          given_text (k.show_uuid id) (l.show_ascii id h).1,
          l.parse_show id h,
        )
        refl

  take_insecure :
      (s : Option Text) (b : Bool) (o : Option ℕ)
      → AllGiven (λ x. x < 2 ^ 128) o
      → take_pairs k
          ((if b then (codes "insecure", codes "1") ∷ [] else [])
            ++ pair_if k o (codes "client_id") k.show_uuid)
          (record { found_sni = s; found_insecure = false; found_client_id = none })
        ≡ ok (record { found_sni = s; found_insecure = b; found_client_id = o })
  unfolding take_pairs take_pair text_same
  take_insecure s false o h = take_client_id s false o h
  take_insecure s true o h = take_client_id s true o h

  take_sni :
      (s : Option Text) (b : Bool) (o : Option ℕ)
      → AllGiven (λ x. x < 2 ^ 128) o
      → take_pairs k
          (pair_if k s (codes "sni") (λ t. t)
            ++ (if b then (codes "insecure", codes "1") ∷ [] else [])
            ++ pair_if k o (codes "client_id") k.show_uuid)
          nothing_found
        ≡ ok (record { found_sni = s; found_insecure = b; found_client_id = o })
  unfolding take_pairs take_pair text_same
  take_sni none b o h = take_insecure none b o h
  take_sni (some t) b o h = take_insecure (some t) b o h

  abbrev pub found_of : ClientRuntimeConfig k.Socket → Found
  found_of c = record {
    found_sni = c.sni;
    found_insecure = c.insecure;
    found_client_id = c.client_id;
  }

  pub take_pairs-query_pairs :
      (c : ClientRuntimeConfig k.Socket)
      → AllGiven (λ x. x < 2 ^ 128) c.client_id
      → take_pairs k (query_pairs k c) nothing_found ≡ ok (found_of c)
  unfolding query_pairs
  take_pairs-query_pairs c h = take_sni c.sni c.insecure c.client_id h

  client_id-IsAscii :
      (o : Option ℕ)
      → AllGiven (λ x. x < 2 ^ 128) o
      → All (λ p. IsAscii p.0 × IsAscii p.1) (pair_if k o (codes "client_id") k.show_uuid)
  client_id-IsAscii none g = tt
  client_id-IsAscii (some id) g = ((ground arith, (l.show_ascii id g).0), tt)

  insecure-IsAscii :
      (b : Bool) (o : Option ℕ)
      → AllGiven (λ x. x < 2 ^ 128) o
      → All
          (λ p. IsAscii p.0 × IsAscii p.1)
          ((if b then (codes "insecure", codes "1") ∷ [] else [])
            ++ pair_if k o (codes "client_id") k.show_uuid)
  insecure-IsAscii false o g = client_id-IsAscii o g
  insecure-IsAscii true o g = ((ground arith, ground arith), client_id-IsAscii o g)

  sni-IsAscii :
      (s : Option Text) (b : Bool) (o : Option ℕ)
      → AllGiven IsAscii s
      → AllGiven (λ x. x < 2 ^ 128) o
      → All
          (λ p. IsAscii p.0 × IsAscii p.1)
          (pair_if k s (codes "sni") (λ t. t)
            ++ (if b then (codes "insecure", codes "1") ∷ [] else [])
            ++ pair_if k o (codes "client_id") k.show_uuid)
  sni-IsAscii none b o h g = insecure-IsAscii b o g
  sni-IsAscii (some t) b o h g = ((ground arith, h), insecure-IsAscii b o g)

  pub query_pairs-IsAscii :
      (c : ClientRuntimeConfig k.Socket)
      → AllGiven IsAscii c.sni
      → AllGiven (λ x. x < 2 ^ 128) c.client_id
      → All (λ p. IsAscii p.0 × IsAscii p.1) (query_pairs k c)
  unfolding query_pairs
  query_pairs-IsAscii c h g = sni-IsAscii c.sni c.insecure c.client_id h g
