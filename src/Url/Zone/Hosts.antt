-- ===== src/Url/Zone/Hosts.antt =====
-- src/util/parse_url.rs: the userinfo and the host of a URL with a zone, read back.
use anytls_rs_legacy.Common.{
  ℕ, ◌≡◌, ◌≢◌, refl, ◌∙◌, sym, ap, true, false, some, [], ◌∷◌, ◌++◌, ◌==◌, if◌then◌else◌, Text,
  codes, All, All-append, All-mono, arith, append_assoc, Bool-cases, inl, inr,
}
use anytls_rs_legacy.Core.Text.{split_once, to_string}
use anytls_rs_legacy.Core.Text.Lines.{split_once-append}
use anytls_rs_legacy.Core.Text.Decimal.{to_string-IsDigit}
use anytls_rs_legacy.Core.Text.Search.{
  strip_prefix-append, contains_char, span_until, after_last, after_last-append, after_last-none,
}
use anytls_rs_legacy.Url.{
  userinfo_encode_set, Crates, returns, is_delimiter, is_empty, is_anytls_ipv6_zone_url,
}
use anytls_rs_legacy.Url.Parse.{parse_anytls_url_ipv6_zone, parse_authority, parse_behind_host}
use anytls_rs_legacy.Url.Zone.{IsFaithful, IsQuiet}
use anytls_rs_legacy.Url.Zone.Parts.{split_once-none, IsRest, port_part, span_until-rest}

-- A password before the host, where there is one.
abbrev pub with_userinfo : Text → Text → Text
with_userinfo p t = if is_empty p then t else p ++ (b'@' ∷ t)

abbrev pub host_part : Text → ℕ → Text
host_part e n = b'[' ∷ (e ++ (b']' ∷ port_part n))

port_part-IsQuiet : (n : ℕ) → All IsQuiet (port_part n)
port_part-IsQuiet n = elim (Bool-cases (n == 443)) [
  | inl e ↦ rw e tt
  | inr e ↦
      rw e (ground arith, All-mono (λ c g. ground (arith, g)) (to_string n) (to_string-IsDigit n))
]

undelimited : (t : Text) → All IsQuiet t → All (λ c. is_delimiter c ≡ false) t
undelimited t h = All-mono (λ c g. ground (arith, g)) t h

-- The host and its port hold no `@` and no delimiter.
pub host_part-plain :
    (e : Text) (n : ℕ)
    → All IsQuiet e
    → All (λ c. (c ≢ b'@') × (is_delimiter c ≡ false)) (host_part e n)
host_part-plain e n h = (
  ground arith,
  All-append _ e (b']' ∷ port_part n) (All-mono (λ c g. (g.4, ground (arith, g))) e h) (
    ground arith,
    All-mono (λ c g. (g.4, ground (arith, g))) (port_part n) (port_part-IsQuiet n),
  ),
)

-- The whole host, as it is found between its brackets.
host_part-split :
    (e t : Text) (n : ℕ)
    → All IsQuiet e
    → split_once b']' (e ++ (b']' ∷ (port_part n ++ t))) ≡ some (e, port_part n ++ t)
host_part-split e t n h = split_once-append b']' e (port_part n ++ t) (All-mono (λ c g. g.6) e h)

host_part-append :
    (e t : Text) (n : ℕ) → host_part e n ++ t ≡ b'[' ∷ (e ++ (b']' ∷ (port_part n ++ t)))
host_part-append e t n = ap (λ x. b'[' ∷ x) (append_assoc e (b']' ∷ port_part n) t)

pub parse_authority-host_part :
    (k : Crates) (p e t : Text) (n : ℕ)
    → All IsQuiet e
    → parse_authority k p (host_part e n ++ t)
      ≡ returns (parse_behind_host k p e (port_part n ++ t))
unfolding parse_authority split_once contains_char
parse_authority-host_part k p e t n h =
    ap (λ x. parse_authority k p x) (host_part-append e t n)
    ∙ rw (parse_authority, host_part-split e t n h) refl

found_zone :
    (raw e rest : Text) (n : ℕ)
    → All IsQuiet e
    → contains_char b'%' e ≡ true
    → (span : Text) → span_until is_delimiter raw ≡ (span, rest)
    → after_last b'@' span ≡ host_part e n
    → is_anytls_ipv6_zone_url (codes "anytls://" ++ raw) ≡ true
unfolding is_anytls_ipv6_zone_url split_once
found_zone raw e rest n h z span s a =
    rw
      (
        is_anytls_ipv6_zone_url,
        strip_prefix-append (codes "anytls://") raw,
        s,
        a,
        split_once-append b']' e (port_part n) (All-mono (λ c g. g.6) e h),
      )
      z

pub is_zone_url-with_userinfo :
    (p e rest : Text) (n : ℕ)
    → All IsQuiet p
    → All IsQuiet e
    → contains_char b'%' e ≡ true
    → IsRest rest
    → is_anytls_ipv6_zone_url (codes "anytls://" ++ with_userinfo p (host_part e n ++ rest)) ≡ true
is_zone_url-with_userinfo [] e rest n q h z r =
    let plain = host_part-plain e n h in
    found_zone (host_part e n ++ rest) e rest n h z (host_part e n)
      (span_until-rest (host_part e n) rest (All-mono (λ c g. g.1) (host_part e n) plain) r)
      (after_last-none b'@' (host_part e n) (All-mono (λ c g. g.0) (host_part e n) plain))
is_zone_url-with_userinfo (c ∷ p) e rest n q h z r =
    let plain = host_part-plain e n h in
    let front = (c ∷ p) ++ (b'@' ∷ host_part e n) in
    let grouped : front ++ rest ≡ (c ∷ p) ++ (b'@' ∷ (host_part e n ++ rest)) =
      append_assoc (c ∷ p) (b'@' ∷ host_part e n) rest in
    let quiet : All (λ x. is_delimiter x ≡ false) front =
      All-append _ (c ∷ p) (b'@' ∷ host_part e n) (undelimited (c ∷ p) q)
        (refl, All-mono (λ x g. g.1) (host_part e n) plain) in
    found_zone ((c ∷ p) ++ (b'@' ∷ (host_part e n ++ rest))) e rest n h z front
      (ap (λ x. span_until is_delimiter x) (sym grouped) ∙ span_until-rest front rest quiet r)
      (after_last-append b'@' (c ∷ p) (host_part e n) (All-mono (λ x g. g.0) (host_part e n) plain))

pub parse_zone-with_userinfo :
    (k : Crates) (p t : Text)
    → All IsQuiet p
    → All (λ c. c ≢ b'@') t
    → parse_anytls_url_ipv6_zone k (codes "anytls://" ++ with_userinfo p t) ≡ parse_authority k p t
unfolding parse_anytls_url_ipv6_zone
parse_zone-with_userinfo k [] t q h =
    rw
      (
        parse_anytls_url_ipv6_zone,
        strip_prefix-append (codes "anytls://") t,
        split_once-none b'@' t h,
      )
      refl
parse_zone-with_userinfo k (c ∷ p) t q h =
    rw
      (
        parse_anytls_url_ipv6_zone,
        strip_prefix-append (codes "anytls://") ((c ∷ p) ++ (b'@' ∷ t)),
        split_once-append b'@' (c ∷ p) t (All-mono (λ x g. g.4) (c ∷ p) q),
      )
      refl

pub userinfo_written :
    (k : Crates) (l : IsFaithful k) (p t : Text)
    → All (λ x. IsQuiet x × (userinfo_encode_set x ≡ false)) p
    → (if is_empty p then [] else k.percent_encode userinfo_encode_set p ++ (b'@' ∷ [])) ++ t
      ≡ with_userinfo p t
userinfo_written k l [] t h = refl
userinfo_written k l (x ∷ p) t h =
    ap (λ (e : Text). (e ++ (b'@' ∷ [])) ++ t)
      (l.encode_plain userinfo_encode_set (x ∷ p) (All-mono (λ y g. (g.0.0, g.1)) (x ∷ p) h))
    ∙ append_assoc (x ∷ p) (b'@' ∷ []) t
