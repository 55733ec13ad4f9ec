-- ===== src/Url/Zone/Parts.antt =====
-- src/util/parse_url.rs: the parts of a URL with a zone, each read back.
use mathlib.Core.List.{map, flatten}
use anytls_rs_legacy.Common.{
  ◌⊎◌, ℕ, ◌<◌, ◌≡◌, ◌≢◌, ◌^◌, refl, ◌∙◌, sym, ap, true, false, none, some, [], ◌∷◌, ◌++◌, ◌==◌,
  if◌then◌else◌, Text, codes, All, All-mono, arith, append-nil, ok, Bool-cases, inl, inr,
}
use anytls_rs_legacy.Core.Text.{split_once, to_string}
use anytls_rs_legacy.Core.Text.Lines.{split_once-append}
use anytls_rs_legacy.Core.Text.Decimal.{parse_uint-to_string, to_string-IsDigit}
use anytls_rs_legacy.Core.Text.Strict.{
  is_whitespace, trim_front-kept, trim_back-kept, from_utf8_ascii, one_char,
}
use anytls_rs_legacy.Core.Text.Search.{
  strip_prefix-append, span_until-all, span_until-append, strip_prefix, contains_char,
  contains_text, replace_char, span_until,
}
use anytls_rs_legacy.Url.{Crates, is_delimiter, is_empty, before_first, query_of_rest, trim}
use anytls_rs_legacy.Url.Parse.{port_and_rest}
use anytls_rs_legacy.Url.Zone.{IsQuiet, IsShown}

pub split_once-none : (c : ℕ) (t : Text) → All (λ x. x ≢ c) t → split_once c t ≡ none
unfolding split_once
split_once-none c [] h = refl
split_once-none c (x ∷ t) h = ground (arith, h.0, split_once-none c t h.1)

pub flatten-one_char : (t : Text) → flatten (map one_char t) ≡ t
unfolding flatten
flatten-one_char [] = refl
flatten-one_char (c ∷ cs) = ap (λ x. c ∷ x) (flatten-one_char cs)

-- The host as it is written.
abbrev pub escaped : Text → Text
escaped name = replace_char b'%' (codes "%25") name

pub escaped-IsQuiet : (name : Text) → All IsQuiet name → All IsQuiet (escaped name)
unfolding replace_char
escaped-IsQuiet [] h = tt
escaped-IsQuiet (c ∷ cs) h = elim (Bool-cases (c == b'%')) [
  | inl e ↦
      rw (replace_char, e) (ground arith, (ground arith, (ground arith, escaped-IsQuiet cs h.1)))
  | inr e ↦ rw (replace_char, e) (h.0, escaped-IsQuiet cs h.1)
]

pub escaped-contains :
    (c : ℕ) (name : Text) → contains_char c name ≡ true → contains_char c (escaped name) ≡ true
unfolding replace_char contains_char
escaped-contains c [] h = absurd (ground arith)
escaped-contains c (x ∷ xs) h = ground (arith, escaped-contains c xs)

pub escaped-contains_text :
    (name : Text)
    → contains_char b'%' name ≡ true
    → contains_text (codes "%25") (escaped name) ≡ true
unfolding replace_char contains_char contains_text strip_prefix
escaped-contains_text [] h = absurd (ground arith)
escaped-contains_text (x ∷ xs) h = elim (Bool-cases (x == b'%')) [
  | inl e ↦ ground (arith, e)
  | inr e ↦ ground (arith, e, escaped-contains_text xs)
]

shown_kept : (t : Text) → All IsShown t → All (λ c. is_whitespace c ≡ false) (map one_char t)
shown_kept [] h = tt
shown_kept (c ∷ cs) h = (ground (arith, h.0), shown_kept cs h.1)

pub trim-shown : (t : Text) → All IsShown t → trim t ≡ t
unfolding trim
trim-shown t h =
    let kept = shown_kept t h in
    rw
      (
        trim,
        from_utf8_ascii t (All-mono (λ c g. g.1) t h),
        trim_front-kept is_whitespace (map one_char t) kept,
        trim_back-kept is_whitespace (map one_char t) kept,
      )
      (flatten-one_char t)

-- What follows the authority: nothing, or a part with its delimiter.
abbrev pub IsRest : Text → Type 0
IsRest [] = Unit
IsRest (c ∷ cs) = is_delimiter c ≡ true

abbrev pub port_part : ℕ → Text
port_part n = if n == 443 then [] else b':' ∷ to_string n

rest_portless : (rest : Text) → IsRest rest → strip_prefix (b':' ∷ []) rest ≡ none
unfolding strip_prefix
rest_portless [] r = refl
rest_portless (c ∷ cs) r = ground arith

pub span_until-rest :
    (t rest : Text)
    → All (λ c. is_delimiter c ≡ false) t
    → IsRest rest
    → span_until is_delimiter (t ++ rest) ≡ (t, rest)
span_until-rest t [] h r = rw (append-nil t) (span_until-all is_delimiter t h)
span_until-rest t (c ∷ cs) h r = span_until-append is_delimiter t c cs h r

pub to_string-undelimited : (n : ℕ) → All (λ c. is_delimiter c ≡ false) (to_string n)
to_string-undelimited n = All-mono (λ c g. ground (arith, g)) (to_string n) (to_string-IsDigit n)

-- What a name adds to a URL: nothing, or a mark and the name.
abbrev pub IsFragment : Text → Type 0
IsFragment f = (f ≡ []) ⊎ ((d : Text) × (f ≡ b'#' ∷ d))

before_first-fragment :
    (q f : Text) → All (λ c. c ≢ b'#') q → IsFragment f → before_first b'#' (q ++ f) ≡ q
unfolding before_first
before_first-fragment q f h (inl e) =
    ap (λ x. before_first b'#' (q ++ x)) e
    ∙ ap (λ x. before_first b'#' x) (append-nil q)
    ∙ rw (before_first, split_once-none b'#' q h) refl
before_first-fragment q f h (inr (d, e)) = rw (before_first, e, split_once-append b'#' q d h) refl

abbrev pub with_query : Text → Text → Text
with_query q f = (if is_empty q then [] else codes "/?" ++ q) ++ f

-- The query and the name, read from what follows the authority.
pub query_of_rest-part :
    (q f : Text)
    → All (λ c. c ≢ b'#') q
    → All (λ c. c ≢ b'?') f
    → IsFragment f
    → query_of_rest (with_query q f) ≡ q
unfolding query_of_rest
query_of_rest-part [] f h g o = rw (query_of_rest, split_once-none b'?' f g) refl
query_of_rest-part (c ∷ q) f h g o =
    rw (query_of_rest, split_once-append b'?' (b'/' ∷ []) ((c ∷ q) ++ f) (ground arith, tt))
      (before_first-fragment (c ∷ q) f h o)

pub with_query-nameless :
    (q : Text) → All (λ c. c ≢ b'#') q → split_once b'#' (with_query q []) ≡ none
with_query-nameless [] h = unfold split_once in refl
with_query-nameless (c ∷ q) h =
    split_once-none b'#' (codes "/?" ++ (c ∷ q) ++ [])
      (ground arith, (ground arith, (h.0, rw (append-nil q) h.1)))

pub with_query-named :
    (q d : Text)
    → All (λ c. c ≢ b'#') q
    → (x : Text) × (split_once b'#' (with_query q (b'#' ∷ d)) ≡ some (x, d))
with_query-named [] d h = ([], unfold split_once in refl)
with_query-named (c ∷ q) d h = (
  codes "/?" ++ (c ∷ q),
  split_once-append b'#' (codes "/?" ++ (c ∷ q)) d (ground arith, (ground arith, h)),
)

module _ (k : Crates) where
  pub port_and_rest-part :
      (n : ℕ) (rest : Text)
      → n < 2 ^ 16
      → IsRest rest
      → port_and_rest k (port_part n ++ rest) ≡ ok (n, rest)
  unfolding port_and_rest
  port_and_rest-part n rest h r = elim (Bool-cases (n == 443)) [
    | inl e ↦
        let at : n ≡ 443 = ground (arith, e) in
        let left_out : port_part n ≡ [] = rw e refl in
        ap (λ x. port_and_rest k (x ++ rest)) left_out
        ∙ rw (port_and_rest, rest_portless rest r) (ap (λ x. ok (x, rest)) (sym at))
    | inr e ↦
        let cut = span_until-rest (to_string n) rest (to_string-undelimited n) r in
        rw
          (
            e,
            port_and_rest,
            strip_prefix-append (b':' ∷ []) (to_string n ++ rest),
            cut,
            parse_uint-to_string (2 ^ 16) n h (omega arith),
          )
          (ap (λ (x : Text × Text). ok (n, x.1)) cut)
  ]
