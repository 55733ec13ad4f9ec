-- ===== src/Runner/Sniff/Methods.antt =====
-- src/client_runner.rs: the test for an HTTP method, against what a request line begins with.
use anytls_rs_legacy.Common.{
  suc, ℕ, ◌-◌, ◌≤◌, ◌≡◌, ◌≢◌, refl, sym, ap, ◌∙◌, Bool, true, false, ◌&&◌, ◌||◌, Option, none, some,
  List, [], ◌∷◌, ◌++◌, ◌==◌, ltb, if◌then◌else◌, take, length, map, Text, text_same, arith,
  Bool-cases, ltb→le, inl, inr,
}
use anytls_rs_legacy.Core.Text.Utf8.{IsAscii}
use anytls_rs_legacy.Core.Text.Strict.{from_utf8_ascii, one_char}
use anytls_rs_legacy.Core.Text.Search.{strip_prefix, is_given}
use anytls_rs_legacy.Runner.Sniff.{
  http, unknown, methods, ascii_lowercase, is_char_boundary, space_at, fits_method, any_method,
  sniff_text, sniff,
}

-- The text begins with the method and a space, whatever the case of its letters.
abbrev pub begins : Text → Text → Bool
begins text method =
    is_given (strip_prefix (map ascii_lowercase (method ++ (32 ∷ []))) (map ascii_lowercase text))

abbrev pub begins_any : List Text → Text → Bool
begins_any [] text = false
begins_any (m ∷ ms) text = begins text m || begins_any ms text

ascii_boundary : (n : ℕ) (t : Text) → n ≤ length t → is_char_boundary n (map one_char t) ≡ true
unfolding is_char_boundary
ascii_boundary n [] h = ground arith
ascii_boundary n (c ∷ cs) h = ground (arith, ascii_boundary (n - 1) cs)

cons_test :
    (a b p q : ℕ) (u v g : Bool)
    → (if ltb q p then false else (u && v)) ≡ g
    → (if ltb (suc q) (suc p) then false else (((a == b) && u) && v))
      ≡ (if b == a then g else false)
cons_test a b p q u v g h = ground (arith, h)

given_if :
    (b : Bool) (o : Option Text)
    → is_given (if b then o else none) ≡ (if b then is_given o else false)
given_if true o = refl
given_if false o = refl

space_behind : (n x : ℕ) (t : Text) → space_at (suc n) (x ∷ t) ≡ space_at n t
unfolding space_at
space_behind n x t =
    let no_zero : (suc n == 0) ≡ false = ground arith in
    rw (space_at, no_zero) (ap (λ k. space_at k t) (omega arith))

lowercase_space : (x : ℕ) → (x == 32) ≡ (32 == ascii_lowercase x)
lowercase_space x = ground arith

given_some : (b : Bool) (o : Text) → b ≡ is_given (if b then some o else none)
given_some true o = refl
given_some false o = refl

if_true : (b u g : Bool) → b ≡ true → (if b then false else u) ≡ g → false ≡ g
if_true b u g e h = ground (arith, e, h)

if_false : (b u g : Bool) → b ≡ false → (if b then false else u) ≡ g → u ≡ g
if_false b u g e h = ground (arith, e, h)

fits_begins :
    (m t : Text)
    → (if ltb (length t) (length m)
        then false
        else text_same (map ascii_lowercase (take (length m) t)) (map ascii_lowercase m)
          && space_at (length m) t)
      ≡ begins t m
unfolding strip_prefix space_at text_same
fits_begins [] [] = refl
fits_begins [] (x ∷ t) =
    let no_less : ltb (suc (length t)) 0 ≡ false = ground arith in
    rw no_less (lowercase_space x ∙ given_some (32 == ascii_lowercase x) (map ascii_lowercase t))
fits_begins (c ∷ m) [] = ground arith
fits_begins (c ∷ m) (x ∷ t) =
    let a = ascii_lowercase x in
    let b = ascii_lowercase c in
    let same = text_same (map ascii_lowercase (take (length m) t)) (map ascii_lowercase m) in
    ap (λ v. if ltb (suc (length t)) (suc (length m)) then false else (((a == b) && same) && v))
      (space_behind (length m) x t)
    ∙ cons_test a b (length m) (length t) same (space_at (length m) t) (begins t m)
        (fits_begins m t)
    ∙ sym (
        given_if (b == a)
          (strip_prefix (map ascii_lowercase (m ++ (32 ∷ []))) (map ascii_lowercase t)))

fits_method-ascii : (t m : Text) → fits_method t (map one_char t) m ≡ some (begins t m)
unfolding fits_method
fits_method-ascii t m = elim (Bool-cases (ltb (length t) (length m))) [
  | inl e ↦ rw (fits_method, e) (ap (λ b. some b) (if_true _ _ (begins t m) e (fits_begins m t)))
  | inr e ↦
      rw (fits_method, e, ascii_boundary (length m) t (ltb→le (length t) (length m) e))
        (ap (λ b. some b) (if_false _ _ (begins t m) e (fits_begins m t)))
]

any_method-ascii :
    (ms : List Text) (t : Text) → any_method ms t (map one_char t) ≡ some (begins_any ms t)
unfolding any_method
any_method-ascii [] t = refl
any_method-ascii (m ∷ ms) t = elim (Bool-cases (begins t m)) [
  | inl e ↦ rw (any_method, fits_method-ascii t m, e) refl
  | inr e ↦ rw (any_method, fits_method-ascii t m, e) (any_method-ascii ms t)
]

-- A local connection of which the `peek` gave ASCII bytes, of which the first is that of no SOCKS version, is taken for HTTP exactly if what the `peek` gave begins with one of the methods, in any case of its letters, and a space; otherwise it is closed as unknown, and never does the test panic.
pub sniff-ascii :
    (c : ℕ) (cs : Text)
    → c ≢ 0x05
    → c ≢ 0x04
    → IsAscii (c ∷ cs)
    → sniff (c ∷ cs) ≡ (if begins_any methods (c ∷ cs) then http else unknown)
unfolding sniff sniff_text
sniff-ascii c cs h5 h4 a =
    let first = c ∷ cs in
    let not_socks : sniff (c ∷ cs) ≡ sniff_text first = ground (arith, h5, h4) in
    not_socks ∙ (elim (Bool-cases (begins_any methods first)) [
      | inl e ↦ rw (sniff_text, from_utf8_ascii first a, any_method-ascii methods first, e) refl
      | inr e ↦ rw (sniff_text, from_utf8_ascii first a, any_method-ascii methods first, e) refl
    ])
