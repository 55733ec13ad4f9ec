-- ===== src/Core/Text/Search.antt =====
-- `strip_prefix`, `find`, `rfind`, `contains` and `replace` of the standard library, for ASCII characters.
use anytls_rs_legacy.Common.{
  ℕ, ◌≡◌, ◌≢◌, refl, Bool, true, false, ◌||◌, Option, none, some, [], ◌∷◌, ◌++◌, ◌==◌,
  if◌then◌else◌, Text, All, arith,
}

unfoldable pub strip_prefix : Text → Text → Option Text
strip_prefix [] t = some t
strip_prefix (p ∷ ps) [] = none
strip_prefix (p ∷ ps) (c ∷ cs) = if p == c then strip_prefix ps cs else none

unfoldable pub contains_char : ℕ → Text → Bool
contains_char c [] = false
contains_char c (x ∷ xs) = (x == c) || contains_char c xs

abbrev pub is_given : {A : Type 0} → Option A → Bool
is_given none = false
is_given (some a) = true

unfoldable pub contains_text : Text → Text → Bool
contains_text p [] = is_given (strip_prefix p [])
contains_text p (x ∷ xs) = is_given (strip_prefix p (x ∷ xs)) || contains_text p xs

abbrev pub push_first : ℕ → Text × Text → Text × Text
push_first x (a, b) = (x ∷ a, b)

-- What stands before the first character that fits, and the rest from that character on.
unfoldable pub span_until : (ℕ → Bool) → Text → Text × Text
span_until p [] = ([], [])
span_until p (x ∷ xs) =
    let rest = span_until p xs in if p x then ([], x ∷ xs) else push_first x rest

-- What follows the last such character, or the whole text.
unfoldable pub after_last : ℕ → Text → Text
after_last c [] = []
after_last c (x ∷ xs) =
    let rest = after_last c xs in if contains_char c xs then rest else if x == c then xs else x ∷ xs

unfoldable pub replace_char : ℕ → Text → Text → Text
replace_char c by [] = []
replace_char c by (x ∷ xs) =
    let rest = replace_char c by xs in if x == c then by ++ rest else x ∷ rest

pub strip_prefix-append : (p t : Text) → strip_prefix p (p ++ t) ≡ some t
unfolding strip_prefix
strip_prefix-append [] t = refl
strip_prefix-append (c ∷ p) t = ground (arith, strip_prefix-append p t)

pub contains_char-none : (c : ℕ) (t : Text) → All (λ x. x ≢ c) t → contains_char c t ≡ false
unfolding contains_char
contains_char-none c [] h = refl
contains_char-none c (x ∷ xs) h = ground (arith, contains_char-none c xs h.1, h.0)

pub contains_char-append :
    (c : ℕ) (s t : Text) → contains_char c (s ++ t) ≡ (contains_char c s || contains_char c t)
unfolding contains_char
contains_char-append c [] t = refl
contains_char-append c (x ∷ s) t = ground (arith, contains_char-append c s t)

pub span_until-append :
    (p : ℕ → Bool) (s : Text) (c : ℕ) (t : Text)
    → All (λ x. p x ≡ false) s
    → p c ≡ true
    → span_until p (s ++ (c ∷ t)) ≡ (s, c ∷ t)
unfolding span_until
span_until-append p [] c t h e = rw e refl
span_until-append p (x ∷ s) c t h e = rw (span_until, h.0, span_until-append p s c t h.1 e) refl

pub span_until-all : (p : ℕ → Bool) (s : Text) → All (λ x. p x ≡ false) s → span_until p s ≡ (s, [])
unfolding span_until
span_until-all p [] h = refl
span_until-all p (x ∷ s) h = rw (span_until, h.0, span_until-all p s h.1) refl

pub after_last-append : (c : ℕ) (s t : Text) → All (λ x. x ≢ c) t → after_last c (s ++ (c ∷ t)) ≡ t
unfolding after_last contains_char
after_last-append c [] t h = ground (arith, contains_char-none c t h)
after_last-append c (x ∷ s) t h =
    ground (arith, after_last-append c s t h, contains_char-append c s (c ∷ t))

pub after_last-none : (c : ℕ) (t : Text) → All (λ x. x ≢ c) t → after_last c t ≡ t
unfolding after_last
after_last-none c [] h = refl
after_last-none c (x ∷ t) h = ground (arith, contains_char-none c t h.1, h.0)
