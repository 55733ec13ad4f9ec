-- ===== src/Core/Text/Lines.antt =====
-- Joining lines with line feeds and splitting the text again.
use anytls_rs_legacy.Common.{
  ℕ, ◌≡◌, refl, ap, ◌∙◌, ◌≢◌, true, false, some, List, [], ◌∷◌, ◌++◌, Text, arith, All,
}
use anytls_rs_legacy.Core.Text.{split, lines, split_inclusive, add_char, strip_cr, join, split_once}

-- Holds none of the line ends, and is not empty.
abbrev pub IsPlain : Text → Type 0
IsPlain = All (λ c. (c ≢ 10) × (c ≢ 13))

strip_cr_plain : (l : Text) → IsPlain l → strip_cr l ≡ l
unfolding strip_cr
strip_cr_plain [] h = refl
strip_cr_plain (c ∷ []) h = ground arith
strip_cr_plain (c ∷ d ∷ cs) h = ground (arith, strip_cr_plain (d ∷ cs) h.1)

split_inclusive-plain :
    (c : ℕ) (l : Text) → IsPlain (c ∷ l) → split_inclusive (c ∷ l) ≡ (c ∷ l, false) ∷ []
unfolding split_inclusive add_char
split_inclusive-plain c [] h = ground arith
split_inclusive-plain c (d ∷ l) h = ground (arith, split_inclusive-plain d l h.1)

split_inclusive-append :
    (l rest : Text)
    → IsPlain l
    → split_inclusive (l ++ (10 ∷ rest)) ≡ (l, true) ∷ split_inclusive rest
unfolding split_inclusive add_char
split_inclusive-append [] rest h = refl
split_inclusive-append (c ∷ l) rest h = ground (arith, split_inclusive-append l rest h.1)

abbrev pub IsLine : Text → Type 0
IsLine l = IsPlain l × (l ≢ [])

pub lines-join : (ls : List Text) → All IsLine ls → lines (join 10 ls) ≡ ls
unfolding lines join
lines-join [] h = refl
lines-join ([] ∷ []) h = absurd (h.0.1 refl)
lines-join ((c ∷ l) ∷ []) h = rw (split_inclusive-plain c l h.0.0) refl
lines-join (l ∷ m ∷ ls) h =
    rw (split_inclusive-append l (join 10 (m ∷ ls)) h.0.0)
      (ground (arith, strip_cr_plain l h.0.0, lines-join (m ∷ ls) h.1))

-- A line `key=value` is split at its first `=`.
pub split_once-append :
    (c : ℕ) (k v : Text) → All (λ x. x ≢ c) k → split_once c (k ++ (c ∷ v)) ≡ some (k, v)
unfolding split_once
split_once-append c [] v h = ground arith
split_once-append c (x ∷ k) v h = ground (arith, split_once-append c k v h.1)

abbrev pub Without : ℕ → Text → Type 0
Without c = All (λ x. x ≢ c)

split-Without : (c : ℕ) (p : Text) → Without c p → split c p ≡ p ∷ []
unfolding split
split-Without c [] h = refl
split-Without c (x ∷ p) h = ground (arith, split-Without c p h.1)

split-append : (c : ℕ) (p rest : Text) → Without c p → split c (p ++ (c ∷ rest)) ≡ p ∷ split c rest
unfolding split
split-append c [] rest h = ground arith
split-append c (x ∷ p) rest h = ground (arith, split-append c p rest h.1)

-- Pieces without the separator are found again.
pub split-join :
    (c : ℕ) (p : Text) (ps : List Text)
    → All (Without c) (p ∷ ps)
    → split c (join c (p ∷ ps)) ≡ p ∷ ps
unfolding join
split-join c p [] h = split-Without c p h.0
split-join c p (q ∷ ps) h =
    split-append c p (join c (q ∷ ps)) h.0 ∙ ap (◌∷◌ p) (split-join c q ps h.1)
