-- ===== src/Core/Text/Decimal.antt =====
-- Printing a number and parsing it gives it back.
use anytls_rs_legacy.Common.{
  All-append, All, ℕ, zero, suc, ◌+◌, ◌-◌, ◌*◌, ◌/◌, ◌%◌, ◌^◌, ◌<◌, ◌≤◌, ◌≡◌, refl, ◌∙◌, some, inl,
  inr, [], ◌∷◌, ◌++◌, ltb, if◌then◌else◌, Text, arith, Bool-cases, ltb→lt,
}
use native.Mathlib.Nat.{pow-suc}
use anytls_rs_legacy.Common.Int.{pos}
use anytls_rs_legacy.Core.Text.{
  decimal, to_string, digits_loop, parse_digits, strip_plus, parse_uint, parse_i64,
}

digits_loop-append :
    (acc : ℕ) (xs : Text) (d n : ℕ)
    → digits_loop acc xs ≡ some n
    → d < 10
    → digits_loop acc (xs ++ ((48 + d) ∷ [])) ≡ some (n * 10 + d)
unfolding digits_loop
digits_loop-append acc [] d n h hd = ground arith
digits_loop-append acc (x ∷ xs) d n h hd =
    ground (arith, digits_loop-append (acc * 10 + (x - 48)) xs d n)

decimal_step :
    (k n : ℕ)
    → decimal (suc k) n
      ≡ (if ltb n 10 then (48 + n) ∷ [] else decimal k (n / 10) ++ ((48 + n % 10) ∷ []))
unfolding decimal
decimal_step k n = refl

digits_loop-decimal : (k n : ℕ) → n < 10 ^ suc k → digits_loop 0 (decimal (suc k) n) ≡ some n
digits_loop-decimal zero n h = rw decimal_step (unfold digits_loop in ground arith)
digits_loop-decimal (suc k) n h = rw decimal_step (elim (Bool-cases (ltb n 10)) [
  | inl e ↦ rw e (unfold digits_loop in ground arith)
  | inr e ↦ rw e (
      digits_loop-append 0 (decimal (suc k) (n / 10)) (n % 10) (n / 10)
        (digits_loop-decimal k (n / 10) (omega (arith, pow-suc 10 (suc k)))) (omega arith)
      ∙ ground arith)
])

-- A printed number begins with a digit.
decimal-head : (k n : ℕ) → (d : ℕ) × (t : Text) × (decimal (suc k) n ≡ (48 + d) ∷ t) × (d < 10)
unfolding decimal
decimal-head zero n = elim (Bool-cases (ltb n 10)) [
  | inl e ↦ (n, [], rw (decimal_step, e), ltb→lt n 10 e)
  | inr e ↦ (n % 10, [], rw (decimal_step, e, decimal), omega arith)
]
decimal-head (suc k) n = elim (Bool-cases (ltb n 10)) [
  | inl e ↦ (n, [], rw (decimal_step, e), ltb→lt n 10 e)
  | inr e ↦
      let (d, t, q, h) = decimal-head k (n / 10) in
      (d, t ++ ((48 + n % 10) ∷ []), rw (decimal_step, e, q), h)
]

parse_digits-decimal :
    (k n : ℕ) → n < 10 ^ suc k → parse_digits (strip_plus (decimal (suc k) n)) ≡ some n
parse_digits-decimal k n h =
    let (d, t, q, hd) = decimal-head k n in
    rw q (unfold strip_plus parse_digits in ground (arith, digits_loop-decimal k n h, q))

-- A number below the bound of an unsigned type is parsed back from its decimal form.
pub parse_uint-to_string :
    (bound n : ℕ) → n < bound → bound ≤ 10 ^ 20 → parse_uint bound (to_string n) ≡ some n
unfolding parse_uint to_string
parse_uint-to_string bound n h hb = rw (parse_digits-decimal 19 n (omega arith)) (ground arith)

abbrev pub IsDigit : ℕ → Type 0
IsDigit c = (48 ≤ c) × (c ≤ 57)

decimal-IsDigit : (k n : ℕ) → All IsDigit (decimal k n)
decimal-IsDigit zero n = unfold decimal in tt
decimal-IsDigit (suc k) n = rw decimal_step (elim (Bool-cases (ltb n 10)) [
  | inl e ↦ rw e (ground arith)
  | inr e ↦ rw e (
      All-append IsDigit (decimal k (n / 10)) ((48 + n % 10) ∷ []) (decimal-IsDigit k (n / 10))
        (omega arith, tt))
])

pub to_string-IsDigit : (n : ℕ) → All IsDigit (to_string n)
unfolding to_string
to_string-IsDigit n = decimal-IsDigit 20 n

-- The first character of a printed number, to tell it from a word.
pub to_string-head : (n : ℕ) → (d : ℕ) × (t : Text) × (to_string n ≡ (48 + d) ∷ t) × (d < 10)
unfolding to_string
to_string-head n = decimal-head 19 n

pub parse_i64-to_string : (n : ℕ) → n < 2 ^ 63 → parse_i64 (to_string n) ≡ some (pos n)
unfolding to_string
parse_i64-to_string n h =
    let (d, t, q, hd) = decimal-head 19 n in
    rw q (unfold parse_i64 in ground (arith, parse_digits-decimal 19 n (omega arith), q))
