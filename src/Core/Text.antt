-- ===== src/Core/Text.antt =====
-- The text functions of the standard library that src/core calls, over the UTF-8 bytes of a text:
-- `from_utf8_lossy`, `lines`, `split`, `split_once`, `join`, and the decimal forms of integers.
pub mod Lines
pub mod Decimal
pub mod Utf8
pub mod Strict
pub mod Search
use anytls_rs_legacy.Common.{
  ℕ, zero, suc, ◌+◌, ◌-◌, ◌*◌, ◌/◌, ◌%◌, ◌^◌, ◌≡◌, Bool, true, false, ◌&&◌, ◌||◌, Option, none,
  some, List, [], ◌∷◌, ◌++◌, map, ltb, leb, ◌==◌, if◌then◌else◌, Text,
}
use anytls_rs_legacy.Common.Int.{ℤ, pos, negsuc}

-- The state of the decoder inside a character: how many bytes are missing, the range of the next
-- one, and the bytes taken so far.
pub data Pending : Type 0 where
  start : Pending
  more : ℕ → ℕ → ℕ → Text → Pending

abbrev replacement : Text
replacement = 0xef ∷ 0xbf ∷ 0xbd ∷ []

-- A byte at the start of a character.
unfoldable pub lead : ℕ → Text × Pending
lead b =
    if ltb b 0x80
    then (b ∷ [], start)
    else if leb 0xc2 b && leb b 0xdf
    then ([], more 1 0x80 0xbf (b ∷ []))
    else if b == 0xe0
    then ([], more 2 0xa0 0xbf (b ∷ []))
    else if b == 0xed
    then ([], more 2 0x80 0x9f (b ∷ []))
    else if leb 0xe1 b && leb b 0xef
    then ([], more 2 0x80 0xbf (b ∷ []))
    else if b == 0xf0
    then ([], more 3 0x90 0xbf (b ∷ []))
    else if leb 0xf1 b && leb b 0xf3
    then ([], more 3 0x80 0xbf (b ∷ []))
    else if b == 0xf4
    then ([], more 3 0x80 0x8f (b ∷ []))
    else (replacement, start)

-- A byte that cannot go on with a character ends it as malformed, and starts the next one.
decode_step : Pending → ℕ → Text × Pending
decode_step start b = lead b
decode_step (more n lo hi acc) b =
    if leb lo b && leb b hi
    then (if leb n 1 then (acc ++ b ∷ [], start) else ([], more (n - 1) 0x80 0xbf (acc ++ b ∷ [])))
    else (replacement ++ (lead b).0, (lead b).1)

decode : Pending → Text → Text
decode start [] = []
decode (more n lo hi acc) [] = replacement
decode p (b ∷ bs) = let r = decode_step p b in r.0 ++ decode r.1 bs

unfoldable pub from_utf8_lossy : List ℕ → Text
unfolding decode decode_step lead
from_utf8_lossy b = decode start b

-- A line with the mark whether a line feed ended it.
add_char : ℕ → List (Text × Bool) → List (Text × Bool)
add_char c rest =
    if c == 10
    then ([], true) ∷ rest
    else elim rest [ [] ↦ (c ∷ [], false) ∷ [] | (l, t) ∷ r ↦ (c ∷ l, t) ∷ r ]

split_inclusive : Text → List (Text × Bool)
split_inclusive [] = []
split_inclusive (c ∷ cs) = add_char c (split_inclusive cs)

-- Drops a carriage return at the end.
strip_cr : Text → Text
strip_cr [] = []
strip_cr (c ∷ []) = if c == 13 then [] else c ∷ []
strip_cr (c ∷ d ∷ cs) = c ∷ strip_cr (d ∷ cs)

abbrev finish_line : Text × Bool → Text
finish_line (l, true) = strip_cr l
finish_line (l, false) = l

unfoldable pub lines : Text → List Text
unfolding split_inclusive add_char strip_cr
lines t = map finish_line (split_inclusive t)

abbrev pub push_front : ℕ → Option (Text × Text) → Option (Text × Text)
push_front x none = none
push_front x (some (a, b)) = some (x ∷ a, b)

unfoldable pub split_once : ℕ → Text → Option (Text × Text)
split_once c [] = none
split_once c (x ∷ xs) = if x == c then some ([], xs) else push_front x (split_once c xs)

-- The pieces between the separators: one more than there are separators.
unfoldable pub split : ℕ → Text → List Text
split c [] = [] ∷ []
split c (x ∷ xs) =
    let rest = split c xs in
    if x == c then [] ∷ rest else elim rest [ [] ↦ (x ∷ []) ∷ [] | p ∷ ps ↦ (x ∷ p) ∷ ps ]

unfoldable pub join : ℕ → List Text → Text
join c [] = []
join c (l ∷ []) = l
join c (l ∷ m ∷ ls) = l ++ (c ∷ join c (m ∷ ls))

-- Twenty digits hold every `u64`.
unfoldable pub decimal : ℕ → ℕ → Text
decimal zero n = []
decimal (suc k) n =
    let front = decimal k (n / 10) in
    if ltb n 10 then (48 + n) ∷ [] else front ++ ((48 + n % 10) ∷ [])

unfoldable pub to_string : ℕ → Text
to_string n = decimal 20 n

digits_loop : ℕ → Text → Option ℕ
digits_loop acc [] = some acc
digits_loop acc (c ∷ cs) =
    let rest = digits_loop (acc * 10 + (c - 48)) cs in if leb 48 c && leb c 57 then rest else none

parse_digits : Text → Option ℕ
parse_digits [] = none
parse_digits (c ∷ cs) = digits_loop 0 (c ∷ cs)

abbrev below : ℕ → Option ℕ → Option ℕ
below bound none = none
below bound (some n) = if ltb n bound then some n else none

strip_plus : Text → Text
strip_plus [] = []
strip_plus (c ∷ cs) = if c == 43 then cs else c ∷ cs

-- `parse` of an unsigned type with the values below the bound. A lone sign is refused.
unfoldable pub parse_uint : ℕ → Text → Option ℕ
unfolding parse_digits digits_loop strip_plus
parse_uint bound t = below bound (parse_digits (strip_plus t))

negated : ℕ → ℤ
negated zero = pos 0
negated (suc n) = negsuc n

unfoldable pub parse_i64 : Text → Option ℤ
unfolding parse_digits digits_loop strip_plus negated
parse_i64 [] = none
parse_i64 (c ∷ cs) =
    if c == 45
    then elim (below (2 ^ 63 + 1) (parse_digits cs)) [ none ↦ none | some n ↦ some (negated n) ]
    else elim (below (2 ^ 63) (parse_digits (strip_plus (c ∷ cs)))) [
      | none ↦ none
      | some n ↦ some (pos n)
    ]
