-- ===== src/Core/Text/Strict.antt =====
-- `str::from_utf8`, `trim_end_matches` and `trim` of the standard library, on the characters of a text,
-- each with its UTF-8 bytes.
use anytls_rs_legacy.Common.{
  ℕ, ◌-◌, Bool, true, false, ◌&&◌, ◌||◌, Option, none, some, List, [], ◌∷◌, ◌++◌, ltb, leb, ◌==◌,
  if◌then◌else◌, Text, ◌≡◌, refl, All, arith, map,
}
use anytls_rs_legacy.Core.Text.{Pending, start, more, lead}
use anytls_rs_legacy.Core.Text.Utf8.{IsAscii}

abbrev push_char : Text → Option (List Text) → Option (List Text)
push_char c none = none
push_char c (some cs) = some (c ∷ cs)

chars_from : Pending → Text → Option (List Text)
chars_from start [] = some []
chars_from (more n lo hi acc) [] = none
chars_from start (b ∷ bs) =
    if ltb b 0x80
    then push_char (b ∷ []) (chars_from start bs)
    else elim (lead b).1 [ start ↦ none | more n lo hi acc ↦ chars_from (more n lo hi acc) bs ]
chars_from (more n lo hi acc) (b ∷ bs) =
    let c = acc ++ b ∷ [] in
    if leb lo b && leb b hi
    then (if leb n 1
        then push_char c (chars_from start bs)
        else chars_from (more (n - 1) 0x80 0xbf c) bs)
    else none

unfoldable pub from_utf8 : Text → Option (List Text)
unfolding chars_from
from_utf8 b = chars_from start b

-- `char::is_whitespace`: the space, the tab and the line ends of ASCII, and the two-byte and three-byte
-- characters of Unicode with the property White_Space.
abbrev pub is_whitespace : Text → Bool
is_whitespace (a ∷ []) = (a == 32) || (leb 9 a && leb a 13)
is_whitespace (a ∷ b ∷ []) = (a == 0xc2) && ((b == 0x85) || (b == 0xa0))
is_whitespace (a ∷ b ∷ c ∷ []) =
    ((a == 0xe1) && (b == 0x9a) && (c == 0x80))
    || ((a == 0xe2) && (b == 0x80) && (leb c 0x8a || (c == 0xa8) || (c == 0xa9) || (c == 0xaf)))
    || ((a == 0xe2) && (b == 0x81) && (c == 0x9f))
    || ((a == 0xe3) && (b == 0x80) && (c == 0x80))
is_whitespace cs = false

module _ (p : Text → Bool) where
  unfoldable pub trim_front : List Text → List Text
  trim_front [] = []
  trim_front (c ∷ cs) = let rest = trim_front cs in if p c then rest else c ∷ cs

  push_back : Text → List Text → List Text
  push_back c [] = if p c then [] else c ∷ []
  push_back c (d ∷ ds) = c ∷ d ∷ ds

  unfoldable pub trim_back : List Text → List Text
  unfolding push_back
  trim_back [] = []
  trim_back (c ∷ cs) = push_back c (trim_back cs)

  -- Characters that are not to be trimmed stay.
  pub trim_front-kept : (cs : List Text) → All (λ c. p c ≡ false) cs → trim_front cs ≡ cs
  unfolding trim_front
  trim_front-kept [] h = refl
  trim_front-kept (c ∷ cs) h = rw (h.0) refl

  pub trim_back-kept : (cs : List Text) → All (λ c. p c ≡ false) cs → trim_back cs ≡ cs
  unfolding trim_back
  trim_back-kept [] h = refl
  trim_back-kept (c ∷ cs) h = ground (arith, trim_back-kept cs h.1, h.0)

  pub trim_back_matching : (cs : List Text) → All (λ c. p c ≡ true) cs → trim_back cs ≡ []
  unfolding trim_back
  trim_back_matching [] h = refl
  trim_back_matching (c ∷ cs) h = ground (arith, trim_back_matching cs h.1, h.0)

abbrev pub one_char : ℕ → Text
one_char b = b ∷ []

-- ASCII is valid, with one byte to a character.
pub from_utf8_ascii : (t : Text) → IsAscii t → from_utf8 t ≡ some (map one_char t)
unfolding from_utf8
from_utf8_ascii [] h = refl
from_utf8_ascii (c ∷ cs) h = ground (arith, from_utf8_ascii cs h.1)
