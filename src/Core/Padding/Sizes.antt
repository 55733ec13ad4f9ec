-- ===== src/Core/Padding/Sizes.antt =====
-- src/core/padding.rs: what a well-formed entry of a scheme means.
use anytls_rs_legacy.Common.{
  ℕ, suc, ◌-◌, ◌%◌, ◌^◌, ◌<◌, ◌≤◌, ◌≡◌, refl, ◌≢◌, false, some, List, [], ◌∷◌, ◌++◌, map, Text,
  text_key, text_same, if◌then◌else◌, ◌==◌, arith, All, All-append, All-mono,
}
use anytls_rs_legacy.Common.Int.{ℤ, pos, negsuc}
use anytls_rs_legacy.Common.Map.{lookup}
use anytls_rs_legacy.Core.Text.{join, to_string}
use anytls_rs_legacy.Core.Text.Lines.{split_once-append, split-join}
use anytls_rs_legacy.Core.Text.Decimal.{
  IsDigit, to_string-IsDigit, to_string-head, parse_i64-to_string,
}
use anytls_rs_legacy.Core.Padding.{
  PaddingFactory, Rng, check_mark, range_size, item_size, item_sizes, generate_record_payload_sizes,
}

-- An item of an entry: `c`, or a range `lo-hi`.
pub data Item : Type 0 where
  check : Item
  range : ℕ → ℕ → Item

abbrev pub print_item : Item → Text
print_item check = b'c' ∷ []
print_item (range lo hi) = to_string lo ++ (b'-' ∷ to_string hi)

-- The ranges that an `i32` can hold.
abbrev pub IsItem : Item → Type 0
IsItem check = Unit {0}
IsItem (range lo hi) = (0 < lo) × (lo ≤ hi) × (hi < 2 ^ 31)

-- What the generator returned is in the range that it was asked for.
abbrev pub InRange : Rng → Type 0
InRange rng = (i lo hi : ℕ) → lo ≤ hi → (lo ≤ rng i lo hi) × (rng i lo hi ≤ hi)

abbrev pub draw : Rng → ℕ → Item → ℤ
draw rng i check = check_mark
draw rng i (range lo hi) = pos (if lo == hi then lo else rng i lo hi)

abbrev pub draws : Rng → ℕ → List Item → List ℤ
draws rng i [] = []
draws rng i (t ∷ ts) = draw rng i t ∷ draws rng (suc i) ts

range_size-draw :
    (rng : Rng) (i lo hi : ℕ)
    → InRange rng
    → IsItem (range lo hi)
    → range_size rng i (pos lo) (pos hi) ≡ draw rng i (range lo hi) ∷ []
unfolding range_size
range_size-draw rng i lo hi r h = ground (arith, r i lo hi h.1)

no_dash : (n : ℕ) → All (λ c. c ≢ b'-') (to_string n)
no_dash n = All-mono (λ c (h : IsDigit c). omega arith) (to_string n) (to_string-IsDigit n)

not_check : (n : ℕ) (rest : Text) → text_same (to_string n ++ rest) (b'c' ∷ []) ≡ false
unfolding text_same
not_check n rest = let (d, t, q, hd) = to_string-head n in rw q (ground arith)

item_size-print_item :
    (rng : Rng) (i : ℕ) (t : Item)
    → InRange rng
    → IsItem t
    → item_size rng i (print_item t) ≡ draw rng i t ∷ []
unfolding item_size
item_size-print_item rng i check r h = unfold text_same in refl
item_size-print_item rng i (range lo hi) r h =
    rw
      (
        not_check lo (b'-' ∷ to_string hi),
        split_once-append b'-' (to_string lo) (to_string hi) (no_dash lo),
        parse_i64-to_string lo (omega arith),
        parse_i64-to_string hi (omega arith),
      )
      (range_size-draw rng i lo hi r h)

item_sizes-print :
    (rng : Rng) (i : ℕ) (ts : List Item)
    → InRange rng
    → All IsItem ts
    → item_sizes rng i (map print_item ts) ≡ draws rng i ts
unfolding item_sizes
item_sizes-print rng i [] r h = refl
item_sizes-print rng i (t ∷ ts) r h =
    rw (item_size-print_item rng i t r h.0, item_sizes-print rng (suc i) ts r h.1)

print_item-no_comma : (t : Item) → All (λ c. c ≢ b',') (print_item t)
print_item-no_comma check = omega arith
print_item-no_comma (range lo hi) =
    All-append (λ c. c ≢ b',') (to_string lo) (b'-' ∷ to_string hi) (digits lo)
      (omega arith, digits hi)
  where
    digits : (n : ℕ) → All (λ c. c ≢ b',') (to_string n)
    digits n = All-mono (λ c (h : IsDigit c). omega arith) (to_string n) (to_string-IsDigit n)

items-no_comma : (ts : List Item) → All (All (λ c. c ≢ b',')) (map print_item ts)
items-no_comma [] = tt
items-no_comma (t ∷ ts) = (print_item-no_comma t, items-no_comma ts)

-- An entry of a scheme that lists one item or more, printed with commas between them, whose ranges
-- are positive and fit an `i32`, gives one size for each item, in order, if the generator stays in
-- the ranges it is asked for: the check mark for `c`, and for a range a number that the generator
-- drew from it.
generate-draws :
    (f : PaddingFactory) (rng : Rng) (pkt : ℕ) (t : Item) (ts : List Item)
    → InRange rng
    → All IsItem (t ∷ ts)
    → lookup (to_string pkt) f.scheme ≡ some (join b',' (map print_item (t ∷ ts)))
    → generate_record_payload_sizes f rng pkt ≡ draws rng 0 (t ∷ ts)
unfolding generate_record_payload_sizes
generate-draws f rng pkt t ts r h e =
    rw (e, generate_record_payload_sizes)
      (rw (split-join b',' (print_item t) (map print_item ts) (items-no_comma (t ∷ ts)))
        (item_sizes-print rng 0 (t ∷ ts) r h))

-- The two ends of a range may be given in either order.
pub range_size_comm : (rng : Rng) (i : ℕ) (a b : ℤ) → range_size rng i a b ≡ range_size rng i b a
unfolding range_size
range_size_comm rng i (pos a) (pos b) = ground arith
range_size_comm rng i (pos a) (negsuc b) = refl
range_size_comm rng i (negsuc a) (pos b) = refl
range_size_comm rng i (negsuc a) (negsuc b) = ground arith

-- A range of one number beyond an `i32` does not keep it: where the low 32 bits are all set, the size
-- is taken for a check mark.
range_size_wraps :
    (rng : Rng) (i n : ℕ)
    → n % 2 ^ 32 ≡ 2 ^ 32 - 1
    → range_size rng i (pos n) (pos n) ≡ check_mark ∷ []
unfolding range_size
range_size_wraps rng i n h = ground arith
