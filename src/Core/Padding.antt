-- ===== src/Core/Padding.antt =====
-- src/core/padding.rs: a padding scheme, and the record sizes that it gives for a packet. The digest
-- of a scheme (crate md5) is a parameter, and so is the random draw: `rng i min max` is what
-- `random_range(min..=max)` returns for the range at place `i` of the entry.
pub mod Sizes
use anytls_rs_legacy.Common.{
  ℕ, zero, suc, ◌+◌, ◌^◌, Bool, true, false, ◌&&◌, Option, none, some, List, [], ◌∷◌, ◌++◌, ltb,
  Text, codes, text_key, text_same, if◌then◌else◌, ◌==◌,
}
use anytls_rs_legacy.Common.Int.{ℤ, pos, negsuc, min_ℤ, max_ℤ, as_i32}
use anytls_rs_legacy.Common.Map.{lookup}
use anytls_rs_legacy.Common.Bytes.{Bytes}
use anytls_rs_legacy.Core.Text.{split, split_once, to_string, parse_uint, parse_i64}
use anytls_rs_legacy.Core.StringMap.{StringMap, from_bytes}

abbrev pub check_mark : ℤ
check_mark = negsuc 0

-- The lines are joined by line feeds in the source's literal.
abbrev pub default_padding_scheme : Text
default_padding_scheme =
    codes "stop=8"
    ++ (10 ∷ codes "0=30-30")
    ++ (10 ∷ codes "1=100-400")
    ++ (10 ∷ codes "2=400-500,c,500-1000,c,500-1000,c,500-1000,c,500-1000")
    ++ (10 ∷ codes "3=9-9,500-1000")
    ++ (10 ∷ codes "4=500-1000")
    ++ (10 ∷ codes "5=500-1000")
    ++ (10 ∷ codes "6=500-1000")
    ++ (10 ∷ codes "7=500-1000")

pub record PaddingFactory : Type 0 where
  pub scheme : StringMap
  pub raw_scheme : Bytes
  pub stop : ℕ
  pub md5 : Text

module _ (md5_hex : Bytes → Text) where
  unfoldable pub factory_of : StringMap → Bytes → Option PaddingFactory
  factory_of scheme raw = elim (lookup (codes "stop") scheme) [
    | none ↦ none
    | some value ↦ elim (parse_uint (2 ^ 32) value) [
      | none ↦ none
      | some stop ↦
          some (record { scheme = scheme; raw_scheme = raw; stop = stop; md5 = md5_hex raw })
    ]
  ]

  -- An empty scheme has no entry `stop` either; the source tests for it first.
  unfoldable pub new_factory : Bytes → Option PaddingFactory
  new_factory raw = elim (from_bytes raw) [
    | [] ↦ none
    | entry ∷ rest ↦ factory_of (entry ∷ rest) raw
  ]

abbrev pub Rng : Type 0
Rng = ℕ → ℕ → ℕ → ℕ

-- The size drawn from the range between two parsed numbers, in either order.
unfoldable pub range_size : Rng → ℕ → ℤ → ℤ → List ℤ
range_size rng i a b = elim (min_ℤ a b) [
  | negsuc _ ↦ []
  | pos lo ↦ elim (max_ℤ a b) [
    | negsuc _ ↦ []
    | pos hi ↦
        if ltb 0 lo && ltb 0 hi
        then (if lo == hi then as_i32 lo ∷ [] else as_i32 (rng i lo hi) ∷ [])
        else []
  ]
]

unfoldable pub item_size : Rng → ℕ → Text → List ℤ
item_size rng i s_range =
    if text_same s_range (b'c' ∷ []) then check_mark ∷ [] else elim (split_once b'-' s_range) [
      | none ↦ []
      | some (min_str, max_str) ↦ elim (parse_i64 min_str) [
        | none ↦ []
        | some a ↦ elim (parse_i64 max_str) [ none ↦ [] | some b ↦ range_size rng i a b ]
      ]
    ]

unfoldable pub item_sizes : Rng → ℕ → List Text → List ℤ
item_sizes rng i [] = []
item_sizes rng i (r ∷ rs) = item_size rng i r ++ item_sizes rng (suc i) rs

unfoldable pub generate_record_payload_sizes : PaddingFactory → Rng → ℕ → List ℤ
generate_record_payload_sizes f rng pkt = elim (lookup (to_string pkt) f.scheme) [
  | none ↦ []
  | some s ↦ item_sizes rng 0 (split b',' s)
]
