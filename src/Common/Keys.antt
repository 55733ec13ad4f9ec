-- ===== src/Common/Keys.antt =====
-- Keys that can be compared, and text as the list of its UTF-8 bytes.
use Prim.Native.Nat.{ℕ}
use Prim.Native.Char.{code}
use Prim.Native.String.{String}
use mathlib.Core.Path.{◌≡◌, refl}
use mathlib.Core.Logic.{◌↔◌}
use mathlib.Core.Bool.{Bool, true, false, ◌&&◌}
use mathlib.Core.List.{List, [], ◌∷◌}
use native.Mathlib.Omega.{arith}
use anytls_rs_legacy.Common.Tests.{◌==◌, ==_iff}

abbrev pub Text : Type 0
Text = List ℕ

-- The bytes of an ASCII literal.
abbrev pub codes : String → Text
codes String.[] = []
codes (String.◌∷◌ c s) = code c ∷ codes s

pub record Key (K : Type 0) : Type 0 where
  pub same : K → K → Bool
  pub same_iff : (a b : K) → (same a b ≡ true) ↔ (a ≡ b)

unfoldable pub text_same : Text → Text → Bool
text_same [] [] = true
text_same [] (b ∷ bs) = false
text_same (a ∷ as') [] = false
text_same (a ∷ as') (b ∷ bs) = a == b && text_same as' bs

text_same→eq : (a b : Text) → text_same a b ≡ true → a ≡ b
unfolding text_same
text_same→eq [] [] h = refl
text_same→eq [] (b ∷ bs) h = cc
text_same→eq (a ∷ as') [] h = cc
text_same→eq (a ∷ as') (b ∷ bs) h = ground (arith, text_same→eq as' bs)

text_same_refl : (a : Text) → text_same a a ≡ true
unfolding text_same
text_same_refl [] = refl
text_same_refl (a ∷ as') = ground (arith, text_same_refl as')

pub text_same_iff : (a b : Text) → (text_same a b ≡ true) ↔ (a ≡ b)
text_same_iff a b = (text_same→eq a b, λ e. rw (e) (text_same_refl b))

instance abbrev pub nat_key : Key ℕ
nat_key = record { same = ◌==◌; same_iff = ==_iff }

instance abbrev pub text_key : Key Text
text_key = record { same = text_same; same_iff = text_same_iff }
