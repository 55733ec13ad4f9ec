-- ===== src/Common/Map.antt =====
-- `HashMap` and `IndexMap` as association lists in iteration order.
use mathlib.Core.Logic.{inl, inr}
use anytls_rs_legacy.Common.Tests.{Bool-cases, if◌then◌else◌}
use anytls_rs_legacy.Common.Lists.{All-mono, All, length}
use anytls_rs_legacy.Common.Keys.{Key}
use Prim.Native.Nat.{◌+◌, ◌≤◌}
use mathlib.Core.Path.{sym, subst, ◌≡◌, refl}
use mathlib.Core.Bool.{Bool, true, false}
use mathlib.Core.Option.{Option, none, some}
use mathlib.Core.List.{List, [], ◌∷◌}
use native.Mathlib.Omega.{arith}

abbrev pub Map : Type 0 → Type 0 → Type 0
Map K V = List (K × V)

abbrev pub change : {V : Type 0} → (V → V) → Option V → Option V
change f none = none
change f (some v) = some (f v)

module _ {K V : Type 0} ⦃k : Key K⦄ where
  unfoldable pub lookup : K → Map K V → Option V
  lookup a [] = none
  lookup a ((b, v) ∷ m) = if k.same b a then some v else lookup a m

  -- An old key keeps its place, a new one goes to the end.
  unfoldable pub insert : K → V → Map K V → Map K V
  insert a v [] = (a, v) ∷ []
  insert a v ((b, w) ∷ m) = if k.same b a then (b, v) ∷ m else (b, w) ∷ insert a v m

  unfoldable pub remove : K → Map K V → Map K V
  remove a [] = []
  remove a ((b, w) ∷ m) = if k.same b a then remove a m else (b, w) ∷ remove a m

  unfoldable pub contains_key : K → Map K V → Bool
  contains_key a m = elim (lookup a m) [ none ↦ false | some _ ↦ true ]

  pub lookup-insert :
      (a b : K) (v : V) (m : Map K V)
      → lookup b (insert a v m) ≡ (if k.same a b then some v else lookup b m)
  unfolding lookup insert
  lookup-insert a b v [] = refl
  lookup-insert a b v ((c, w) ∷ m) =
      ground (arith, k.same_iff a b, k.same_iff c a, k.same_iff c b, lookup-insert a b v m)

  pub lookup-remove :
      (a b : K) (m : Map K V) → lookup b (remove a m) ≡ (if k.same a b then none else lookup b m)
  unfolding lookup remove
  lookup-remove a b [] = ground arith
  lookup-remove a b ((c, w) ∷ m) =
      ground (arith, k.same_iff a b, k.same_iff c a, k.same_iff c b, lookup-remove a b m)

  pub length-insert_new :
      (a : K) (v : V) (m : Map K V) → lookup a m ≡ none → length (insert a v m) ≡ length m + 1
  unfolding lookup insert
  length-insert_new a v [] h = omega arith
  length-insert_new a v ((c, w) ∷ m) h = ground (arith, length-insert_new a v m)

  pub length-remove-le : (a : K) (m : Map K V) → length (remove a m) ≤ length m
  unfolding remove
  length-remove-le a [] = omega arith
  length-remove-le a ((c, w) ∷ m) = ground (arith, length-remove-le a m)

  -- `get_mut` with a change, and `iter_mut` with the same change to every value.
  unfoldable pub update : K → (V → V) → Map K V → Map K V
  update a f [] = []
  update a f ((b, w) ∷ m) = if k.same b a then (b, f w) ∷ m else (b, w) ∷ update a f m

  unfoldable pub update_all : (V → V) → Map K V → Map K V
  update_all f [] = []
  update_all f ((b, w) ∷ m) = (b, f w) ∷ update_all f m

  pub lookup-update :
      (a b : K) (f : V → V) (m : Map K V)
      → lookup b (update a f m) ≡ (if k.same a b then change f (lookup b m) else lookup b m)
  unfolding lookup update
  lookup-update a b f [] = ground arith
  lookup-update a b f ((c, w) ∷ m) =
      ground (arith, k.same_iff a b, k.same_iff c a, k.same_iff c b, lookup-update a b f m)

  pub lookup-update_all :
      (b : K) (f : V → V) (m : Map K V) → lookup b (update_all f m) ≡ change f (lookup b m)
  unfolding lookup update_all
  lookup-update_all b f [] = refl
  lookup-update_all b f ((c, w) ∷ m) = ground (arith, lookup-update_all b f m)

  -- What holds of every entry holds of the one that a lookup finds, and after an insertion that keeps it.
  pub All-lookup :
      (P : K × V → Type 0) (a : K) (v : V) (m : Map K V) → All P m → lookup a m ≡ some v → P (a, v)
  unfolding lookup
  All-lookup P a v [] h e = absurd (ground arith)
  All-lookup P a v ((b, w) ∷ m) h e = elim (Bool-cases (k.same b a)) [
    | inl t ↦
        let here : w ≡ v = ground arith in
        let key = (k.same_iff b a).0 t in subst (λ (x : K × V). P x) (λ i. (key i, here i)) h.0
    | inr t ↦ All-lookup P a v m h.1 (ground arith)
  ]

  pub All-insert :
      (P : K × V → Type 0) (a : K) (v : V) (m : Map K V) → P (a, v) → All P m → All P (insert a v m)
  unfolding insert
  All-insert P a v [] p h = (p, tt)
  All-insert P a v ((b, w) ∷ m) p h = elim (Bool-cases (k.same b a)) [
    | inl t ↦ rw t (subst (λ (x : K). P (x, v)) (sym ((k.same_iff b a).0 t)) p, h.1)
    | inr t ↦ rw t (h.0, All-insert P a v m p h.1)
  ]

  -- Every key that stands in a map is found.
  pub All-contains_key : (m : Map K V) → All (λ e. contains_key e.0 m ≡ true) m
  unfolding contains_key lookup
  All-contains_key [] = tt
  All-contains_key ((a, v) ∷ m) = (
    ground (arith, k.same_iff a a),
    All-mono (λ (e : K × V) h. ground (arith, h)) m (All-contains_key m),
  )

  -- No key stands in a map twice.
  abbrev pub IsUnique : Map K V → Type 0
  IsUnique [] = Unit
  IsUnique ((a, v) ∷ m) = (lookup a m ≡ none) × IsUnique m

  pub insert-IsUnique : (a : K) (v : V) (m : Map K V) → IsUnique m → IsUnique (insert a v m)
  unfolding insert lookup
  insert-IsUnique a v [] u = (refl, tt)
  insert-IsUnique a v ((b, w) ∷ m) u = elim (Bool-cases (k.same b a)) [
    | inl t ↦ rw t u
    | inr t ↦ rw t (
      ground (arith, lookup-insert a b v m, k.same_iff a b, k.same_iff b a),
      insert-IsUnique a v m u.1,
    )
  ]

  pub remove-IsUnique : (a : K) (m : Map K V) → IsUnique m → IsUnique (remove a m)
  unfolding remove
  remove-IsUnique a [] u = tt
  remove-IsUnique a ((b, w) ∷ m) u = elim (Bool-cases (k.same b a)) [
    | inl t ↦ rw t (remove-IsUnique a m u.1)
    | inr t ↦ rw t (ground (arith, lookup-remove a b m), remove-IsUnique a m u.1)
  ]

  pub update-IsUnique : (a : K) (f : V → V) (m : Map K V) → IsUnique m → IsUnique (update a f m)
  unfolding update
  update-IsUnique a f [] u = tt
  update-IsUnique a f ((b, w) ∷ m) u = elim (Bool-cases (k.same b a)) [
    | inl t ↦ rw t u
    | inr t ↦ rw t (ground (arith, lookup-update a b f m), update-IsUnique a f m u.1)
  ]
