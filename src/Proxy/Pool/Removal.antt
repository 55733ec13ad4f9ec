-- ===== src/Proxy/Pool/Removal.antt =====
-- src/proxy/session/client.rs: removing entries by index, from the last index to the first.
use mathlib.Core.List.{Perm}
use mathlib.Core.List.Perm
use anytls_rs_legacy.Common.{
  ℕ, zero, suc, ◌+◌, ◌<◌, ◌≤◌, ◌≡◌, refl, sym, ap, ◌∙◌, some, List, [], ◌∷◌, ◌++◌, arith, length,
  get_elem?,
}
use anytls_rs_legacy.Proxy.Pool.{Entry, Pool, split_last, swap_remove_index, remove_indices}

split_last-perm :
    (x : Entry) (xs : Pool) → Perm (x ∷ xs) ((split_last x xs).1 ∷ (split_last x xs).0)
unfolding split_last
split_last-perm x [] = Perm.refl _
split_last-perm x (y ∷ ys) = Perm.trans (Perm.cons x (split_last-perm y ys)) (Perm.swap _ _ _)

length-split_last : (x : Entry) (xs : Pool) → length (split_last x xs).0 ≡ length xs
unfolding split_last
length-split_last x [] = refl
length-split_last x (y ∷ ys) = omega (arith, length-split_last y ys)

-- What removing one entry does: the entry was at that index, the others stay, those before the index
-- at their places.
pub record Removes (pool : Pool) (i : ℕ) (e : Entry) (rest : Pool) : Type 0 where
  pub present : get_elem? pool i ≡ some e
  pub smaller : length pool ≡ suc (length rest)
  pub others : Perm pool (e ∷ rest)
  pub before : (j : ℕ) → j < i → get_elem? rest j ≡ get_elem? pool j

swap_remove_index-some :
    (pool : Pool) (i : ℕ)
    → i < length pool
    → (e : Entry) × (rest : Pool) × (swap_remove_index pool i ≡ some (e, rest))
      × Removes pool i e rest
unfolding swap_remove_index
swap_remove_index-some [] i h = absurd (omega arith)
swap_remove_index-some (x ∷ []) zero h = (
  x,
  [],
  refl,
  record {
    present = refl;
    smaller = refl;
    others = Perm.refl _;
    before = λ j k. absurd (omega arith);
  },
)
swap_remove_index-some (x ∷ y ∷ ys) zero h = (
  x,
  (split_last y ys).1 ∷ (split_last y ys).0,
  refl,
  record {
    present = refl;
    smaller = omega (arith, length-split_last y ys);
    others = Perm.cons x (split_last-perm y ys);
    before = λ j k. absurd (omega arith);
  },
)
swap_remove_index-some (x ∷ []) (suc i) h = absurd (omega arith)
swap_remove_index-some (x ∷ y ∷ ys) (suc i) h =
    let (e, rest, q, r) = swap_remove_index-some (y ∷ ys) i (omega arith) in
    (
      e,
      x ∷ rest,
      rw (q, swap_remove_index),
      record {
        present = r.present;
        smaller = ap suc r.smaller;
        others = Perm.trans (Perm.cons x r.others) (Perm.swap _ _ _);
        before = before' x (y ∷ ys) rest i r.before;
      },
    )
  where
    before' :
        (x : Entry) (pool rest : Pool) (i : ℕ)
        → ((j : ℕ) → j < i → get_elem? rest j ≡ get_elem? pool j)
        → (j : ℕ) → j < suc i
        → get_elem? (x ∷ rest) j ≡ get_elem? (x ∷ pool) j
    before' x pool rest i f zero k = refl
    before' x pool rest i f (suc j) k = f j (omega arith)

-- Indices that fall, all below the bound.
abbrev pub Falling : ℕ → List ℕ → Type 0
Falling n [] = Unit {0}
Falling n (i ∷ is) = (i < n) × Falling i is

abbrev pub At : Pool → List ℕ → List Entry → Type 0
At pool [] [] = Unit {0}
At pool [] (e ∷ es) = ⊥
At pool (i ∷ is) [] = ⊥
At pool (i ∷ is) (e ∷ es) = (get_elem? pool i ≡ some e) × At pool is es

At-before :
    (pool rest : Pool) (n : ℕ) (is : List ℕ) (es : List Entry)
    → ((j : ℕ) → j < n → get_elem? rest j ≡ get_elem? pool j)
    → Falling n is
    → At rest is es
    → At pool is es
At-before pool rest n [] [] f d a = tt
At-before pool rest n [] (e ∷ es) f d a = absurd a
At-before pool rest n (i ∷ is) [] f d a = absurd a
At-before pool rest n (i ∷ is) (e ∷ es) f d a =
    (sym (f i d.0) ∙ a.0, At-before pool rest i is es (λ j h. f j (omega arith)) d.1 a.1)

-- Removing the entries at falling indices takes out the entries that stood there before, and no other.
pub remove_indices-At :
    (pool : Pool) (n : ℕ) (is : List ℕ)
    → n ≤ length pool
    → Falling n is
    → At pool is (remove_indices is pool).0
      × (length pool ≡ length is + length (remove_indices is pool).1)
      × Perm pool ((remove_indices is pool).0 ++ (remove_indices is pool).1)
unfolding remove_indices
remove_indices-At pool n [] h d = (tt, omega arith, Perm.refl _)
remove_indices-At pool n (i ∷ is) h d =
    let (e, rest, q, r) = swap_remove_index-some pool i (omega arith) in
    let size = r.smaller in
    let (a, l, p) = remove_indices-At rest i is (omega arith) d.1 in
    rw (q, remove_indices)
      (
        (r.present, At-before pool rest i is (remove_indices is rest).0 r.before d.1 a),
        omega arith,
        Perm.trans r.others (Perm.cons e p),
      )
