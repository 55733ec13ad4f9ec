-- ===== src/Proxy/Pool/Cleanup.antt =====
-- src/proxy/session/client.rs, `cleanup_stale`: which sessions the periodic cleanup ends.
use mathlib.Core.List.{Perm}
use mathlib.Core.List.Perm
use anytls_rs_legacy.Common.{
  if◌then◌else◌, ℕ, zero, suc, ◌+◌, ◌-◌, ◌<◌, ◌≤◌, ◌≡◌, refl, ap, inl, inr, min, Option, none, some,
  List, [], ◌∷◌, ◌++◌, arith, length, get_elem?, take, All, Bool-cases, leb, length-take, All-mono,
}
use anytls_rs_legacy.Proxy.Pool.{
  Entry, Pool, is_stale, timed_out_indices, reverse_onto, remove_indices, stale_split,
}
use anytls_rs_legacy.Proxy.Pool.Removal.{Falling, At, remove_indices-At}

-- Indices that rise from `lo` on, below `n`.
abbrev Rising : ℕ → ℕ → List ℕ → Type 0
Rising lo n [] = Unit {0}
Rising lo n (i ∷ is) = (lo ≤ i) × (i < n) × Rising (suc i) n is

Rising-mono : (lo lo' n : ℕ) (is : List ℕ) → lo ≤ lo' → Rising lo' n is → Rising lo n is
Rising-mono lo lo' n [] h r = tt
Rising-mono lo lo' n (i ∷ is) h r = (omega arith, r.1, r.2)

Rising-take : (k lo n : ℕ) (is : List ℕ) → Rising lo n is → Rising lo n (take k is)
Rising-take zero lo n is r = tt
Rising-take (suc k) lo n [] r = tt
Rising-take (suc k) lo n (i ∷ is) r = (r.0, r.1, Rising-take k (suc i) n is r.2)

Falling-mono : (n m : ℕ) (is : List ℕ) → n ≤ m → Falling n is → Falling m is
Falling-mono n m [] h f = tt
Falling-mono n m (i ∷ is) h f = (omega arith, f.1)

reverse_onto-Falling :
    (acc is : List ℕ) (lo n : ℕ)
    → lo ≤ n
    → Falling lo acc
    → Rising lo n is
    → Falling n (reverse_onto acc is)
unfolding reverse_onto
reverse_onto-Falling acc [] lo n h f r = Falling-mono lo n acc h f
reverse_onto-Falling acc (i ∷ is) lo n h f r =
    reverse_onto-Falling (i ∷ acc) is (suc i) n r.1 (omega arith, Falling-mono lo i acc r.0 f) r.2

length-reverse_onto : (acc is : List ℕ) → length (reverse_onto acc is) ≡ length is + length acc
unfolding reverse_onto
length-reverse_onto acc [] = omega arith
length-reverse_onto acc (i ∷ is) = omega (arith, length-reverse_onto (i ∷ acc) is)

reverse_onto-All :
    (P : ℕ → Type 0) (acc is : List ℕ) → All P acc → All P is → All P (reverse_onto acc is)
unfolding reverse_onto
reverse_onto-All P acc [] h k = h
reverse_onto-All P acc (i ∷ is) h k = reverse_onto-All P (i ∷ acc) is (k.0, h) k.1

take-All : (P : ℕ → Type 0) (k : ℕ) (is : List ℕ) → All P is → All P (take k is)
take-All P zero is h = tt
take-All P (suc k) [] h = tt
take-All P (suc k) (i ∷ is) h = (h.0, take-All P k is h.1)

module _ (timeout now : ℕ) where
  abbrev pub IsStale : Entry → Type 0
  IsStale e = timeout ≤ now - e.idle_since

  abbrev FoundStale : Option Entry → Type 0
  FoundStale none = ⊥
  FoundStale (some e) = IsStale e

  -- A stale entry stands at the index, counted from `lo`.
  abbrev StaleAt : ℕ → Pool → ℕ → Type 0
  StaleAt lo pool i = (lo ≤ i) × FoundStale (get_elem? pool (i - lo))

  timed_out-Rising :
      (lo n : ℕ) (pool : Pool)
      → lo + length pool ≡ n
      → Rising lo n (timed_out_indices timeout now lo pool)
  unfolding timed_out_indices
  timed_out-Rising lo n [] h = tt
  timed_out-Rising lo n (e ∷ es) h =
      let rest = timed_out-Rising (suc lo) n es (omega arith) in
      elim (Bool-cases (is_stale timeout now e)) [
        | inl q ↦ rw q (omega arith, omega arith, rest)
        | inr q ↦ rw q (
            Rising-mono lo (suc lo) n (timed_out_indices timeout now (suc lo) es) (omega arith)
              rest)
      ]

  StaleAt-cons :
      (lo : ℕ) (e : Entry) (es : Pool) (i : ℕ) → StaleAt (suc lo) es i → StaleAt lo (e ∷ es) i
  StaleAt-cons lo e es i (h, f) =
      let q : i - lo ≡ suc (i - suc lo) = omega arith in (omega arith, rw q f)

  timed_out-StaleAt :
      (lo : ℕ) (pool : Pool) → All (StaleAt lo pool) (timed_out_indices timeout now lo pool)
  unfolding timed_out_indices
  timed_out-StaleAt lo [] = tt
  timed_out-StaleAt lo (e ∷ es) =
      let rest =
        All-mono (StaleAt-cons lo e es) (timed_out_indices timeout now (suc lo) es)
          (timed_out-StaleAt (suc lo) es) in
      elim (Bool-cases (is_stale timeout now e)) [
        | inl q ↦
            let z : lo - lo ≡ 0 = omega arith in
            rw q ((omega arith, rw z (ground (arith, q))), rest)
        | inr q ↦ rw q rest
      ]

  At-IsStale :
      (pool : Pool) (is : List ℕ) (es : List Entry)
      → All (StaleAt 0 pool) is
      → At pool is es
      → All IsStale es × (length es ≡ length is)
  At-IsStale pool [] [] h a = (tt, refl)
  At-IsStale pool [] (e ∷ es) h a = absurd a
  At-IsStale pool (i ∷ is) [] h a = absurd a
  At-IsStale pool (i ∷ is) (e ∷ es) h a =
      let (rest, size) = At-IsStale pool is es h.1 a.1 in
      let z : i - 0 ≡ i = omega arith in
      let f : FoundStale (get_elem? pool i) = rw z at (h.0.1) in ((rw a.0 at f, rest), ap suc size)

  -- How many entries have been idle for the timeout or longer.
  unfoldable pub idle_too_long : Pool → ℕ
  idle_too_long [] = 0
  idle_too_long (e ∷ es) = (if leb timeout (now - e.idle_since) then 1 else 0) + idle_too_long es

  length-timed_out_indices :
      (index : ℕ) (pool : Pool)
      → length (timed_out_indices timeout now index pool) ≡ idle_too_long pool
  unfolding timed_out_indices idle_too_long
  length-timed_out_indices index [] = refl
  length-timed_out_indices index (e ∷ es) = ground (arith, length-timed_out_indices (suc index) es)

  -- The cleanup takes out entries only that have been idle for the timeout or longer: all of them, or as many as the pool has above the minimum that is kept, if that is less. It keeps all the others.
  pub stale_split_lem :
      (min_idle : ℕ) (pool : Pool)
      → let (removed, rest) = stale_split timeout min_idle now pool in
        All IsStale removed
        × Perm pool (removed ++ rest)
        × (length removed ≡ min (length pool - min_idle) (idle_too_long pool))
        × (length pool ≡ length removed + length rest)
  unfolding stale_split
  stale_split_lem min_idle pool = elim (Bool-cases (leb (length pool) min_idle)) [
    | inl few ↦ rw few (tt, Perm.refl _, ground arith, omega arith)
    | inr many ↦
        let indices = timed_out_indices timeout now 0 pool in
        let k = min (length pool - min_idle) (length indices) in
        let is = reverse_onto [] (take k indices) in
        let falling = reverse_onto-Falling [] (take k indices) 0 (length pool) (omega arith) tt (
          Rising-take k 0 (length pool) indices
            (timed_out-Rising 0 (length pool) pool (omega arith))) in
        let stale =
          reverse_onto-All (StaleAt 0 pool) [] (take k indices) tt
            (take-All (StaleAt 0 pool) k indices (timed_out-StaleAt 0 pool)) in
        let (a, sizes, others) = remove_indices-At pool (length pool) is (omega arith) falling in
        let (all_stale, size) = At-IsStale pool is (remove_indices is pool).0 stale a in
        let count = length-reverse_onto [] (take k indices) in
        let taken = length-take k indices in
        let all = length-timed_out_indices 0 pool in
        rw many (all_stale, others, omega arith, omega arith)
  ]
