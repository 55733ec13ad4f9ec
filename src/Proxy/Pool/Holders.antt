-- ===== src/Proxy/Pool/Holders.antt =====
-- src/proxy/session/client.rs, `IdleSessionPool`: who holds a session, over any calls on the pool.
use mathlib.Core.List.{Perm, Permᴰ}
use mathlib.Core.List.Permᴰ.{nil, cons, swap, trans}
use mathlib.Core.Logic.{∥∥₁_elim}
use native.Mathlib.Nat.{ℕ_set}
use anytls_rs_legacy.Common.{
  ℕ, ◌+◌, ◌≤◌, ◌≡◌, refl, sym, ap, ◌∙◌, subst, false, Option, none, some, List, [], ◌∷◌, ◌++◌, ◌==◌,
  if◌then◌else◌, arith, Bool-cases, inl, inr,
}
use anytls_rs_legacy.Proxy.Pool.{
  Entry, Pool, Ended, Taken, take_reusable, return_session, contains_seq, cleanup_stale,
  stale_split, drain,
}
use anytls_rs_legacy.Proxy.Pool.Cleanup.{stale_split_lem}
use anytls_rs_legacy.Proxy.Pool.Reuse.{take_reusable-Outcome, Outcome}

unfoldable pub one : ℕ → Entry → ℕ
one seq e = if e.seq == seq then 1 else 0

-- How often a sequence number stands in the pool.
unfoldable pub count : ℕ → Pool → ℕ
count seq [] = 0
count seq (e ∷ es) = one seq e + count seq es

abbrev pub IsUnique : Pool → Type 0
IsUnique pool = (seq : ℕ) → count seq pool ≤ 1

count-append : (seq : ℕ) (a b : Pool) → count seq (a ++ b) ≡ count seq a + count seq b
unfolding count
count-append seq [] b = omega arith
count-append seq (e ∷ a) b = rw (count-append seq a b) (omega arith)

count_absent : (seq : ℕ) (pool : Pool) → contains_seq seq pool ≡ false → count seq pool ≡ 0
unfolding count contains_seq one
count_absent seq [] h = refl
count_absent seq (e ∷ es) h = ground (arith, count_absent seq es)

count-permuted : (seq : ℕ) {a b : Pool} → Permᴰ a b → count seq a ≡ count seq b
unfolding count
count-permuted seq nil = refl
count-permuted seq (cons p ps) = omega (arith, ap (one seq) p, count-permuted seq ps)
count-permuted seq (swap p q) = omega (arith, ap (one seq) p, ap (one seq) q)
count-permuted seq (trans p q) = count-permuted seq p ∙ count-permuted seq q

count-Perm : (seq : ℕ) {a b : Pool} → Perm a b → count seq a ≡ count seq b
count-Perm seq p = ∥∥₁_elim p (ℕ_set _ _) (count-permuted seq)

return_session-IsUnique :
    (seq session now : ℕ) (pool : Pool)
    → IsUnique pool
    → IsUnique (return_session seq session now pool)
unfolding return_session count one
return_session-IsUnique seq session now pool u s = elim (Bool-cases (contains_seq seq pool)) [
  | inl e ↦ rw (return_session, e) (u s)
  | inr e ↦
      rw
        (
          return_session,
          e,
          count-append s pool (record { seq = seq; session = session; idle_since = now } ∷ []),
        )
        (ground (arith, u s, count_absent seq pool e))
]

module _ (timeout min_idle : ℕ) where
  front-IsUnique :
      (pool front : Pool) (e : Entry) (passed : List Entry)
      → pool ≡ front ++ (e ∷ passed)
      → IsUnique pool
      → (count e.seq front ≡ 0) × IsUnique front
  unfolding count one
  front-IsUnique pool front e passed p u =
      let there : (s : ℕ) → count s front + (one s e + count s passed) ≤ 1 =
        λ s. subst (λ x. x ≤ 1) (ap (count s) p ∙ count-append s front (e ∷ passed)) (u s) in
      (ground (arith, there e.seq), λ s. omega (arith, there s))

  taken_rest :
      (now : ℕ) (pool : Pool) (t : Taken) (o : Option (ℕ × ℕ))
      → Outcome timeout min_idle now pool t o
      → IsUnique pool
      → IsUnique t.pool
  unfolding count
  taken_rest now pool t none (p, q) u = subst IsUnique (sym p) (λ s. ground arith)
  taken_rest now pool t (some (session, seq)) (front, e, passed, p, q, a, b, c, d, z) u =
      subst IsUnique (sym q) (front-IsUnique pool front e passed p u).1

  pub data PoolCall : Type 0 where
    returns : ℕ → ℕ → ℕ → PoolCall
    takes cleans : ℕ → PoolCall
    drains : PoolCall

  -- Any calls on the pool, with any sessions that end between them.
  unfoldable pub pool_calls : List (PoolCall × Ended) → Pool → Pool
  pool_calls [] pool = pool
  pool_calls ((returns seq session now, ended) ∷ cs) pool =
      pool_calls cs (return_session seq session now pool)
  pool_calls ((takes now, ended) ∷ cs) pool =
      pool_calls cs (take_reusable timeout min_idle now pool ended).pool
  pool_calls ((cleans now, ended) ∷ cs) pool =
      pool_calls cs (cleanup_stale timeout min_idle now pool ended).0
  pool_calls ((drains, ended) ∷ cs) pool = pool_calls cs (drain pool).1

  pool_calls-IsUnique :
      (cs : List (PoolCall × Ended)) (pool : Pool) → IsUnique pool → IsUnique (pool_calls cs pool)
  unfolding pool_calls cleanup_stale drain count
  pool_calls-IsUnique [] pool u = u
  pool_calls-IsUnique ((returns seq session now, ended) ∷ cs) pool u =
      pool_calls-IsUnique cs (return_session seq session now pool)
        (return_session-IsUnique seq session now pool u)
  pool_calls-IsUnique ((takes now, ended) ∷ cs) pool u =
      let t = take_reusable timeout min_idle now pool ended in
      pool_calls-IsUnique cs t.pool
        (taken_rest now pool t t.found (take_reusable-Outcome timeout min_idle now pool ended) u)
  pool_calls-IsUnique ((cleans now, ended) ∷ cs) pool u =
      let (removed, rest) = stale_split timeout min_idle now pool in
      let perm = (stale_split_lem timeout now min_idle pool).1 in
      pool_calls-IsUnique cs rest
        (λ s. omega (arith, u s, count-Perm s perm, count-append s removed rest))
  pool_calls-IsUnique ((drains, ended) ∷ cs) pool u = pool_calls-IsUnique cs [] (λ s. ground arith)

  held :
      (now : ℕ) (pool : Pool) (t : Taken) (session seq : ℕ) (o : Option (ℕ × ℕ))
      → o ≡ some (session, seq)
      → Outcome timeout min_idle now pool t o
      → IsUnique pool
      → count seq t.pool ≡ 0
  held now pool t session seq none f h u = absurd (ground (arith, f))
  held now pool t session seq (some (s, n)) f (front, e, passed, p, q, a, b, c, d, z) u =
      let same : e.seq ≡ seq = b ∙ ground (arith, f) in
      ap (count seq) q
      ∙ subst (λ x. count x front ≡ 0) same (front-IsUnique pool front e passed p u).0

  -- Whatever calls on an empty pool went before, with whatever sessions ending, no sequence number stands in the pool twice, and one that is handed out for reuse stands in it no more: no second caller is given it until it is returned.
  pub take_reusable-held :
      (cs : List (PoolCall × Ended)) (ended : Ended) (now session seq : ℕ) (pool : Pool)
      → pool ≡ pool_calls cs []
      → (take_reusable timeout min_idle now pool ended).found ≡ some (session, seq)
      → (count seq (take_reusable timeout min_idle now pool ended).pool ≡ 0) × IsUnique pool
  unfolding count
  take_reusable-held cs ended now session seq pool e f =
      let u : IsUnique pool =
        subst IsUnique (sym e) (pool_calls-IsUnique cs [] (λ s. ground arith)) in
      let t = take_reusable timeout min_idle now pool ended in
      (
        held now pool t session seq t.found f
            (take_reusable-Outcome timeout min_idle now pool ended) u,
        u,
      )
