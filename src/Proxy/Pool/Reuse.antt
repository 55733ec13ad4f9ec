-- ===== src/Proxy/Pool/Reuse.antt =====
-- src/proxy/session/client.rs, `take_reusable` and `return_session`.
use anytls_rs_legacy.Common.{
  ℕ, zero, suc, ◌-◌, ◌<◌, ◌≤◌, ◌==◌, Bool, Bool-cases, sym, ◌≡◌, refl, ap, inl, inr, ◌⊎◌, true,
  false, not, ◌&&◌, Option, none, some, List, [], ◌∷◌, ◌++◌, arith, length, All, leb, append_assoc,
  All-append, length-append,
}
use anytls_rs_legacy.Proxy.Pool.{
  Entry, Pool, Ended, Taken, swap_remove_index, is_stale, take_loop, take_reusable, terminate,
}

-- A pool ends with an entry or is empty.
snoc_view :
    (pool : Pool) → (pool ≡ []) ⊎ ((front : Pool) × (e : Entry) × (pool ≡ front ++ (e ∷ [])))
snoc_view [] = inl refl
snoc_view (x ∷ xs) = elim (snoc_view xs) [
  | inl h ↦ inr ([], x, rw h)
  | inr (front, e, h) ↦ inr (x ∷ front, e, ap (◌∷◌ x) h)
]

swap_remove_index-last :
    (front : Pool) (e : Entry)
    → swap_remove_index (front ++ (e ∷ [])) (length front) ≡ some (e, front)
unfolding swap_remove_index
swap_remove_index-last [] e = refl
swap_remove_index-last (x ∷ []) e = refl
swap_remove_index-last (x ∷ y ∷ ys) e = rw (swap_remove_index-last (y ∷ ys) e, swap_remove_index)

module _ (timeout min_idle now : ℕ) where
  -- What the loop promises of a pool: it passed over ended sessions and over stale ones that the
  -- minimum does not protect, all of which have ended now, and stopped at the last entry that is
  -- neither, which it took out.
  abbrev pub Outcome : Pool → Taken → Option (ℕ × ℕ) → Type 0
  Outcome pool t none = (t.pool ≡ []) × All (λ (e : Entry). t.ended e.session ≡ true) pool
  Outcome pool t (some (session, seq)) =
      (front : Pool) × (e : Entry) × (passed : List Entry) × (pool ≡ front ++ (e ∷ passed))
      × (t.pool ≡ front)
      × (e.session ≡ session)
      × (e.seq ≡ seq)
      × (t.ended session ≡ false)
      × All (λ (d : Entry). t.ended d.session ≡ true) passed
      × ((length front < min_idle) ⊎ (is_stale timeout now e ≡ false))

  -- The rounds of the loop, by what they find at the end of the pool.
  module _ (fuel : ℕ) (front : Pool) (e : Entry) (ended : Ended) where
    last_found :
        swap_remove_index (front ++ (e ∷ [])) (length (front ++ (e ∷ [])) - 1) ≡ some (e, front)
    last_found =
        let size : length (front ++ (e ∷ [])) - 1 ≡ length front =
          omega (arith, length-append front (e ∷ [])) in
        rw size (swap_remove_index-last front e)

    take_ended :
        ended e.session ≡ true
        → take_loop (suc fuel) timeout min_idle now (front ++ (e ∷ [])) ended
          ≡ take_loop fuel timeout min_idle now front ended
    unfolding take_loop
    take_ended h = rw (last_found, take_loop) (rw (h, take_loop))

    take_stale :
        ended e.session ≡ false
        → min_idle < length (front ++ (e ∷ []))
        → is_stale timeout now e ≡ true
        → take_loop (suc fuel) timeout min_idle now (front ++ (e ∷ [])) ended
          ≡ take_loop fuel timeout min_idle now front (terminate e.session ended)
    unfolding take_loop
    take_stale h k l =
        let p : leb (length (front ++ (e ∷ []))) min_idle ≡ false = ground arith in
        rw (last_found, take_loop) (rw (h, take_loop) (rw (p, l, take_loop)))

    take_live :
        ended e.session ≡ false
        → (not (leb (length (front ++ (e ∷ []))) min_idle) && is_stale timeout now e) ≡ false
        → take_loop (suc fuel) timeout min_idle now (front ++ (e ∷ [])) ended
          ≡ record { pool = front; ended = ended; found = some (e.session, e.seq) }
    unfolding take_loop
    take_live h k = rw (last_found, take_loop) (rw (h, take_loop) (rw (k, take_loop)))

  -- One entry passed over.
  Outcome-pass :
      (front : Pool) (e : Entry) (t : Taken) (o : Option (ℕ × ℕ))
      → t.ended e.session ≡ true
      → Outcome front t o
      → Outcome (front ++ (e ∷ [])) t o
  Outcome-pass front e t none h (p, q) =
      (p, All-append (λ (d : Entry). t.ended d.session ≡ true) front (e ∷ []) q (h, tt))
  Outcome-pass front e t (some (s, n)) h (f, d, passed, q, a, b, c, l, k, z) = (
    f,
    d,
    passed ++ (e ∷ []),
    rw q (append_assoc f (d ∷ passed) (e ∷ [])),
    a,
    b,
    c,
    l,
    All-append (λ (d : Entry). t.ended d.session ≡ true) passed (e ∷ []) k (h, tt),
    z,
  )

  terminate_mono :
      (session s : ℕ) (ended : Ended) → ended s ≡ true → terminate session ended s ≡ true
  unfolding terminate
  terminate_mono session s ended h = ground arith

  terminate_self : (s : ℕ) (ended : Ended) → terminate s ended s ≡ true
  unfolding terminate
  terminate_self s ended = ground arith

  -- The three ways that a round with an entry goes.
  Round : Entry → Pool → Ended → Type 0
  Round e front ended =
      (ended e.session ≡ true)
      ⊎ ((ended e.session ≡ false)
          × (min_idle < length (front ++ (e ∷ [])))
          × (is_stale timeout now e ≡ true))
      ⊎ ((ended e.session ≡ false)
          × ((not (leb (length (front ++ (e ∷ []))) min_idle) && is_stale timeout now e) ≡ false))

  round : (e : Entry) (front : Pool) (ended : Ended) → Round e front ended
  unfolding Round
  round e front ended = ground arith

  -- A session that has ended stays so.
  take_loop_mono :
      (fuel : ℕ) (pool : Pool) (ended : Ended) (s : ℕ)
      → ended s ≡ true
      → (take_loop fuel timeout min_idle now pool ended).ended s ≡ true
  unfolding Round
  take_loop_mono zero pool ended s h = unfold take_loop in h
  take_loop_mono (suc fuel) pool ended s h = elim (snoc_view pool) [
    | inl e ↦ rw e (unfold take_loop swap_remove_index in h)
    | inr (front, e, q) ↦ rw q (elim (round e front ended) [
      | inl a ↦ rw (take_ended fuel front e ended a) (take_loop_mono fuel front ended s h)
      | inr (inl (a, b, c)) ↦ rw (take_stale fuel front e ended a b c) (
          take_loop_mono fuel front (terminate e.session ended) s
            (terminate_mono e.session s ended h))
      | inr (inr (a, b)) ↦ rw (take_live fuel front e ended a b) h
    ])
  ]

  take_loop-Outcome :
      (fuel : ℕ) (pool : Pool) (ended : Ended)
      → length pool < fuel
      → let t = take_loop fuel timeout min_idle now pool ended in Outcome pool t t.found
  unfolding Round
  take_loop-Outcome zero pool ended h = absurd (omega arith)
  take_loop-Outcome (suc fuel) pool ended h = elim (snoc_view pool) [
    | inl e ↦ rw e (unfold take_loop swap_remove_index in (refl, tt))
    | inr (front, e, q) ↦
        let size = ap length q in
        let snoc = length-append front (e ∷ []) in
        rw q (elim (round e front ended) [
          | inl a ↦
              let t = take_loop fuel timeout min_idle now front ended in
              rw (take_ended fuel front e ended a) (
                Outcome-pass front e t t.found (take_loop_mono fuel front ended e.session a)
                  (take_loop-Outcome fuel front ended (omega arith)))
          | inr (inl (a, b, c)) ↦
              let t = take_loop fuel timeout min_idle now front (terminate e.session ended) in
              rw (take_stale fuel front e ended a b c) (
                Outcome-pass front e t t.found
                  (take_loop_mono fuel front (terminate e.session ended) e.session
                    (terminate_self e.session ended))
                  (take_loop-Outcome fuel front (terminate e.session ended) (omega arith)))
          | inr (inr (a, b)) ↦
              rw (take_live fuel front e ended a b)
                (front, e, [], refl, refl, refl, refl, a, tt, ground arith)
        ])
  ]

  -- The session of an idle entry of the pool that has idled too long, with the minimum before it.
  abbrev pub IsDue : Pool → ℕ → Type 0
  IsDue pool s =
      (front : Pool) × (e : Entry) × (rest : Pool) × (pool ≡ front ++ (e ∷ rest))
      × (min_idle ≤ length front)
      × (e.session ≡ s)
      × (timeout ≤ now - e.idle_since)

  IsDue-pass : (front : Pool) (e : Entry) (s : ℕ) → IsDue front s → IsDue (front ++ (e ∷ [])) s
  IsDue-pass front e s (f, d, rest, q, h, k, z) =
      (f, d, rest ++ (e ∷ []), rw q (append_assoc f (d ∷ rest) (e ∷ [])), h, k, z)

  pass-IsDue :
      (front : Pool) (e : Entry) (s : ℕ) (x y : Bool)
      → (x ≡ y) ⊎ IsDue front s
      → (x ≡ y) ⊎ IsDue (front ++ (e ∷ [])) s
  pass-IsDue front e s x y (inl h) = inl h
  pass-IsDue front e s x y (inr h) = inr (IsDue-pass front e s h)

  terminate_other :
      (session s : ℕ) (ended : Ended) → (session == s) ≡ false → terminate session ended s ≡ ended s
  unfolding terminate
  terminate_other session s ended h = ground (arith, h)

  take_loop-IsDue :
      (fuel : ℕ) (pool : Pool) (ended : Ended) (s : ℕ)
      → ((take_loop fuel timeout min_idle now pool ended).ended s ≡ ended s) ⊎ IsDue pool s
  unfolding Round
  take_loop-IsDue zero pool ended s = inl (unfold take_loop in refl)
  take_loop-IsDue (suc fuel) pool ended s = elim (snoc_view pool) [
    | inl e ↦ rw e (inl (unfold take_loop swap_remove_index in refl))
    | inr (front, e, q) ↦ rw q (elim (round e front ended) [
      | inl a ↦
          let t = take_loop fuel timeout min_idle now front ended in
          rw (take_ended fuel front e ended a)
            (pass-IsDue front e s (t.ended s) (ended s) (take_loop-IsDue fuel front ended s))
      | inr (inl (a, b, c)) ↦
          let t = take_loop fuel timeout min_idle now front (terminate e.session ended) in
          rw (take_stale fuel front e ended a b c) (elim (Bool-cases (e.session == s)) [
            | inl same ↦ inr (
              front,
              e,
              [],
              refl,
              omega (arith, b, length-append front (e ∷ [])),
              ground (arith, same),
              ground (arith, c),
            )
            | inr other ↦ pass-IsDue front e s (t.ended s) (ended s) (
                rw (sym (terminate_other e.session s ended other))
                  (take_loop-IsDue fuel front (terminate e.session ended) s))
          ])
      | inr (inr (a, b)) ↦ rw (take_live fuel front e ended a b) (inl refl)
    ])
  ]

  -- One round more than there are entries is enough.
  pub take_reusable-Outcome :
      (pool : Pool) (ended : Ended)
      → let t = take_reusable timeout min_idle now pool ended in Outcome pool t t.found
  unfolding take_reusable
  take_reusable-Outcome pool ended = take_loop-Outcome (suc (length pool)) pool ended (omega arith)

  -- `take_reusable` takes out the last entry whose session has not ended and that has not idled too long, or stands among the first `min_idle` entries; the entries behind it leave the pool, and their sessions have ended. If there is no such entry, the pool is empty then and every session in it has ended. The call itself ends a session only if that has idled too long and at least `min_idle` entries stand before it: any other is as it was before the call.
  pub take_reusable-chosen :
      (pool : Pool) (ended : Ended) (s : ℕ)
      → let t = take_reusable timeout min_idle now pool ended in
        Outcome pool t t.found × ((t.ended s ≡ ended s) ⊎ IsDue pool s)
  unfolding take_reusable
  take_reusable-chosen pool ended s =
      (take_reusable-Outcome pool ended, take_loop-IsDue (suc (length pool)) pool ended s)
