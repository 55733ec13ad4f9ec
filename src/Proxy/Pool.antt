-- ===== src/Proxy/Pool.antt =====
-- src/proxy/session/client.rs, `IdleSessionPool`: the sessions that went idle, by sequence number, in
-- the order of the `IndexMap`. A session is a handle; `terminated` says which sessions have ended,
-- and `now` is the clock's reading. A call runs to its end before another task touches the pool.
pub mod Removal
pub mod Cleanup
pub mod Reuse
pub mod Holders
use anytls_rs_legacy.Common.{
  ℕ, zero, suc, ◌+◌, ◌-◌, min, Bool, true, false, not, ◌&&◌, Option, none, some, List, [], ◌∷◌,
  ◌++◌, map, ltb, leb, ◌==◌, if◌then◌else◌, length, take, nat_key,
}
use anytls_rs_legacy.Common.Map.{Map, contains_key, insert}

pub record Entry : Type 0 where
  pub seq : ℕ
  pub session : ℕ
  pub idle_since : ℕ

abbrev pub Pool : Type 0
Pool = List Entry

-- The sessions that have ended.
abbrev pub Ended : Type 0
Ended = ℕ → Bool

unfoldable pub terminate : ℕ → Ended → Ended
terminate session ended s = if s == session then true else ended s

unfoldable pub terminate_all : List Entry → Ended → Ended
terminate_all [] ended = ended
terminate_all (e ∷ es) ended = terminate_all es (terminate e.session ended)

-- The last element and those before it.
unfoldable pub split_last : Entry → Pool → Pool × Entry
split_last x [] = ([], x)
split_last x (y ∷ ys) = let (front, z) = split_last y ys in (x ∷ front, z)

-- `swap_remove_index`: the last entry takes the place of the removed one.
unfoldable pub swap_remove_index : Pool → ℕ → Option (Entry × Pool)
swap_remove_index [] i = none
swap_remove_index (x ∷ []) zero = some (x, [])
swap_remove_index (x ∷ y ∷ ys) zero = let (front, z) = split_last y ys in some (x, z ∷ front)
swap_remove_index (x ∷ xs) (suc i) = elim (swap_remove_index xs i) [
  | none ↦ none
  | some (e, rest) ↦ some (e, x ∷ rest)
]

abbrev pub is_stale : ℕ → ℕ → Entry → Bool
is_stale timeout now e = leb timeout (now - e.idle_since)

pub record Taken : Type 0 where
  pub pool : Pool
  pub ended : Ended
  pub found : Option (ℕ × ℕ)

-- The loop of `take_reusable`. Each round removes an entry, so one round more than there are entries
-- is enough.
unfoldable pub take_loop : ℕ → ℕ → ℕ → ℕ → Pool → Ended → Taken
take_loop zero timeout min_idle now pool ended = record { pool = pool; ended = ended; found = none }
take_loop (suc fuel) timeout min_idle now pool ended =
    let protected = leb (length pool) min_idle in
    elim (swap_remove_index pool (length pool - 1)) [
      | none ↦ record { pool = pool; ended = ended; found = none }
      | some (e, rest) ↦ elim (ended e.session) [
        | true ↦ take_loop fuel timeout min_idle now rest ended
        | false ↦ elim (not protected && is_stale timeout now e) [
          | true ↦ take_loop fuel timeout min_idle now rest (terminate e.session ended)
          | false ↦ record { pool = rest; ended = ended; found = some (e.session, e.seq) }
        ]
      ]
    ]

unfoldable pub take_reusable : ℕ → ℕ → ℕ → Pool → Ended → Taken
take_reusable timeout min_idle now pool ended =
    take_loop (suc (length pool)) timeout min_idle now pool ended

unfoldable pub contains_seq : ℕ → Pool → Bool
contains_seq seq [] = false
contains_seq seq (e ∷ es) = if e.seq == seq then true else contains_seq seq es

unfoldable pub return_session : ℕ → ℕ → ℕ → Pool → Pool
return_session seq session now pool =
    if contains_seq seq pool
    then pool
    else pool ++ (record { seq = seq; session = session; idle_since = now } ∷ [])

unfoldable pub timed_out_indices : ℕ → ℕ → ℕ → Pool → List ℕ
timed_out_indices timeout now index [] = []
timed_out_indices timeout now index (e ∷ es) =
    let rest = timed_out_indices timeout now (suc index) es in
    if is_stale timeout now e then index ∷ rest else rest

-- The indices from the last to the first.
unfoldable pub reverse_onto : List ℕ → List ℕ → List ℕ
reverse_onto acc [] = acc
reverse_onto acc (i ∷ is) = reverse_onto (i ∷ acc) is

unfoldable pub remove_indices : List ℕ → Pool → List Entry × Pool
remove_indices [] pool = ([], pool)
remove_indices (i ∷ is) pool = elim (swap_remove_index pool i) [
  | none ↦ remove_indices is pool
  | some (e, rest) ↦ let (removed, last) = remove_indices is rest in (e ∷ removed, last)
]

-- The entries that `cleanup_stale` takes out, and the pool without them.
unfoldable pub stale_split : ℕ → ℕ → ℕ → Pool → List Entry × Pool
stale_split timeout min_idle now pool =
    if leb (length pool) min_idle
    then ([], pool)
    else (let indices = timed_out_indices timeout now 0 pool in
        let remove_count = min (length pool - min_idle) (length indices) in
        remove_indices (reverse_onto [] (take remove_count indices)) pool)

unfoldable pub cleanup_stale : ℕ → ℕ → ℕ → Pool → Ended → Pool × Ended
cleanup_stale timeout min_idle now pool ended =
    let (removed, rest) = stale_split timeout min_idle now pool in
    (rest, terminate_all removed ended)

unfoldable pub drain : Pool → List Entry × Pool
drain pool = (pool, [])
