-- ===== src/Examples/Sessions.antt =====
-- The theorems on the pool of idle sessions at concrete inputs.
use mathlib.Core.List.{Perm}
use anytls_rs_legacy.Common.{
  ◌⊎◌, List, some, refl, ℕ, ◌+◌, ◌-◌, ◌≡◌, false, [], ◌∷◌, ◌++◌, All, length, min,
}
use anytls_rs_legacy.Proxy.Pool.Holders.{
  PoolCall, returns, cleans, pool_calls, count, IsUnique, take_reusable-held,
}
use anytls_rs_legacy.Proxy.Pool.{
  take_loop, swap_remove_index, split_last, return_session, contains_seq, cleanup_stale,
  reverse_onto, remove_indices, Entry, Pool, Ended, take_reusable, stale_split, timed_out_indices,
}
use anytls_rs_legacy.Proxy.Pool.Cleanup.{idle_too_long, stale_split_lem, IsStale}
use anytls_rs_legacy.Proxy.Pool.Reuse.{Outcome, IsDue, take_reusable-chosen}

abbrev idle : ℕ → ℕ → Entry
idle n since = record { seq = n; session = n; idle_since = since }

abbrev three : Pool
three = idle 1 10 ∷ idle 2 90 ∷ idle 3 20 ∷ []

abbrev none_ended : Ended
none_ended s = false

stale_split_lem_example :
    let (removed, rest) = stale_split 30 1 100 three in
    All (IsStale 30 100) removed
    × Perm three (removed ++ rest)
    × (length removed ≡ min (3 - 1) (idle_too_long 30 100 three))
    × (3 ≡ length removed + length rest)
stale_split_lem_example = stale_split_lem 30 100 1 three

take_reusable-chosen_example :
    let t = take_reusable 30 1 100 three none_ended in
    Outcome 30 1 100 three t t.found × ((t.ended 3 ≡ none_ended 3) ⊎ IsDue 30 1 100 three 3)
take_reusable-chosen_example = take_reusable-chosen 30 1 100 three none_ended 3

-- Two sessions come back, the first of them twice, and the last is taken again.
abbrev happened : List (PoolCall 30 1 × Ended)
happened =
    (returns 1 1 10, none_ended)
    ∷ (returns 2 2 20, none_ended)
    ∷ (returns 1 1 25, none_ended)
    ∷ (cleans 30, none_ended)
    ∷ []

abbrev came_back : Pool
came_back = pool_calls 30 1 happened []

taken_again : (take_reusable 30 1 40 came_back none_ended).found ≡ some (2, 2)
unfolding take_reusable take_loop swap_remove_index split_last pool_calls return_session
    contains_seq cleanup_stale stale_split timed_out_indices reverse_onto remove_indices
taken_again = refl

take_reusable-held_example :
    (count 2 (take_reusable 30 1 40 came_back none_ended).pool ≡ 0) × IsUnique came_back
take_reusable-held_example =
    take_reusable-held 30 1 happened none_ended 40 2 2 came_back refl taken_again
