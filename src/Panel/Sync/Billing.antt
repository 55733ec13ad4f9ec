-- ===== src/Panel/Sync/Billing.antt =====
-- src/panel_sync/core.rs: what the panel is told of a client against what was counted for it.
pub mod Reports
pub mod Steps
use anytls_rs_legacy.Common.{
  ℕ, ◌+◌, ◌-◌, ◌≡◌, refl, Bool, true, false, not, ◌&&◌, some, List, [], ◌∷◌, ◌==◌, if◌then◌else◌,
  arith, nat_key, inl, inr, Bool-cases,
}
use anytls_rs_legacy.Common.Map.{Map, lookup, insert, IsUnique, lookup-insert, contains_key}
use anytls_rs_legacy.Panel.TrafficAudit.{
  TrafficAudit, get_upstream_traffic_of, get_downstream_traffic_of,
}
use anytls_rs_legacy.Panel.Sync.{
  Traffic, contains, get_client_list, last_reported, collect_traffic, commit,
}
use anytls_rs_legacy.Panel.Sync.Users.{get_client_list-contains}

-- What a payload says of a client.
unfoldable pub told : ℕ → List Traffic → ℕ × ℕ
told id [] = (0, 0)
told id (t ∷ ts) =
    let rest = told id ts in if t.client_id == id then (t.u + rest.0, t.d + rest.1) else rest

abbrev pub counts : ℕ → TrafficAudit → ℕ × ℕ
counts id audit = (get_upstream_traffic_of id audit, get_downstream_traffic_of id audit)

-- What was counted for a client and not reported.
abbrev pub due : ℕ → Map ℕ (ℕ × ℕ) → TrafficAudit → ℕ × ℕ
due id reported audit = (
  (counts id audit).0 - (last_reported id reported).0,
  (counts id audit).1 - (last_reported id reported).1,
)

abbrev pub is_nothing : ℕ × ℕ → Bool
is_nothing (u, d) = (u == 0) && (d == 0)

abbrev pub IsDistinct : List ℕ → Type 0
IsDistinct [] = Unit
IsDistinct (x ∷ xs) = (contains x xs ≡ false) × IsDistinct xs

pub get_client_list-IsDistinct :
    (audit : TrafficAudit) → IsUnique audit → IsDistinct (get_client_list audit)
unfolding get_client_list
get_client_list-IsDistinct [] u = tt
get_client_list-IsDistinct ((id, n) ∷ audit) u = (
  unfold contains_key in ground (arith, get_client_list-contains id audit),
  get_client_list-IsDistinct audit u.1,
)

module _ (reported : Map ℕ (ℕ × ℕ)) (audit : TrafficAudit) where
  abbrev entry : ℕ → Traffic
  entry id = record { client_id = id; u = (due id reported audit).0; d = (due id reported audit).1 }

  collect_traffic-skip :
      (id : ℕ) (ids : List ℕ)
      → is_nothing (due id reported audit) ≡ true
      → collect_traffic reported audit (id ∷ ids) ≡ collect_traffic reported audit ids
  unfolding collect_traffic
  collect_traffic-skip id ids e = rw e refl

  collect_traffic-cons :
      (id : ℕ) (ids : List ℕ)
      → is_nothing (due id reported audit) ≡ false
      → let rest = collect_traffic reported audit ids in
        collect_traffic reported audit (id ∷ ids)
        ≡ (entry id ∷ rest.0, (id, counts id audit) ∷ rest.1)
  unfolding collect_traffic
  collect_traffic-cons id ids e = rw e refl

  pub collect_traffic-told :
      (id : ℕ) (ids : List ℕ)
      → IsDistinct ids
      → told id (collect_traffic reported audit ids).0
        ≡ (if contains id ids then due id reported audit else (0, 0))
  unfolding collect_traffic told contains
  collect_traffic-told id [] s = refl
  collect_traffic-told id (j ∷ ids) s =
      let rest = collect_traffic-told id ids s.1 in
      elim (Bool-cases (is_nothing (due j reported audit))) [
        | inl e ↦ rw (collect_traffic-skip j ids e) (ground (arith, rest, s.0, e))
        | inr e ↦ rw (collect_traffic-cons j ids e) (ground (arith, rest, s.0, e))
      ]

  pub collect_traffic-commit :
      (id : ℕ) (ids : List ℕ) (m : Map ℕ (ℕ × ℕ))
      → lookup id (commit (collect_traffic reported audit ids).1 m) ≡ (
          if contains id ids && not (is_nothing (due id reported audit))
          then some (counts id audit)
          else lookup id m)
  unfolding collect_traffic commit contains
  collect_traffic-commit id [] m = refl
  collect_traffic-commit id (j ∷ ids) m = elim (Bool-cases (is_nothing (due j reported audit))) [
    | inl e ↦
        let rest = collect_traffic-commit id ids m in
        rw (collect_traffic-skip j ids e) (ground (arith, rest, e))
    | inr e ↦
        let rest = collect_traffic-commit id ids (insert j (counts j audit) m) in
        rw (collect_traffic-cons j ids e)
          (ground (arith, rest, e, lookup-insert j id (counts j audit) m))
  ]

  -- Nothing is sent when nothing is due.
  pub collect_traffic-nothing :
      (ids : List ℕ)
      → ((id : ℕ) → contains id ids ≡ true → is_nothing (due id reported audit) ≡ true)
      → (collect_traffic reported audit ids).0 ≡ []
  unfolding collect_traffic contains
  collect_traffic-nothing [] h = refl
  collect_traffic-nothing (j ∷ ids) h =
      rw (collect_traffic-skip j ids (h j (ground arith)))
        (collect_traffic-nothing ids (λ id e. h id (ground arith)))

  pub collect_traffic_empty :
      (ids : List ℕ)
      → (collect_traffic reported audit ids).0 ≡ []
      → (collect_traffic reported audit ids).1 ≡ []
  unfolding collect_traffic
  collect_traffic_empty [] h = refl
  collect_traffic_empty (j ∷ ids) h = elim (Bool-cases (is_nothing (due j reported audit))) [
    | inl e ↦
        let skip = collect_traffic-skip j ids e in
        rw skip (collect_traffic_empty ids (ground (arith, skip)))
    | inr e ↦ let more = collect_traffic-cons j ids e in absurd (ground (arith, more))
  ]
