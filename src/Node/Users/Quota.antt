-- ===== src/Node/Users/Quota.antt =====
-- src/node_api/users.rs: a quota window counts the traffic since it was opened.
use anytls_rs_legacy.Common.{
  ℕ, ◌+◌, ◌%◌, ◌^◌, ◌<◌, ◌≤◌, ◌≡◌, ◌↔◌, refl, false, some, List, [], ◌∷◌, arith,
}
use anytls_rs_legacy.Common.Int.{ℤ}
use anytls_rs_legacy.Node.Users.{
  UserEntry, quota_exceeded, record_up, record_down, quota_used, reset_quota, is_expired,
  deny_reason_at,
}

-- Traffic of a connection, either way.
pub data Traffic : Type 0 where
  goes_up goes_down : ℕ → Traffic

unfoldable pub traffic : List Traffic → UserEntry → UserEntry
traffic [] e = e
traffic (goes_up n ∷ ts) e = traffic ts (record_up n e)
traffic (goes_down n ∷ ts) e = traffic ts (record_down n e)

unfoldable pub total : List Traffic → ℕ
total [] = 0
total (goes_up n ∷ ts) = n + total ts
total (goes_down n ∷ ts) = n + total ts

traffic-sum :
    (ts : List Traffic) (e : UserEntry)
    → e.up + e.down + total ts < 2 ^ 64
    → let f = traffic ts e in
      (f.up + f.down ≡ e.up + e.down + total ts)
      × (f.quota_base ≡ e.quota_base)
      × (f.quota_bytes ≡ e.quota_bytes)
      × (f.expires_unix ≡ e.expires_unix)
      × (f.is_revoked ≡ e.is_revoked)
unfolding traffic total record_up record_down
traffic-sum [] e h = (omega arith, refl, refl, refl, refl)
traffic-sum (goes_up n ∷ ts) e h =
    let small : (e.up + n) % 2 ^ 64 ≡ e.up + n = omega arith in
    ground (arith, traffic-sum ts (record_up n e))
traffic-sum (goes_down n ∷ ts) e h =
    let small : (e.down + n) % 2 ^ 64 ≡ e.down + n = omega arith in
    ground (arith, traffic-sum ts (record_down n e))

-- The traffic counted against the quota is all that passed since the quota was reset, as long as the
-- counters do not reach the end of a `u64`.
quota_used-traffic :
    (ts : List Traffic) (e : UserEntry)
    → e.up + e.down + total ts < 2 ^ 64
    → quota_used (traffic ts (reset_quota e)) ≡ total ts
unfolding quota_used reset_quota
quota_used-traffic ts e h = ground (arith, traffic-sum ts (reset_quota e))

-- A user that was not revoked and does not expire, and whose quota was reset, is denied exactly when
-- there is a quota and the traffic since then has reached it, as long as the counters do not reach the
-- end of a `u64`.
deny_reason-traffic :
    (now : ℤ) (ts : List Traffic) (e : UserEntry)
    → e.up + e.down + total ts < 2 ^ 64
    → e.is_revoked ≡ false
    → is_expired e.expires_unix now ≡ false
    → (deny_reason_at now (traffic ts (reset_quota e)) ≡ some quota_exceeded)
      ↔ ((0 < e.quota_bytes) × (e.quota_bytes ≤ total ts))
unfolding deny_reason_at
deny_reason-traffic now ts e h r x =
    let used = quota_used-traffic ts e h in
    let f = traffic ts (reset_quota e) in
    let kept : (f.quota_bytes ≡ e.quota_bytes)
        × (f.expires_unix ≡ e.expires_unix)
        × (f.is_revoked ≡ e.is_revoked) =
      unfold reset_quota in ground (arith, traffic-sum ts (reset_quota e)) in
    let fresh : is_expired f.expires_unix now ≡ false = rw (kept.1) x in ground arith
