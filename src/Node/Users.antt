-- ===== src/Node/Users.antt =====
-- src/node_api/users.rs, `UserEntry`: what is counted for a user, and whether the user may pass traffic.
-- The counters are `u64` atomics, which wrap around; times are `i64`.
pub mod Quota
use anytls_rs_legacy.Common.{
  ℕ, ◌+◌, ◌-◌, ◌%◌, ◌^◌, Bool, true, false, ◌&&◌, Option, none, some, ltb, leb, if◌then◌else◌, Text,
}
use anytls_rs_legacy.Common.Int.{ℤ, pos, negsuc, saturating_add}

pub record UserSpec : Type 0 where
  pub email : Text
  pub password : Text
  pub quota_bytes : ℕ
  pub expires_unix : ℤ

pub data DenyReason : Type 0 where
  revoked expired quota_exceeded : DenyReason

pub record UserEntry : Type 0 where
  pub email : Text
  pub generation : ℕ
  pub up : ℕ
  pub down : ℕ
  pub connections : ℤ
  pub quota_bytes : ℕ
  pub quota_base : ℕ
  pub expires_unix : ℤ
  pub is_revoked : Bool

unfoldable pub new_entry : UserSpec → UserEntry
new_entry spec = record {
  email = spec.email;
  generation = 0;
  up = 0;
  down = 0;
  connections = pos 0;
  quota_bytes = spec.quota_bytes;
  quota_base = 0;
  expires_unix = spec.expires_unix;
  is_revoked = false;
}

unfoldable pub record_up : ℕ → UserEntry → UserEntry
record_up n e = record e { up = (e.up + n) % 2 ^ 64 }

unfoldable pub record_down : ℕ → UserEntry → UserEntry
record_down n e = record e { down = (e.down + n) % 2 ^ 64 }

unfoldable pub quota_used : UserEntry → ℕ
quota_used e = saturating_add e.up e.down - e.quota_base

unfoldable pub reset_quota : UserEntry → UserEntry
reset_quota e = record e { quota_base = saturating_add e.up e.down }

unfoldable pub apply_limits : UserSpec → UserEntry → UserEntry
apply_limits spec e = record e { quota_bytes = spec.quota_bytes; expires_unix = spec.expires_unix }

unfoldable pub revoke : UserEntry → UserEntry
revoke e = record e { is_revoked = true }

-- `expires > 0 && now_unix >= expires`.
abbrev pub is_expired : ℤ → ℤ → Bool
is_expired (negsuc e) now = false
is_expired (pos e) (negsuc now) = false
is_expired (pos e) (pos now) = ltb 0 e && leb e now

unfoldable pub deny_reason_at : ℤ → UserEntry → Option DenyReason
deny_reason_at now e =
    if e.is_revoked
    then some revoked
    else if is_expired e.expires_unix now
    then some expired
    else if ltb 0 e.quota_bytes && leb e.quota_bytes (quota_used e)
    then some quota_exceeded
    else none
