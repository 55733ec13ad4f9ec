-- ===== src/Common/Bytes.antt =====
-- Big-endian integers, as the `bytes` buffers write and read them.
use Prim.Native.Nat.{ℕ, ◌+◌, ◌*◌, ◌/◌, ◌%◌, ◌^◌, ◌<◌}
use mathlib.Core.Path.{◌≡◌}
use mathlib.Core.List.{List, [], ◌∷◌, ◌++◌}
use native.Mathlib.Omega.{arith}
use anytls_rs_legacy.Common.Lists.{get_or}

abbrev pub Bytes : Type 0
Bytes = List ℕ

abbrev pub IsByte : ℕ → Type 0
IsByte b = b < 256

abbrev pub put_u16 : ℕ → Bytes
put_u16 n = n / 256 % 256 ∷ n % 256 ∷ []

abbrev pub put_u32 : ℕ → Bytes
put_u32 n = n / 16777216 % 256 ∷ n / 65536 % 256 ∷ n / 256 % 256 ∷ n % 256 ∷ []

-- Reads from the front; the callers have checked the length.
abbrev pub get_u8 : Bytes → ℕ
get_u8 b = get_or b 0 0

abbrev pub get_u16 : Bytes → ℕ
get_u16 b = get_or b 0 0 * 256 + get_or b 1 0

abbrev pub get_u32 : Bytes → ℕ
get_u32 b = get_or b 0 0 * 16777216 + get_or b 1 0 * 65536 + get_or b 2 0 * 256 + get_or b 3 0

pub get_u16-put_u16 : (n : ℕ) (rest : Bytes) → n < 65536 → get_u16 (put_u16 n ++ rest) ≡ n
get_u16-put_u16 n rest h = omega arith

pub get_u32-put_u32 : (n : ℕ) (rest : Bytes) → n < 2 ^ 32 → get_u32 (put_u32 n ++ rest) ≡ n
get_u32-put_u32 n rest h = omega arith
