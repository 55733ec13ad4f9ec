-- ===== src/Core/Frame/RoundTrip.antt =====
-- src/core/frame.rs: what the wire form of a frame keeps, and where it does not.
use anytls_rs_legacy.Common.{
  ℕ, zero, suc, ◌+◌, ◌*◌, ◌%◌, ◌^◌, ◌≤◌, ◌<◌, ◌≡◌, ◌∙◌, refl, ◌≢◌, none, some, [], ◌∷◌, ◌++◌, arith,
  length, take, drop, All, length-append, take-append, take-append-drop, length-take,
}
use anytls_rs_legacy.Common.Bytes.{Bytes, IsByte}
use anytls_rs_legacy.Core.Frame.{
  Command, unknown, command_of_u8, u8_of_command, Frame, to_bytes, from_bytes,
  raw_header_from_bytes, frame_of_header, waste,
}

-- The commands that `From<u8>` builds: the named codes are not hidden under `unknown`.
abbrev pub IsCommand : Command → Type 0
IsCommand (unknown v) = (11 ≤ v) × (v < 256)
IsCommand c = Unit {0}

pub u8_of_command-command_of_u8 : (v : ℕ) → u8_of_command (command_of_u8 v) ≡ v
unfolding u8_of_command command_of_u8
u8_of_command-command_of_u8 v = ground arith

pub command_of_u8-u8_of_command : (c : Command) → IsCommand c → command_of_u8 (u8_of_command c) ≡ c
unfolding u8_of_command command_of_u8
command_of_u8-u8_of_command (unknown v) h = ground arith
command_of_u8-u8_of_command waste h = refl
command_of_u8-u8_of_command _ h = refl

command_of_u8-IsCommand : (v : ℕ) → v < 256 → IsCommand (command_of_u8 v)
unfolding command_of_u8
command_of_u8-IsCommand v h = ground arith

-- A frame whose fields fit the fields of the header.
pub record IsWire (f : Frame) : Type 0 where
  pub command : IsCommand f.cmd
  pub stream : f.sid < 2 ^ 32
  pub fits : length f.payload < 65536

drop-to_bytes : (f : Frame) (rest : Bytes) → drop 7 (to_bytes f ++ rest) ≡ f.payload ++ rest
unfolding to_bytes
drop-to_bytes f rest = refl

raw_header-to_bytes :
    (f : Frame) (rest : Bytes)
    → f.sid < 2 ^ 32
    → raw_header_from_bytes (to_bytes f ++ rest)
      ≡ some (record {
        cmd = command_of_u8 (u8_of_command f.cmd);
        sid = f.sid;
        len = length f.payload % 65536;
      })
unfolding raw_header_from_bytes to_bytes
raw_header-to_bytes f rest h = ground arith

-- Reading back what was written gives the command as its code names it, and as much of the data as
-- the sixteen length bits say.
from_bytes-to_bytes_any :
    (f : Frame) (rest : Bytes)
    → f.sid < 2 ^ 32
    → from_bytes (to_bytes f ++ rest)
      ≡ some (record {
        cmd = command_of_u8 (u8_of_command f.cmd);
        sid = f.sid;
        payload = take (length f.payload % 65536) (f.payload ++ rest);
      })
unfolding from_bytes frame_of_header
from_bytes-to_bytes_any f rest h =
    rw (raw_header-to_bytes f rest h, from_bytes)
      (ground (arith, drop-to_bytes f rest, length-append f.payload rest))

-- A frame that fits its header is read back whole, whatever bytes follow it.
pub from_bytes-to_bytes :
    (f : Frame) (rest : Bytes) → IsWire f → from_bytes (to_bytes f ++ rest) ≡ some f
from_bytes-to_bytes f rest w =
    from_bytes-to_bytes_any f rest w.stream
    ∙ ground (arith, command_of_u8-u8_of_command f.cmd w.command, take-append f.payload rest)

-- A frame with an identifier of 32 bits that carries 65536 bytes or more is never read back.
pub from_bytes-to_bytes_oversized :
    (f : Frame) (rest : Bytes)
    → f.sid < 2 ^ 32
    → 65536 ≤ length f.payload
    → from_bytes (to_bytes f ++ rest) ≢ some f
from_bytes-to_bytes_oversized f rest h big e = ground (
  arith,
  from_bytes-to_bytes_any f rest h,
  length-take (length f.payload % 65536) (f.payload ++ rest),
  length-append f.payload rest,
)

-- What `from_bytes` accepts of a list of bytes is the wire form of the frame that it returns, with
-- the unread bytes behind it, and that frame fits its header.
from_bytes_canonical :
    (b : Bytes) (f : Frame)
    → All IsByte b
    → from_bytes b ≡ some f
    → IsWire f × (to_bytes f ++ drop (7 + length f.payload) b ≡ b)
unfolding from_bytes frame_of_header raw_header_from_bytes to_bytes
from_bytes_canonical (c ∷ s₃ ∷ s₂ ∷ s₁ ∷ s₀ ∷ l₁ ∷ l₀ ∷ rest) f h e =
    let len : ℕ = l₁ * 256 + l₀ in
    ground (
      arith,
      take-append-drop len rest,
      length-take len rest,
      command_of_u8-IsCommand c,
      u8_of_command-command_of_u8 c,
    )
from_bytes_canonical [] f h e = cc
from_bytes_canonical (_ ∷ []) f h e = cc
from_bytes_canonical (_ ∷ _ ∷ []) f h e = cc
from_bytes_canonical (_ ∷ _ ∷ _ ∷ []) f h e = cc
from_bytes_canonical (_ ∷ _ ∷ _ ∷ _ ∷ []) f h e = cc
from_bytes_canonical (_ ∷ _ ∷ _ ∷ _ ∷ _ ∷ []) f h e = cc
from_bytes_canonical (_ ∷ _ ∷ _ ∷ _ ∷ _ ∷ _ ∷ []) f h e = cc

-- No proper prefix of the wire form of a frame that fits its header is taken for a frame.
from_bytes_prefix :
    (f : Frame) (n : ℕ)
    → IsWire f
    → n < length (to_bytes f)
    → from_bytes (take n (to_bytes f)) ≡ none
unfolding from_bytes frame_of_header raw_header_from_bytes to_bytes
from_bytes_prefix f zero w h = refl
from_bytes_prefix f (suc zero) w h = refl
from_bytes_prefix f (suc (suc zero)) w h = refl
from_bytes_prefix f (suc (suc (suc zero))) w h = refl
from_bytes_prefix f (suc (suc (suc (suc zero)))) w h = refl
from_bytes_prefix f (suc (suc (suc (suc (suc zero))))) w h = refl
from_bytes_prefix f (suc (suc (suc (suc (suc (suc zero)))))) w h = refl
from_bytes_prefix f (suc (suc (suc (suc (suc (suc (suc n))))))) w h =
    ground (arith, length-take n f.payload)
