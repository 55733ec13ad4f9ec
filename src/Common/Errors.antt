-- ===== src/Common/Errors.antt =====
-- `std::io::Error` as a kind and a message, and `std::io::Result`.
use Prim.Native.String.{String}
use Prim.Native.Nat.{ℕ}
use mathlib.Core.Path.{◌≡◌, refl}
use mathlib.Core.Logic.{◌⊎◌, inl, inr}
use anytls_rs_legacy.Common.Keys.{Text}

pub data ErrorKind : Type 0 where
  broken_pipe would_block unexpected_eof invalid_data invalid_input timed_out other : ErrorKind

pub data Message : Type 0 where
  literal : String → Message
  -- The text of a received frame, alone or behind "remote: ".
  received : Text → Message
  remote : Text → Message
  -- A literal with a number behind it.
  numbered : String → ℕ → Message

pub record IoError : Type 0 where
  pub kind : ErrorKind
  pub message : Message

abbrev pub io_error : ErrorKind → String → IoError
io_error k m = record { kind = k; message = literal m }

pub data Result {ℓ} (A : Type ℓ) : Type ℓ where
  ok : A → Result A
  err : IoError → Result A

infixl 5 ◌>>=◌
abbrev pub ◌>>=◌ {ℓ κ} : {A : Type ℓ} {B : Type κ} → Result A → (A → Result B) → Result B
ok a >>= f = f a
err e >>= f = err e

pub Result-cases {ℓ} :
    {A : Type ℓ} (r : Result A) → ((a : A) × (r ≡ ok a)) ⊎ ((e : IoError) × (r ≡ err e))
Result-cases (ok a) = inl (a, refl)
Result-cases (err e) = inr (e, refl)
