-- ===== src/Examples/Packets.antt =====
-- The theorems on UDP packets at concrete inputs: addresses are a port and a domain.
use anytls_rs_legacy.Common.{
  ℕ, refl, some, [], ◌∷◌, length, take, drop, take-append, drop-append, Text, codes, Result, ok,
  err,
}
use anytls_rs_legacy.Common.Bytes.{Bytes}
use anytls_rs_legacy.Uot.{AddressCodec, IsCodec, early_eof}

abbrev retrieve : Bytes → Result ((ℕ × Text) × Bytes)
retrieve [] = err early_eof
retrieve (port ∷ []) = err early_eof
retrieve (port ∷ n ∷ bs) = ok ((port, take n bs), drop n bs)

abbrev pub codec : AddressCodec
codec = record {
  Address = ℕ × Text;
  domain_address = λ t port. (port, t);
  domain = λ a. some a.1;
  write_to_buf = λ a. a.0 ∷ length a.1 ∷ a.1;
  retrieve = retrieve;
}

pub codec-IsCodec : IsCodec codec
codec-IsCodec = record {
  retrieves = λ a rest. rw (take-append a.1 rest, drop-append a.1 rest);
  keeps_domain = λ t port h. refl;
}

abbrev pub dns : ℕ × Text
dns = (53, codes "a.b")
