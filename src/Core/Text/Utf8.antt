-- ===== src/Core/Text/Utf8.antt =====
-- Lossy decoding leaves ASCII alone.
use anytls_rs_legacy.Common.{◌<◌, ◌≡◌, refl, [], ◌∷◌, All, Text, arith}
use anytls_rs_legacy.Core.Text.{from_utf8_lossy}

abbrev pub IsAscii : Text → Type 0
IsAscii = All (λ b. b < 128)

pub from_utf8_lossy_ascii : (t : Text) → IsAscii t → from_utf8_lossy t ≡ t
unfolding from_utf8_lossy
from_utf8_lossy_ascii [] h = refl
from_utf8_lossy_ascii (c ∷ cs) h = ground (arith, from_utf8_lossy_ascii cs h.1)
