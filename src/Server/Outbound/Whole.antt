-- ===== src/Server/Outbound/Whole.antt =====
-- bin/server.rs: a connection that is not let in reaches the target whole.
use anytls_rs_legacy.Common.{
  leb, leb, ◌≡◌, ◌<◌, ◌⊎◌, false, ◌||◌, Option, none, some, [], ◌++◌, length, text_same, codes,
  Text,
}
use anytls_rs_legacy.Common.Bytes.{Bytes}
use anytls_rs_legacy.Server.Connection.{Fate, forwarded, probed, dropped, denied, failed, served}
use anytls_rs_legacy.Server.Outbound.{Outbound, unreachable, refuses, copies, ForwardUrl}

-- The outside server stops the relay before the client's bytes are all there.
abbrev pub IsCut : Bytes → Outbound → Type 0
IsCut sent (unreachable e) = Unit
IsCut sent (refuses n e) = Unit
IsCut sent (copies n result) = n < length sent

-- No URL to relay to: it names no host or no port, or is of another scheme than `http` and `https`.
abbrev pub IsUnfit : ForwardUrl → Type 0
IsUnfit u =
    (u.host_str ≡ none)
    ⊎ (u.port_or_known_default ≡ none)
    ⊎ ((text_same u.scheme (codes "http") || text_same u.scheme (codes "https")) ≡ false)

-- Of the bytes sent, a beginning arrived; and all of them if nothing stands against it.
abbrev pub Arrived : Bytes → Outbound → Bytes → Type 0
Arrived sent outbound got =
    ((missing : Bytes) × (got ++ missing ≡ sent)) × ((got ≡ sent) ⊎ IsCut sent outbound)

-- What arrived, for every way that a connection goes.
abbrev pub HasPassed : (Text → ForwardUrl) → Bytes → Outbound → Fate → Option Bytes → Type 0
HasPassed url_of sent outbound (forwarded url prefix later) none = ⊥
HasPassed url_of sent outbound (forwarded url prefix later) (some got) =
    Arrived sent outbound got ⊎ (IsUnfit (url_of url) × (got ≡ []))
HasPassed url_of sent outbound (probed host prefix later) none = ⊥
HasPassed url_of sent outbound (probed host prefix later) (some got) = Arrived sent outbound got
HasPassed url_of sent outbound dropped o = o ≡ none
HasPassed url_of sent outbound denied o = ⊥
HasPassed url_of sent outbound (failed e) o = ⊥
HasPassed url_of sent outbound (served ctx later) o = ⊥
