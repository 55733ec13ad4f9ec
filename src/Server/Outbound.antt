-- ===== src/Server/Outbound.antt =====
-- bin/server.rs, `relay_forward_stream` and `relay_probe_stream`: what the target of a connection that is not
-- let in gets of it. Whether the target is reached, and how far the writes and the copy come, are inputs.
pub mod Whole
use mathlib.Core.List.{flatten}
use anytls_rs_legacy.Common.{
  ℕ, Bool, true, false, ◌||◌, Option, none, some, List, [], ◌++◌, if◌then◌else◌, take, text_same,
  codes, Text, Result, ok, err, IoError, io_error, other,
}
use anytls_rs_legacy.Common.Bytes.{Bytes}
use anytls_rs_legacy.Server.Preamble.{Incoming}
use anytls_rs_legacy.Server.Connection.{Fate, forwarded, probed, dropped, denied, failed, served}

-- The target cannot be reached, with TCP or with TLS; or the write and the flush of the prefix fail after some
-- of its bytes; or the copy of both directions passes on some bytes of the client and ends.
pub data Outbound : Type 0 where
  unreachable : IoError → Outbound
  refuses : ℕ → IoError → Outbound
  copies : ℕ → Result {0} Unit → Outbound

-- The bytes that the target got, and what the relay returns, which is only logged.
abbrev pub Relayed : Type 0
Relayed = Bytes × Result {0} Unit

unfoldable pub relay_probe_stream : Outbound → Bytes → Incoming → Relayed
relay_probe_stream (unreachable e) prefix tls_stream = ([], err e)
relay_probe_stream (refuses n e) prefix tls_stream = (take n prefix, err e)
relay_probe_stream (copies n result) prefix tls_stream =
    (prefix ++ take n (flatten tls_stream), result)

-- What the relay asks of the URL.
pub record ForwardUrl : Type 0 where
  pub host_str : Option Text
  pub port_or_known_default : Option ℕ
  pub scheme : Text

-- The target is dialled before the scheme is looked at, which is before the prefix is written.
unfoldable pub behind_dial : Text → Outbound → Bytes → Incoming → Relayed
behind_dial scheme (unreachable e) prefix tls_stream = ([], err e)
behind_dial scheme (refuses n e) prefix tls_stream =
    if text_same scheme (codes "http") || text_same scheme (codes "https")
    then relay_probe_stream (refuses n e) prefix tls_stream
    else ([], err (io_error other "Unsupported forward target URL scheme"))
behind_dial scheme (copies n result) prefix tls_stream =
    if text_same scheme (codes "http") || text_same scheme (codes "https")
    then relay_probe_stream (copies n result) prefix tls_stream
    else ([], err (io_error other "Unsupported forward target URL scheme"))

unfoldable pub relay_forward_stream : ForwardUrl → Outbound → Bytes → Incoming → Relayed
relay_forward_stream target_url outbound prefix tls_stream = elim target_url.host_str [
  | none ↦ ([], err (io_error other "Forward target URL must include a host"))
  | some host ↦ elim target_url.port_or_known_default [
    | none ↦ ([], err (io_error other "Forward target URL must include a port"))
    | some port ↦ behind_dial target_url.scheme outbound prefix tls_stream
  ]
]

-- What an outside server gets of a connection: nothing of one that no server is asked for.
unfoldable pub relay : (Text → ForwardUrl) → Outbound → Fate → Option Bytes
relay url_of outbound (forwarded url prefix later) =
    some (relay_forward_stream (url_of url) outbound prefix later).0
relay url_of outbound (probed host prefix later) = some (relay_probe_stream outbound prefix later).0
relay url_of outbound dropped = none
relay url_of outbound denied = none
relay url_of outbound (failed e) = none
relay url_of outbound (served ctx later) = none
