-- ===== src/Proxy/Client/Closing.antt =====
-- src/proxy/session/client.rs, `close`: what is left of a client's sessions.
use anytls_rs_legacy.Common.{Bool, Bool, nat_key}
use anytls_rs_legacy.Common.Map.{Map}
use anytls_rs_legacy.Proxy.Session.{Session}
use anytls_rs_legacy.Proxy.Pool.{drain}
use anytls_rs_legacy.Proxy.Client.{drain, Client}
