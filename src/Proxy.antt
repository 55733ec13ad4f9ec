-- ===== src/Proxy.antt =====
-- src/proxy: sessions, streams, their pipes, and the client's pool of sessions.
pub mod Receive
pub mod Pool
pub mod Pipe
pub mod Session
pub mod Client
