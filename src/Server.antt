-- ===== src/Server.antt =====
-- bin/server.rs: how a connection is authenticated, and what becomes of it.
pub mod Preamble
pub mod Connection
pub mod Relay
pub mod Packets
pub mod Outbound
