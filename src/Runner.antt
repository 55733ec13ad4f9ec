-- ===== src/Runner.antt =====
-- src/client_runner.rs: the client's front end: its configuration, the first bytes of a local connection,
-- and the relay of UDP packets for a SOCKS5 client.
pub mod Config
pub mod Sniff
pub mod Associate
pub mod Mitm
