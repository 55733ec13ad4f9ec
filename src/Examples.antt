-- ===== src/Examples.antt =====
-- The theorems at concrete inputs.
pub mod Engine
pub mod Frames
pub mod Writing
pub mod Registry
pub mod Sessions
pub mod Streams
pub mod Url
pub mod Packets
pub mod Clients
pub mod Panel
pub mod Server
pub mod Relays
pub mod Runner
pub mod Api
