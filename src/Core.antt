-- ===== src/Core.antt =====
-- src/core: frames, the text maps and the padding scheme that they carry, and the protocol engine.
pub mod Frame
pub mod Text
pub mod StringMap
pub mod Padding
pub mod State
pub mod Engine
