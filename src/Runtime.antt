-- ===== src/Runtime.antt =====
-- src/runtime: the writer task, the stream hooks and the actions of the protocol.
pub mod Writer
