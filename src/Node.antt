-- ===== src/Node.antt =====
-- src/node_api: the users of a node and the API that manages them.
pub mod Users
pub mod Registry
pub mod Api
