-- ===== src/Panel.antt =====
-- src/panel_sync: what the server counts for the panel.
pub mod TrafficAudit
pub mod Sync
