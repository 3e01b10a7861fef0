-- ===== src/Agent.antt =====
-- The transaction agent of edge-device/midnight-transaction-agent.
pub mod Lock
pub mod Pending
