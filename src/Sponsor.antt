-- ===== src/Sponsor.antt =====
-- The gateway's work with the sponsor wallet (backend/cloudflare/proof-gateway-worker).
pub mod Window
pub mod Quota
pub mod Policy
pub mod Lease
pub mod Runnable
pub mod Work
pub mod Reconciliation
