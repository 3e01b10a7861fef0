-- ===== src/Container.antt =====
-- The supervisor of backend/cloudflare/sponsor-wallet-container.
pub mod Health
pub mod Progress
