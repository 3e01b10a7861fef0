-- ===== src/Gateway/DeadLetters.antt =====
-- backend/cloudflare/proof-gateway-worker/src/queue-dead-letters.ts: messages whose deliveries are
-- exhausted.
pub mod Identity
pub mod Affected
pub mod Persist
pub mod Again
pub mod Recorded
pub mod Observations
