-- ===== src/Gateway.antt =====
-- The proof jobs of the gateway (backend/cloudflare/proof-gateway-worker).
pub mod Job
pub mod Statements
pub mod Dispatch
pub mod Admission
pub mod Calls
pub mod Capacity
pub mod Untouched
pub mod Recovery
pub mod DeadLetters
pub mod Device
