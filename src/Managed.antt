-- ===== src/Managed.antt =====
-- Measurements that are read from a source's interface
-- (backend/cloudflare/proof-gateway-worker/src/managed-source-core.ts).
pub mod Failure
pub mod Endpoint
pub mod Response
pub mod Accepted
pub mod Summary
pub mod Fetch
pub mod Hours
pub mod Agreement
