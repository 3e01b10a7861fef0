-- ===== src/Gateway/Device.antt =====
-- backend/cloudflare/proof-gateway-worker/src/device-auth.ts: a device proves its key and gets a session.
pub mod Scope
pub mod Challenge
pub mod Session
pub mod Token
pub mod Authorize
pub mod Left
pub mod Replay
