-- ===== src/Tests.antt =====
-- Runs of the theorems at concrete inputs.
mod Protocol
mod Collector
mod Sponsor
mod Reconciliation
mod Gateway
mod Managed
mod Device
mod Work
mod Container
mod Agent
