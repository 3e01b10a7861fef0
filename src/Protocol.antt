-- ===== src/Protocol.antt =====
-- shared/measurement-protocol: the operational day, the encoding of a temperature, the identifiers,
-- and the daily extrema with their local evaluation.
pub mod Day
pub mod Identifier
pub mod Temperature
pub mod Policy
pub mod Extrema
