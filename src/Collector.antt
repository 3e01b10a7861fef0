-- ===== src/Collector.antt =====
-- The sensor collector of edge-device/sensor-collector.
pub mod Window
pub mod Anomaly
pub mod State
pub mod Loop
