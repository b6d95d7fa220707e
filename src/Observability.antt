-- ===== src/Observability.antt =====
-- observability/: metrics, logging and request identifiers.
pub mod Logging
pub mod Metrics
