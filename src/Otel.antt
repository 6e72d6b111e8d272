-- ===== src/Otel.antt =====
-- cmd/mq_otel: the OpenTelemetry collector.
pub mod Gauges
pub mod Tags
pub mod Reports
pub mod Poll
pub mod Reader
pub mod Settings
pub mod Main
