-- ===== src/Prometheus.antt =====
-- The Prometheus collector, cmd/mq_prometheus.
pub mod Reconnect
pub mod Labels
pub mod Vectors
pub mod Scrape
pub mod Settings
pub mod Allocate
pub mod Collect
