-- ===== src/Monitoring.antt =====
-- src/pybmpmon/monitoring
pub mod PeerStats
pub mod Collector
pub mod CollectorLaws
pub mod Counts
pub mod Lifecycle
pub mod Sentry
pub mod Logger
mod Examples
