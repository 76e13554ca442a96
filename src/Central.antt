-- ===== src/Central.antt =====
-- internal/central: the daemon beside Prometheus.
pub mod Discovery
pub mod Collector
pub mod Merge
pub mod Refresh
pub mod PeerCache
pub mod Server
pub mod Current
pub mod Loop
pub mod Mgmt
pub mod Tests
