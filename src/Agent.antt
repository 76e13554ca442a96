-- ===== src/Agent.antt =====
-- internal/agent: the daemon that runs on a monitored node.
pub mod Error
pub mod Registry
pub mod Bucket
pub mod HealthChecker
pub mod Proxy
pub mod Services
pub mod Auth
pub mod Access
pub mod Resolve
pub mod Tests
pub mod Server
pub mod Mgmt
pub mod Api
pub mod Routes
