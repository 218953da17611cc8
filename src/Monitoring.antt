-- ===== src/Monitoring.antt =====
-- frontend/src/monitoring.ts: services, monitoring points, snapshots, metrics and findings.
pub mod Services
pub mod Points
pub mod Order
pub mod Snapshots
pub mod Errors
pub mod Findings
mod Tests
