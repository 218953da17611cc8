-- ===== src/Pages.antt =====
-- The computations of frontend/src/pages/ and of the frame around the pages.
pub mod Fleet
pub mod Dashboard
pub mod Jobs
pub mod Environments
pub mod Refresh
pub mod Resources
pub mod Environment
pub mod Policies
pub mod Activity
pub mod Session
pub mod Charts
pub mod Access
pub mod Inventory
pub mod Profile
pub mod Preferences
pub mod Coverage
pub mod Alerts
pub mod Overview
pub mod Topology
pub mod Shell
mod Tests
