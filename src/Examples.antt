-- ===== src/Examples.antt =====
-- The theorems at concrete inputs, and tests.
pub mod Guards
pub mod Wire
pub mod World
pub mod Jobs
pub mod Shares
pub mod Clients
pub mod Resubmits
pub mod Dispatches
pub mod Listeners
pub mod Workers
pub mod Nodes
pub mod Settings
pub mod Reports
