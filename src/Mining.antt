-- ===== src/Mining.antt =====
-- bridge/src/mining: the jobs of a connection, the targets of shares and what miners are told.
pub mod State
pub mod Target
pub mod Difficulty
pub mod Header
pub mod JobParams
