-- ===== src/Shares.antt =====
-- bridge/src/share_handler: the statistics of shares, and the difficulty that follows them.
pub mod Stats
pub mod Vardiff
pub mod Lifecycle
