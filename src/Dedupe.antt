-- ===== src/Dedupe.antt =====
-- The two guards against doing a submission twice: of shares
-- (bridge/src/share_handler/duplicate_submit.rs) and of blocks
-- (bridge/src/kaspa/kaspaapi/api/block_submit_guard.rs). Both prune the same way.
pub mod Pruning
pub mod Submits
pub mod Blocks
