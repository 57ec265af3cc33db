-- ===== src/Node.antt =====
-- bridge/src/kaspa/kaspaapi/api: the bridge's side of the node's RPC.
pub mod Submit
pub mod CoinbaseTag
pub mod Sync
pub mod Status
pub mod Templates
pub mod Balances
pub mod Connect
pub mod Streams
