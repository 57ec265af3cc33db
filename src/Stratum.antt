-- ===== src/Stratum.antt =====
-- bridge/src/stratum: the connection of a miner.
pub mod Context
pub mod LineCodec
pub mod Handshake
pub mod Clients
pub mod Utf8
pub mod Listener
