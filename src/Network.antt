-- ===== src/Network.antt =====
-- substrate/network/src: `Blocks` is the collection of blocks of synchronization.
pub mod Blocks
