-- ===== src/StateDb.antt =====
-- substrate/state-db/src: the changes of blocks that are not final yet, and the window of states
-- that are kept. `Types` has the sets of changes, `Panics` what calls return, `Pruning` the window of deletions,
-- `Unfinalized` the tree of blocks, `Sync` the operations of the database.
pub mod Types
pub mod Panics
pub mod Pruning
pub mod Unfinalized
pub mod Sync
mod Tests
