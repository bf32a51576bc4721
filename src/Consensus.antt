-- ===== src/Consensus.antt =====
-- polkadot/consensus/src: when a block can be proposed. `DynamicInclusion` is how long to wait for
-- candidates, `Includable` is the tracking of the candidates of a proposal.
pub mod DynamicInclusion
pub mod Includable
