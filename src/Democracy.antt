-- ===== src/Democracy.antt =====
-- substrate/runtime/democracy: the thresholds by which a referendum passes.
pub mod VoteThreshold
