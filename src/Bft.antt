-- ===== src/Bft.antt =====
-- substrate/bft/src/generic: BFT agreement. `Messages` has the message types, `Justification`
-- the justifications and their check, `Accumulator` the vote accumulator of one
-- round, `Strategy` the view of one node.
pub mod Messages
pub mod Threshold
pub mod Justification
pub mod Accumulator
pub mod Strategy
