-- ===== src/StateMachine.antt =====
-- substrate/state-machine/src: `Overlay` is the changes on top of the backend's state.
pub mod Overlay
