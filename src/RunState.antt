-- ===== src/RunState.antt =====
-- src/run_state: what a run keeps on disk and the order in which a phase does it.
pub mod Order
pub mod Load
pub mod Lock
pub mod Resume
