-- ===== src/ApplyVerify.antt =====
-- src/apply_verify: edits proposed by a model are parsed, applied to files, verified, and rolled back.
pub mod EditParser
pub mod Files
pub mod DiffApplier
pub mod Rollback
pub mod RetryLoop
