-- ===== src/Tests.antt =====
-- A disk, calls and inputs on which the theorems are applied, and runs of the code on them.
pub mod Disk
mod ApplyRuns
mod Phases
mod Ladder
mod Flows
mod Branches
mod Markers
mod Grammars
mod Locks
mod Manifests
