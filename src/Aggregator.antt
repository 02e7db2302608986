-- ===== src/Aggregator.antt =====
-- src/aggregator: folding the outputs of the branches of a phase into one.
pub mod Vote
pub mod Concat
pub mod Verdict
pub mod Judge
use loker.Prelude.{ℕ}
use loker.Prelude.Text.{Text}

pub record BranchSuccess : Type 0 where
  pub backend_id : Text
  pub family : Text
  pub index : ℕ
  pub output : Text

pub record BranchFailure : Type 0 where
  pub backend_id : Text
  pub family : Text
  pub index : ℕ
  pub reason : Text

pub data BranchOutcome : Type 0 where
  success : BranchSuccess → BranchOutcome
  failure : BranchFailure → BranchOutcome

pub record AggregatedArtifact : Type 0 where
  pub text : Text
  pub successful : ℕ
  pub failed : ℕ
