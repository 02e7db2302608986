-- ===== src/ApplyVerify/Rollback.antt =====
-- src/apply_verify/rollback.rs
pub mod Undoes
pub mod Undo
pub mod Reliable
use loker.Prelude.{
  Option, none, some, List, [], ◌∷◌, ◌++◌, Bool, Result, ok, err, is_nil, match_result,
}
use mathlib.Core.List.{reverse}
use loker.Prelude.Text.{Text}
use loker.ApplyVerify.Files.{PathBuf, IoError, not_found, other, FileSystem}
use loker.ApplyVerify.DiffApplier.{FileBackup, ApplyResult}

pub record RollbackFailure : Type 0 where
  pub path : PathBuf
  pub reason : IoError

pub record RollbackReport : Type 0 where
  pub restored : List PathBuf
  pub failed : List RollbackFailure
  pub deleted : List PathBuf

abbrev pub empty_report : RollbackReport
empty_report = record { restored = []; failed = []; deleted = [] }

unfoldable pub is_fully_restored : RollbackReport → Bool
is_fully_restored report = is_nil report.failed

abbrev pub add_restored : PathBuf → RollbackReport → RollbackReport
add_restored p r = record r { restored = r.restored ++ (p ∷ []) }

abbrev pub add_deleted : PathBuf → RollbackReport → RollbackReport
add_deleted p r = record r { deleted = r.deleted ++ (p ∷ []) }

-- The reason's text is the error's; the fixed words in front of it are left out.
abbrev pub add_failed : PathBuf → IoError → RollbackReport → RollbackReport
add_failed p e r = record r { failed = r.failed ++ (record { path = p; reason = e } ∷ []) }

-- A file that is already gone counts as deleted.
abbrev pub after_failed_removal : PathBuf → IoError → RollbackReport → RollbackReport
after_failed_removal p not_found r = add_deleted p r
after_failed_removal p (other e) r = add_failed p (other e) r

module _ (fs : FileSystem) where
  open fs use {World, write, remove_file}

  abbrev pub restore : FileBackup → Option Text → RollbackReport → World → RollbackReport × World
  restore backup (some original) report w =
      match_result (write backup.path original w) (λ _ w'. (add_restored backup.path report, w'))
        (λ e w'. (add_failed backup.path e report, w'))
  restore backup none report w =
      match_result (remove_file backup.path w) (λ _ w'. (add_deleted backup.path report, w'))
        (λ e w'. (after_failed_removal backup.path e report, w'))

  unfoldable pub rollback_one : FileBackup → RollbackReport → World → RollbackReport × World
  rollback_one backup report w = restore backup backup.original_content report w

  -- The loop of `rollback`, over the backups in the order in which it takes them.
  unfoldable pub rollback_each : List FileBackup → RollbackReport → World → RollbackReport × World
  rollback_each [] report w = (report, w)
  rollback_each (b ∷ bs) report w =
      let (report', w') = rollback_one b report w in rollback_each bs report' w'

  unfoldable pub rollback : ApplyResult → World → RollbackReport × World
  rollback result w = rollback_each (reverse result.modified_files) empty_report w
