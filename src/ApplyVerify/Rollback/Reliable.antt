-- ===== src/ApplyVerify/Rollback/Reliable.antt =====
-- Apply and rollback on a disk whose writes do not fail.
use loker.Prelude.{
  ◌≡◌, refl, subst, ◌∙◌, Bool, true, false, Option, none, some, List, [], ◌∷◌, ◌++◌, Result, ok,
  err, match_result_ind, ◌==◌, if◌then◌else◌, is_nil, ◌⊎◌, inl, inr, ltb,
}
use mathlib.Core.List.{reverse}
use loker.Prelude.Text.{Text, match_count}
use loker.ApplyVerify.EditParser.{
  FileEdit, EditFormat, unified_diff, json_old_new, full_file, ParsedEdits,
}
use loker.ApplyVerify.Files.{
  PathBuf, parent, join, IoError, not_found, other, FileSystem, FileLaws, SameFiles, IsUnlinked,
}
use loker.ApplyVerify.DiffApplier.{
  FileBackup, ApplyErrorKind, missing, escapes, make_dir, make_parent, write_backup, create_file,
  full_file_over, find_replace_over, replace_in, apply_as, apply_full_file, apply_find_replace,
  ApplyError, ApplyResult, apply_one, apply_edits, apply,
}
use loker.ApplyVerify.DiffApplier.Effects.{touched}
use loker.ApplyVerify.Rollback.{
  RollbackReport, empty_report, is_fully_restored, after_failed_removal, restore, rollback_one,
  rollback_each, rollback,
}
use loker.ApplyVerify.Rollback.Undo.{rollback-apply, rollback-apply_error}

-- Every write succeeds, and so does every removal of a file that is there.
pub record Reliable (fs : FileSystem) : Type 0 where
  pub writes : (p : PathBuf) (t : Text) (w : fs.World) → (fs.write p t w).0 ≡ ok tt
  pub removes :
      (p : PathBuf) (w : fs.World)
      → ((fs.remove_file p w).0 ≡ ok tt) ⊎ ((fs.remove_file p w).0 ≡ err not_found)
  pub creates : (p : PathBuf) (w : fs.World) → (fs.create_dir_all p w).0 ≡ ok tt

module _ (fs : FileSystem) (laws : FileLaws fs) (sure : Reliable fs) where
  open fs use {World}

  restore_reports :
      (b : FileBackup) (o : Option Text) (r : RollbackReport) (w : World)
      → (restore fs b o r w).0.failed ≡ r.failed
  restore_reports b (some t) r w =
      match_result_ind (λ (x : RollbackReport × World). x.0.failed ≡ r.failed) (fs.write b.path t w)
        (λ u w' e. refl) (λ x w' e. cc (rw e at (sure.writes b.path t w)))
  restore_reports b none r w =
      match_result_ind (λ (x : RollbackReport × World). x.0.failed ≡ r.failed)
        (fs.remove_file b.path w) (λ u w' e. refl)
        (λ x w' e. removal x (rw e at (sure.removes b.path w)))
    where
      removal :
          (x : IoError)
          → (◌≡◌ {A = Result (Unit {0}) IoError} (err x) (ok tt))
            ⊎ (◌≡◌ {A = Result (Unit {0}) IoError} (err x) (err not_found))
          → (after_failed_removal b.path x r).failed ≡ r.failed
      removal not_found h = refl
      removal (other x) (inl h) = cc
      removal (other x) (inr h) = cc

  each_reports :
      (bs : List FileBackup) (r : RollbackReport) (w : World)
      → (rollback_each fs bs r w).0.failed ≡ r.failed
  unfolding rollback_each rollback_one
  each_reports [] r w = refl
  each_reports (b ∷ bs) r w = each_reports bs _ _ ∙ restore_reports b b.original_content r w

  rollback-restored : (a : ApplyResult) (w : World) → is_fully_restored (rollback fs a w).0 ≡ true
  unfolding rollback is_fully_restored
  rollback-restored a w = rw (each_reports (reverse a.modified_files) empty_report w)

  -- No edit fails by a write.
  abbrev NoWriteFailed : Result FileBackup ApplyErrorKind × World → Type 0
  NoWriteFailed (ok b, w) = Unit
  NoWriteFailed (err kind, w) = (l : laws.Links) (q : PathBuf) → touched fs laws l kind q ≡ false

  NoWriteFailed-if :
      (b : Bool) (x y : Result FileBackup ApplyErrorKind × World)
      → NoWriteFailed x
      → NoWriteFailed y
      → NoWriteFailed (if b then x else y)
  NoWriteFailed-if true x y hx hy = hx
  NoWriteFailed-if false x y hx hy = hy

  write_backup-NoWriteFailed :
      (p : PathBuf) (o : Option Text) (t : Text) (w : World)
      → NoWriteFailed (write_backup fs p o t w)
  write_backup-NoWriteFailed p o t w =
      match_result_ind NoWriteFailed (fs.write p t w) (λ u w' e. tt)
        (λ x w' e. cc (rw e at (sure.writes p t w)))

  make_dir_ok : (o : Option PathBuf) (w : World) → (make_dir fs o w).0 ≡ ok tt
  make_dir_ok none w = refl
  make_dir_ok (some []) w = refl
  make_dir_ok (some (c ∷ cs)) w = sure.creates (c ∷ cs) w

  create_file-NoWriteFailed :
      (p : PathBuf) (t : Text) (w : World) → NoWriteFailed (create_file fs p t w)
  create_file-NoWriteFailed p t w =
      match_result_ind NoWriteFailed (make_parent fs p w)
        (λ u w' e. write_backup-NoWriteFailed p none t w')
        (λ x w' e. cc (rw e at (make_dir_ok (parent p) w)))

  full_file-NoWriteFailed :
      (edit : FileEdit) (p : PathBuf) (r : Result Text IoError) (w : World)
      → NoWriteFailed (full_file_over fs edit p r w)
  full_file-NoWriteFailed edit p (ok c) w = write_backup-NoWriteFailed p (some c) edit.new w
  full_file-NoWriteFailed edit p (err not_found) w = create_file-NoWriteFailed p edit.new w
  full_file-NoWriteFailed edit p (err (other x)) w = λ l q. refl

  missing-untouched :
      (format : EditFormat) (p : PathBuf) (old : Text) (l : laws.Links) (q : PathBuf)
      → touched fs laws l (missing format p old) q ≡ false
  missing-untouched unified_diff p old l q = refl
  missing-untouched json_old_new p old l q = refl
  missing-untouched full_file p old l q = refl

  find_replace-NoWriteFailed :
      (edit : FileEdit) (p : PathBuf) (format : EditFormat) (r : Result Text IoError) (w : World)
      → NoWriteFailed (find_replace_over fs edit p format r w)
  unfolding replace_in
  find_replace-NoWriteFailed edit p format (ok c) w =
      let count = match_count c edit.old in
      NoWriteFailed-if (is_nil edit.old) _ _ (λ l q. refl)
        (NoWriteFailed-if (count == 0) _ _ (missing-untouched format p edit.old) (
          NoWriteFailed-if (ltb 1 count) _ _ (λ l q. refl)
            (write_backup-NoWriteFailed p (some c) _ w)))
  find_replace-NoWriteFailed edit p format (err not_found) w = λ l q. refl
  find_replace-NoWriteFailed edit p format (err (other x)) w = λ l q. refl

  apply_as-NoWriteFailed :
      (format : EditFormat) (edit : FileEdit) (p : PathBuf) (w : World)
      → NoWriteFailed (apply_as fs format edit p w)
  unfolding apply_full_file apply_find_replace
  apply_as-NoWriteFailed full_file edit p w =
      full_file-NoWriteFailed edit p (fs.read_to_string p w) w
  apply_as-NoWriteFailed json_old_new edit p w =
      find_replace-NoWriteFailed edit p json_old_new (fs.read_to_string p w) w
  apply_as-NoWriteFailed unified_diff edit p w =
      find_replace-NoWriteFailed edit p unified_diff (fs.read_to_string p w) w

  apply_one-NoWriteFailed :
      (cwd : PathBuf) (format : EditFormat) (edit : FileEdit) (w : World)
      → NoWriteFailed (apply_one fs cwd format edit w)
  unfolding apply_one
  apply_one-NoWriteFailed cwd format edit w =
      NoWriteFailed-if (is_nil edit.file) _ _ (λ l q. refl)
        (NoWriteFailed-if (escapes cwd edit.file) _ _ (λ l q. refl)
          (apply_as-NoWriteFailed format edit (join cwd edit.file) w))

  abbrev Untouched : Result ApplyResult ApplyError × World → Type 0
  Untouched (ok r, w) = Unit
  Untouched (err x, w) = (l : laws.Links) (q : PathBuf) → touched fs laws l x.kind q ≡ false

  apply_edits-Untouched :
      (cwd : PathBuf) (format : EditFormat) (edits : List FileEdit) (made : List FileBackup)
      (w : World)
      → Untouched (apply_edits fs cwd format made edits w)
  unfolding apply_edits
  apply_edits-Untouched cwd format [] made w = tt
  apply_edits-Untouched cwd format (edit ∷ edits) made w =
      match_result_ind Untouched (apply_one fs cwd format edit w)
        (λ b w' e. apply_edits-Untouched cwd format edits (made ++ (b ∷ [])) w')
        (λ kind w' e. subst NoWriteFailed e (apply_one-NoWriteFailed cwd format edit w))

  pub apply-restored :
      (parsed : ParsedEdits) (cwd : PathBuf) (v d w : World) (r : ApplyResult)
      → IsUnlinked fs laws v
      → apply fs parsed cwd v ≡ (ok r, d)
      → SameFiles fs laws w d
      → SameFiles fs laws (rollback fs r w).1 v
  apply-restored parsed cwd v d w r h e same_files =
      rollback-apply fs laws parsed cwd v d w h r e same_files (rollback-restored r w)

  pub apply_error-restored :
      (parsed : ParsedEdits) (cwd : PathBuf) (v d : World) (x : ApplyError)
      → IsUnlinked fs laws v
      → apply fs parsed cwd v ≡ (err x, d)
      → SameFiles fs laws (rollback fs x.partial d).1 v
  unfolding apply
  apply_error-restored parsed cwd v d x h e =
      let undone =
        rollback-apply_error fs laws parsed cwd v d d h x e (refl, (λ p g. g), λ p. refl)
          (rollback-restored x.partial d) in
      (
        undone.0,
        undone.1,
        λ q. undone.2 q (
            subst Untouched e (apply_edits-Untouched cwd parsed.format parsed.edits [] v)
              (laws.links v) q),
      )
