-- ===== src/ApplyVerify/RetryLoop/Atomic.antt =====
-- A loop that fails leaves the files as it found them, on a disk whose writes do not fail.
use loker.Prelude.{
  subst, ℕ, zero, suc, ◌≡◌, refl, ap, ◌∙◌, Bool, true, false, Option, none, some, List, [], ◌∷◌,
  ◌++◌, Result, ok, err, match_result_ind, ◌==◌, if◌then◌else◌, if_ind, is_nil, ◌||◌,
}
use mathlib.Core.List.{reverse}
use loker.Prelude.Text.{Text}
use loker.ApplyVerify.EditParser.{ParsedEdits, EditParseError}
use loker.ApplyVerify.EditParser.Entry.{parse}
use loker.ApplyVerify.Files.{PathBuf, FileSystem, FileLaws, SameFiles, IsUnlinked}
use loker.ApplyVerify.DiffApplier.{FileBackup, ApplyError, ApplyResult, apply}
use loker.ApplyVerify.Rollback.{empty_report, rollback, rollback_each}
use loker.ApplyVerify.Rollback.Reliable.{Reliable, apply-restored, apply_error-restored}
use loker.ApplyVerify.RetryLoop.{
  AttemptRecord, RetryContext, RetryReason, RetryLoopOutcome, RetryLoop, VerifyResult, Calls,
  failure, fresh_record, context_of, Step, stop, again, follow, undo_partial, requery,
  after_parse_error, after_apply_error, after_apply, attempt_parsed, attempt, retry_from, execute,
}

-- The verification command and the requester change no file and no link.
pub record Quiet (fs : FileSystem) (laws : FileLaws fs) (calls : Calls fs) : Type 0 where
  pub verify_keeps : (w : fs.World) → SameFiles fs laws (calls.verify_run w).1 w
  pub request_keeps :
      (c : RetryContext) (w : fs.World) → SameFiles fs laws (calls.request_edits c w).1 w

SameFiles-trans :
    (fs : FileSystem) (laws : FileLaws fs) (u v w : fs.World)
    → SameFiles fs laws u v
    → SameFiles fs laws v w
    → SameFiles fs laws u w
SameFiles-trans fs laws u v w (l, gone, same) (l', gone', same') =
    (l ∙ l', (λ q g. gone' q (gone q g)), λ q. same q ∙ same' q)

-- Rolling nothing back does nothing.
rollback-nothing :
    (fs : FileSystem) (a : ApplyResult) (w : fs.World)
    → is_nil a.modified_files ≡ true
    → (rollback fs a w).1 ≡ w
unfolding rollback rollback_each
rollback-nothing fs a w = go a.modified_files
  where
    go :
        (bs : List FileBackup)
        → is_nil bs ≡ true
        → (rollback_each fs (reverse bs) empty_report w).1 ≡ w
    go [] h = refl
    go (b ∷ bs) h = cc

module _ (fs : FileSystem) (laws : FileLaws fs) (sure : Reliable fs) (calls : Calls fs)
    (quiet : Quiet fs laws calls) (loop : RetryLoop) (cwd : PathBuf) (start : fs.World)
    (unlinked : IsUnlinked fs laws start) where
  open fs use {World}

  abbrev AsBefore : World → Type 0
  AsBefore w = SameFiles fs laws w start

  AsBefore-IsUnlinked : (w : World) → AsBefore w → IsUnlinked fs laws w
  AsBefore-IsUnlinked w (l, gone, same) p g = ap (λ k. laws.sole k p) l ∙ unlinked p (gone p g)

  -- A failed outcome has the files of the start, and so has a step that goes on.
  abbrev Restored : RetryLoopOutcome × World → Type 0
  Restored r = r.0.success ≡ false → AsBefore r.1

  abbrev StepRestored : Step World → Type 0
  StepRestored (stop o w) = Restored (o, w)
  StepRestored (again rs raw w) = AsBefore w

  module _ (rs : List AttemptRecord) where
    requery-Restored :
        (r : AttemptRecord) (reason : RetryReason) (v : Option VerifyResult) (w : World)
        → AsBefore w
        → StepRestored (requery fs calls loop cwd rs r reason v w)
    unfolding requery
    requery-Restored r reason v w same =
        match_result_ind StepRestored (calls.request_edits (context_of r reason) w)
          (λ raw w' e. asked (ok raw) w' e) (λ x w' e h. asked (err x) w' e)
      where
        asked :
            (x : Result Text Text) (w' : World)
            → calls.request_edits (context_of r reason) w ≡ (x, w')
            → AsBefore w'
        asked x w' e =
            SameFiles-trans fs laws w' w start
              (subst (λ (y : Result Text Text × World). SameFiles fs laws y.1 w) e
                (quiet.request_keeps (context_of r reason) w))
              same

    stops_or_asks :
        (test : Bool) (r : AttemptRecord) (reason : RetryReason) (v : Option VerifyResult)
        (w : World)
        → AsBefore w
        → StepRestored (
            if test
            then stop (failure (rs ++ (r ∷ [])) v) w
            else requery fs calls loop cwd rs r reason v w)
    stops_or_asks true r reason v w same = λ h. same
    stops_or_asks false r reason v w same = requery-Restored r reason v w same

    parse_error-Restored :
        (r : AttemptRecord) (e : EditParseError) (w : World)
        → AsBefore w
        → StepRestored (after_parse_error fs calls loop cwd rs r e w)
    unfolding after_parse_error
    parse_error-Restored r e w same =
        stops_or_asks (loop.stop_on_parse_error || r.attempt_num == loop.max_retries) _ _ none w
          same

    undo_partial-Restored :
        (r : AttemptRecord) (partial : ApplyResult) (w : World)
        → AsBefore (rollback fs partial w).1
        → AsBefore (undo_partial fs calls loop cwd partial r w).1
    undo_partial-Restored r partial w h =
        if_ind (λ (x : AttemptRecord × World). AsBefore x.1) (is_nil partial.modified_files) _ _
          (λ nothing. subst AsBefore (rollback-nothing fs partial w nothing) h) (λ some_made. h)

    apply_error-Restored :
        (r : AttemptRecord) (e : ApplyError) (w : World)
        → AsBefore (rollback fs e.partial w).1
        → StepRestored (after_apply_error fs calls loop cwd rs r e w)
    unfolding after_apply_error
    apply_error-Restored r e w same =
        stops_or_asks (r.attempt_num == loop.max_retries) _ _ none _
          (undo_partial-Restored _ e.partial w same)

    after_apply-Restored :
        (r : AttemptRecord) (applied : ApplyResult) (w : World)
        → AsBefore (rollback fs applied (calls.verify_run w).1).1
        → StepRestored (after_apply fs calls loop cwd rs r applied w)
    unfolding after_apply
    after_apply-Restored r applied w same =
        let (result, w') = calls.verify_run w in
        if_ind StepRestored result.success _ _ (λ passed h. cc)
          (λ not_passed. stops_or_asks (r.attempt_num == loop.max_retries) _ _ (some result) _ same)

    attempt-Restored :
        (n : ℕ) (raw : Text) (w : World)
        → AsBefore w
        → StepRestored (attempt fs calls loop cwd rs n raw w)
    unfolding attempt
    attempt-Restored n raw w same = go (parse calls.deps raw)
      where
        go :
            (p : Result ParsedEdits EditParseError)
            → StepRestored (attempt_parsed fs calls loop cwd rs (fresh_record n raw) p w)
        go (err e) = parse_error-Restored (fresh_record n raw) e w same
        go (ok parsed) =
            match_result_ind StepRestored (apply fs parsed cwd w)
              (λ r d e. after_apply-Restored (fresh_record n raw) r d (
                SameFiles-trans fs laws _ w start
                  (apply-restored fs laws sure parsed cwd w d (calls.verify_run d).1 r
                    (AsBefore-IsUnlinked w same) e (quiet.verify_keeps d))
                  same))
              (λ x d e. apply_error-Restored (fresh_record n raw) x d (
                SameFiles-trans fs laws _ w start
                  (apply_error-restored fs laws sure parsed cwd w d x (AsBefore-IsUnlinked w same)
                    e)
                  same))

  follow-Restored :
      (st : Step World) (next : List AttemptRecord → Text → World → RetryLoopOutcome × World)
      → StepRestored st
      → ((rs : List AttemptRecord) (raw : Text) (w : World) → AsBefore w → Restored (next rs raw w))
      → Restored (follow st next)
  follow-Restored (stop o w) next h go = h
  follow-Restored (again rs raw w) next h go = go rs raw w h

  retry_from-Restored :
      (left n : ℕ) (rs : List AttemptRecord) (raw : Text) (w : World)
      → AsBefore w
      → Restored (retry_from fs calls loop cwd left n rs raw w)
  unfolding retry_from
  retry_from-Restored zero n rs raw w same = λ h. same
  retry_from-Restored (suc left) n rs raw w same =
      follow-Restored (attempt fs calls loop cwd rs n raw w) _ (attempt-Restored rs n raw w same)
        (λ rs' raw' w' same'. retry_from-Restored left (suc n) rs' raw' w' same')

-- On a disk without dangling links, whose writes and removals do not fail, with a verification
-- command and a requester that change no file and no link, a run of the retry loop that does not
-- succeed leaves every link and the text of every file as it found them.
pub execute-restores :
    (fs : FileSystem) (laws : FileLaws fs) (sure : Reliable fs) (calls : Calls fs)
    (quiet : Quiet fs laws calls) (loop : RetryLoop) (cwd : PathBuf) (raw : Text) (w : fs.World)
    → IsUnlinked fs laws w
    → (execute fs calls loop cwd raw w).0.success ≡ false
    → SameFiles fs laws (execute fs calls loop cwd raw w).1 w
unfolding execute
execute-restores fs laws sure calls quiet loop cwd raw w unlinked =
    retry_from-Restored fs laws sure calls quiet loop cwd w unlinked (suc loop.max_retries) 0 [] raw
      w (refl, (λ q g. g), λ q. refl)
