-- ===== src/ApplyVerify/RetryLoop/Advances.antt =====
-- What one attempt of the loop leaves: the next one, or the outcome.
use loker.Prelude.{
  ℕ, suc, ◌+◌, ◌≡◌, refl, Bool, true, false, Option, none, some, List, [], ◌∷◌, ◌++◌, length,
  is_nil, Result, ok, err, match_result_ind, ◌==◌, arith, if◌then◌else◌, Bool-cases, inl, inr,
  length-append, ◌||◌, if_ind,
}
use loker.Prelude.Text.{Text}
use loker.ApplyVerify.EditParser.{ParsedEdits, EditParseError}
use loker.ApplyVerify.EditParser.Entry.{parse}
use loker.ApplyVerify.Files.{PathBuf, FileSystem}
use loker.ApplyVerify.DiffApplier.{ApplyError, ApplyResult, apply}
use loker.ApplyVerify.RetryLoop.{
  VerifyResult, AttemptRecord, RetryReason, RetryLoopOutcome, RetryLoop, Calls, failure, context_of,
  fresh_record, Step, stop, again, requery, after_parse_error, after_apply_error, after_apply,
  attempt_parsed, attempt,
}

-- The records are numbered one after the other, from `n` on.
abbrev pub Numbered : ℕ → List AttemptRecord → Type 0
Numbered n [] = Unit
Numbered n (r ∷ rs) = (r.attempt_num ≡ n) × Numbered (suc n) rs

Numbered-snoc :
    (n : ℕ) (rs : List AttemptRecord) (r : AttemptRecord)
    → Numbered n rs
    → r.attempt_num ≡ n + length rs
    → Numbered n (rs ++ (r ∷ []))
Numbered-snoc n [] r h e = (omega (arith, e), tt)
Numbered-snoc n (x ∷ rs) r h e = (h.0, Numbered-snoc (suc n) rs r h.1 (omega arith))

-- The loop succeeds by a verification that passed, and only then it keeps an apply result.
pub data Coherent (o : RetryLoopOutcome) : Type 0 where
  succeeded :
      (v : VerifyResult) (r : ApplyResult)
      → o.success ≡ true
      → o.final_verify ≡ some v
      → v.success ≡ true
      → o.final_apply ≡ some r
      → Coherent o
  failed : o.success ≡ false → o.final_apply ≡ none → Coherent o

module _ (fs : FileSystem) (calls : Calls fs) (loop : RetryLoop) (cwd : PathBuf) where
  open fs use {World}

  -- A step of the attempt with number `n`. It goes on only below the bound.
  abbrev pub Advances : ℕ → Step World → Type 0
  Advances n (stop o w) = Numbered 0 o.attempts × (length o.attempts ≡ suc n) × Coherent o
  Advances n (again rs raw w) =
      Numbered 0 rs × (length rs ≡ suc n) × ((n == loop.max_retries) ≡ false)

  module _ (rs : List AttemptRecord) (numbered : Numbered 0 rs) where
    abbrev snoc : AttemptRecord → List AttemptRecord
    snoc r = rs ++ (r ∷ [])

    length-snoc : (r : AttemptRecord) → length (snoc r) ≡ suc (length rs)
    length-snoc r = omega (arith, length-append rs (r ∷ []))

    stops :
        (r : AttemptRecord) (o : RetryLoopOutcome) (w : World)
        → r.attempt_num ≡ length rs
        → o.attempts ≡ snoc r
        → Coherent o
        → Advances (length rs) (stop o w)
    stops r o w e is c =
        (rw is (Numbered-snoc 0 rs r numbered (omega arith)), rw is (length-snoc r), c)

    fails :
        (r : AttemptRecord) (v : Option VerifyResult) (w : World)
        → r.attempt_num ≡ length rs
        → Advances (length rs) (stop (failure (snoc r) v) w)
    fails r v w e = stops r (failure (snoc r) v) w e refl (failed refl refl)

    requery-Advances :
        (r : AttemptRecord) (reason : RetryReason) (v : Option VerifyResult) (w : World)
        → r.attempt_num ≡ length rs
        → (length rs == loop.max_retries) ≡ false
        → Advances (length rs) (requery fs calls loop cwd rs r reason v w)
    unfolding requery
    requery-Advances r reason v w e below =
        match_result_ind (Advances (length rs)) (calls.request_edits (context_of r reason) w)
          (λ raw w' q. (Numbered-snoc 0 rs r numbered (omega arith), length-snoc r, below))
          (λ x w' q. fails (record r { apply_error = some x }) v w' e)

    -- Stops under the test, which the last attempt passes; else asks for new edits.
    stops_or_asks :
        (test : Bool) (r : AttemptRecord) (reason : RetryReason) (v : Option VerifyResult)
        (w : World)
        → r.attempt_num ≡ length rs
        → (test ≡ false → (length rs == loop.max_retries) ≡ false)
        → Advances (length rs) (
            if test then stop (failure (snoc r) v) w else requery fs calls loop cwd rs r reason v w)
    stops_or_asks true r reason v w e below = fails r v w e
    stops_or_asks false r reason v w e below = requery-Advances r reason v w e (below refl)

    after_parse_error-Advances :
        (raw : Text) (e : EditParseError) (w : World)
        → Advances
            (length rs)
            (after_parse_error fs calls loop cwd rs (fresh_record (length rs) raw) e w)
    unfolding after_parse_error
    after_parse_error-Advances raw e w =
        stops_or_asks (loop.stop_on_parse_error || length rs == loop.max_retries) _ _ none w refl
          (λ h. ground arith)

    after_apply_error-Advances :
        (raw : Text) (e : ApplyError) (w : World)
        → Advances
            (length rs)
            (after_apply_error fs calls loop cwd rs (fresh_record (length rs) raw) e w)
    unfolding after_apply_error
    after_apply_error-Advances raw e w = elim (Bool-cases (is_nil e.partial.modified_files)) [
      | inl none_made ↦
          rw none_made (stops_or_asks (length rs == loop.max_retries) _ _ none _ refl (λ h. h))
      | inr some_made ↦
          rw some_made (stops_or_asks (length rs == loop.max_retries) _ _ none _ refl (λ h. h))
    ]

    after_apply-Advances :
        (raw : Text) (applied : ApplyResult) (w : World)
        → Advances
            (length rs)
            (after_apply fs calls loop cwd rs (fresh_record (length rs) raw) applied w)
    unfolding after_apply
    after_apply-Advances raw applied w =
        let (result, w') = calls.verify_run w in
        if_ind (Advances (length rs)) result.success _ _
          (λ passed. stops _ _ w' refl refl (succeeded result applied refl refl passed refl))
          (λ not_passed.
            stops_or_asks (length rs == loop.max_retries) _ _ (some result) _ refl (λ h. h))

    pub attempt-Advances :
        (raw : Text) (w : World)
        → Advances (length rs) (attempt fs calls loop cwd rs (length rs) raw w)
    unfolding attempt
    attempt-Advances raw w = go (parse calls.deps raw)
      where
        go :
            (r : Result ParsedEdits EditParseError)
            → Advances
                (length rs)
                (attempt_parsed fs calls loop cwd rs (fresh_record (length rs) raw) r w)
        go (err e) = after_parse_error-Advances raw e w
        go (ok parsed) =
            match_result_ind (Advances (length rs)) (apply fs parsed cwd w)
              (λ r w' q. after_apply-Advances raw r w')
              (λ e w' q. after_apply_error-Advances raw e w')
