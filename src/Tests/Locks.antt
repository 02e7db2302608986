-- ===== src/Tests/Locks.antt =====
-- Callers of the lock of one phase, and runs of their steps.
use loker.Prelude.{ℕ, ◌+◌, true, false, none, some, List, [], ◌∷◌, ◌++◌, ◌≡◌, refl, if_ind, ok, err}
use loker.Prelude.Text.{Text, str}
use loker.RunState.Lock.{
  invalid_phase_name, lock_in_use, body, Caller, holding, refused, Act, go, release, crash, body_of,
  run, start, inspect, validate_phase_name, is_expired,
}
use loker.RunState.Lock.Exclusive.{run-exclusive}
use loker.RunState.Lock.Recorded.{inspect-run}
use loker.RunState.Lock.Reclaimed.{calm, attempt, run-crash_reclaimed}

abbrev plan : Text
plan = str "plan"

abbrev callers : ℕ → Caller
callers q = record { run_id = str "r"; pid = q + 100; host = str "h"; ttl_seconds = none }

abbrev first_holds : List (ℕ × Act)
first_holds = attempt 0 (calm 5 false)

second_refused :
    (run plan callers (first_holds ++ attempt 1 (calm 9 false)) (start none)).stages 1
    ≡ refused (lock_in_use plan 100 (str "h") 5)
unfolding run validate_phase_name
second_refused = refl

-- The body is old, and the lock is held: the second caller is refused by the operating system.
second_refused_late :
    (run plan callers (first_holds ++ attempt 1 (calm 500 false)) (start none)).stages 1
    ≡ refused (lock_in_use plan 100 (str "h") 5)
unfolding run validate_phase_name
second_refused_late = refl

-- `release` unlocks and then truncates once more, which takes the body of the next holder away.
released_late :
    let s =
      run plan callers
        (first_holds
          ++ ((0, release (calm 6 false)) ∷ (0, go (calm 6 false)) ∷ attempt 1 (calm 7 false))
          ++ ((0, go (calm 8 false)) ∷ []))
        (start none) in
    (s.stages 1 ≡ holding) × (inspect plan s.content ≡ ok none)
unfolding run validate_phase_name inspect
released_late = (refl, refl)

bad_name : validate_phase_name (str "../plan") ≡ err (invalid_phase_name (str "../plan"))
unfolding validate_phase_name
bad_name = refl

run-exclusive_example : ◌≡◌ {A = ℕ} 0 0
unfolding run validate_phase_name
run-exclusive_example = run-exclusive plan callers first_holds none 0 0 refl refl

inspect-run_example :
    (t : ℕ) × (inspect plan (run plan callers first_holds (start none)).content
      ≡ ok (some (body_of plan callers 0 t)))
unfolding run validate_phase_name
inspect-run_example =
    inspect-run plan callers first_holds none 0 refl
      ((λ e. cc), ((λ e. cc), ((λ e. cc), ((λ e. cc), ((λ e. cc), ((λ e. cc), tt)))))) refl

run-crash_reclaimed_example :
    let s =
      run plan callers
        ((0, crash) ∷ attempt 1 (calm 9 true))
        (run plan callers first_holds (start none)) in
    (s.stages 1 ≡ holding) × (s.content ≡ some (body (body_of plan callers 1 9)))
unfolding run validate_phase_name
run-crash_reclaimed_example =
    run-crash_reclaimed plan callers first_holds none 0 1 9 true refl refl refl
      (λ b e. if_ind (λ x. x ≡ false) (is_expired 9 b) false false (λ h. refl) (λ h. refl))
