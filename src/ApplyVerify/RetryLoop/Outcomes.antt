-- ===== src/ApplyVerify/RetryLoop/Outcomes.antt =====
-- How many attempts the loop makes, how it numbers them, and what its outcome holds.
use loker.Prelude.{ℕ, zero, suc, ◌+◌, ◌≤◌, ◌<◌, ◌≡◌, refl, List, [], length, arith, subst, ◌≢◌}
use loker.Prelude.Text.{Text}
use loker.ApplyVerify.Files.{PathBuf, FileSystem}
use loker.ApplyVerify.RetryLoop.{
  AttemptRecord, RetryLoopOutcome, RetryLoop, Calls, Step, stop, again, follow, attempt, retry_from,
  execute,
}
use loker.ApplyVerify.RetryLoop.Advances.{attempt-Advances, Numbered, Coherent, Advances}

module _ (fs : FileSystem) (calls : Calls fs) (loop : RetryLoop) (cwd : PathBuf) where
  open fs use {World}

  -- What the whole run returns, from the attempt after `rs` on.
  abbrev pub Sound : RetryLoopOutcome → Type 0
  Sound o =
      Numbered 0 o.attempts
      × (0 < length o.attempts)
      × (length o.attempts ≤ loop.max_retries + 1)
      × Coherent o

  follow-Sound :
      (left : ℕ) (rs : List AttemptRecord) (st : Step World)
      (next : List AttemptRecord → Text → World → RetryLoopOutcome × World)
      → length rs + suc left ≡ loop.max_retries + 1
      → Advances fs calls loop cwd (length rs) st
      → ((rs' : List AttemptRecord) (raw : Text) (w : World)
          → Numbered 0 rs'
          → length rs' + left ≡ loop.max_retries + 1
          → (left ≢ 0)
          → Sound (next rs' raw w).0)
      → Sound (follow st next).0
  follow-Sound left rs (stop o w) next e (numbered, count, coherent) go =
      (numbered, omega arith, omega arith, coherent)
  follow-Sound left rs (again rs' raw w) next e (numbered, count, below) go =
      go rs' raw w numbered (omega arith) (ground arith)

  retry_from-Sound :
      (left : ℕ) (rs : List AttemptRecord) (raw : Text) (w : World)
      → Numbered 0 rs
      → length rs + left ≡ loop.max_retries + 1
      → left ≢ 0
      → Sound (retry_from fs calls loop cwd left (length rs) rs raw w).0
  unfolding retry_from
  retry_from-Sound zero rs raw w numbered e some_left = absurd (some_left refl)
  retry_from-Sound (suc left) rs raw w numbered e some_left =
      follow-Sound left rs (attempt fs calls loop cwd rs (length rs) raw w) _ e
        (attempt-Advances fs calls loop cwd rs numbered raw w)
        (λ rs' raw' w' numbered' e' more.
          subst (λ n. Sound (retry_from fs calls loop cwd left n rs' raw' w').0) (omega arith)
            (retry_from-Sound left rs' raw' w' numbered' e' more))

  -- Two runs with rounds enough for the attempts that are left.
  follow_enough :
      (rs : List AttemptRecord) (st : Step World)
      (f g : List AttemptRecord → Text → World → RetryLoopOutcome × World)
      → length rs ≤ loop.max_retries
      → Advances fs calls loop cwd (length rs) st
      → ((rs' : List AttemptRecord) (raw : Text) (w : World)
          → Numbered 0 rs'
          → length rs' ≡ suc (length rs)
          → length rs' ≤ loop.max_retries
          → f rs' raw w ≡ g rs' raw w)
      → follow st f ≡ follow st g
  follow_enough rs (stop o w) f g bound adv h = refl
  follow_enough rs (again rs' raw w) f g bound (numbered, count, below) h =
      h rs' raw w numbered count (ground arith)

  retry_from_enough :
      (a b : ℕ) (rs : List AttemptRecord) (raw : Text) (w : World)
      → Numbered 0 rs
      → length rs ≤ loop.max_retries
      → loop.max_retries + 1 ≤ length rs + a
      → loop.max_retries + 1 ≤ length rs + b
      → retry_from fs calls loop cwd a (length rs) rs raw w
        ≡ retry_from fs calls loop cwd b (length rs) rs raw w
  unfolding retry_from
  retry_from_enough zero b rs raw w numbered bound ha hb = absurd (omega arith)
  retry_from_enough (suc a) zero rs raw w numbered bound ha hb = absurd (omega arith)
  retry_from_enough (suc a) (suc b) rs raw w numbered bound ha hb =
      follow_enough rs (attempt fs calls loop cwd rs (length rs) raw w) _ _ bound
        (attempt-Advances fs calls loop cwd rs numbered raw w)
        (λ rs' raw' w' numbered' count bound'.
          subst
            (λ n.
              retry_from fs calls loop cwd a n rs' raw' w'
              ≡ retry_from fs calls loop cwd b n rs' raw' w')
            count (retry_from_enough a b rs' raw' w' numbered' bound' (omega arith) (omega arith)))

-- The loop makes at least one attempt and at most `max_retries + 1`, numbered from 0 on without a
-- gap. It succeeds with a verification that passed and its apply result, or it fails with no apply
-- result.
pub execute-Sound :
    (fs : FileSystem) (calls : Calls fs) (loop : RetryLoop) (cwd : PathBuf) (raw : Text)
    (w : fs.World)
    → Sound fs calls loop cwd (execute fs calls loop cwd raw w).0
unfolding execute
execute-Sound fs calls loop cwd raw w =
    retry_from-Sound fs calls loop cwd (suc loop.max_retries) [] raw w tt (omega arith)
      (omega arith)

-- The range of the `for` loop is enough: with any more rounds the loop would do the same, so the
-- outcome behind the loop is never reached.
pub execute_enough :
    (fs : FileSystem) (calls : Calls fs) (loop : RetryLoop) (cwd : PathBuf) (raw : Text)
    (w : fs.World) (more : ℕ)
    → retry_from fs calls loop cwd (suc loop.max_retries + more) 0 [] raw w
      ≡ execute fs calls loop cwd raw w
unfolding execute
execute_enough fs calls loop cwd raw w more =
    retry_from_enough fs calls loop cwd (suc loop.max_retries + more) (suc loop.max_retries) [] raw
      w tt (omega arith) (omega arith) (omega arith)
