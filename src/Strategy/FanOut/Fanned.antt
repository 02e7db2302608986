-- ===== src/Strategy/FanOut/Fanned.antt =====
-- What a run of a fan-out comes to, and what the files that it writes say when they fail.
use loker.Prelude.Text.{Text}
use loker.Aggregator.Concat.{llm_judge, vote}
use loker.Prelude.{
  some, ℕ, suc, ◌<◌, ◌≤◌, ◌≡◌, true, false, List, [], ◌∷◌, ◌++◌, if◌then◌else◌, if_ind, length,
  is_ok, In, ◌⊎◌, Result, ok, err, match_result_ind, Bool,
}
use loker.ApplyVerify.Files.{FileSystem, PathBuf, IoError, parent, join}
use loker.ApplyVerify.DiffApplier.{make_dir}
use loker.Strategy.{QueryOutput, Attempt, StrategyError, backend_error, execution_failed}
use loker.Strategy.Escalating.{PhaseContext, is_dot}
use loker.Aggregator.Verdict.{Json, AnyFailReason, any_fail_evaluate}
use loker.Aggregator.{BranchSuccess, BranchOutcome}
use loker.Aggregator.Judge.{LlmJudgeError, Render}
use loker.Aggregator.Judge.Choice.{Judged}
use loker.Aggregator.Vote.{Deps, VoteConfig, VoteError}
use loker.Aggregator.Vote.Elects.{ballots, Decided}
use loker.Strategy.Escalating.{Backend}
use loker.Strategy.FanOut.Conclude.{judge_error, vote_error}
use loker.Strategy.FanOut.{
  ParallelFanOut, FanOutput, FanError, strategy_error, any_fail_violation, floor_violation, Arrival,
  is_any_fail, stops_early, FanTexts, write_branch_output, write_in_dir,
}

-- The arrivals that are answers.
unfoldable pub count_answers : List Arrival → ℕ
count_answers [] = 0
count_answers (a ∷ arrivals) =
    let rest = count_answers arrivals in if is_ok a.result then suc rest else rest

module _ (fs : FileSystem) {V : Type 0} (json : Json V) (render_ballot : Render) (deps : Deps)
    (texts : FanTexts) (self : ParallelFanOut) (ctx : PhaseContext)
    (backends : List (Backend fs.World)) where
  open fs use {World}

  -- An answer that passes the verdict.
  abbrev pub Accepted : Arrival → Type 0
  Accepted a =
      (query : QueryOutput) × (a.result ≡ ok query) × (any_fail_evaluate json query.stdout ≡ ok tt)

  -- A directory that could not be created, or a file that could not be written, with its text.
  pub data IoFailed : Text → Type 0 where
    not_created :
        (path : PathBuf) (x : IoError) (w w' : World)
        → make_dir fs (parent path) w ≡ (err x, w')
        → IoFailed (texts.create_failed path x)
    not_written :
        (path : PathBuf) (text : Text) (x : IoError) (w w' : World)
        → fs.write path text w ≡ (err x, w')
        → IoFailed (texts.write_failed path x)

  -- The errors of the strategy that writing a file ends in.
  abbrev pub Blamed : StrategyError → Type 0
  Blamed (backend_error (execution_failed message)) = IoFailed message
  Blamed _ = ⊥

  -- What comes of the arrivals.
  pub data Fanned (arrivals : List Arrival) : Result FanOutput FanError → Type 0 where
    passed_all :
        (out : FanOutput)
        → is_any_fail self.aggregator ≡ true
        → ((a : Arrival) → In a arrivals → Accepted a)
        → length out.output.attempts ≡ length arrivals
        → Fanned arrivals (ok out)
    rejected :
        (before after : List Arrival) (a : Arrival) (reason : AnyFailReason) (offender : Attempt)
        (out : FanOutput)
        → arrivals ≡ before ++ (a ∷ after)
        → is_any_fail self.aggregator ≡ true
        → ((x : Arrival) → In x before → Accepted x)
        → ¬ Accepted a
        → length out.output.attempts ≡ suc (length before)
        → Fanned arrivals (err (any_fail_violation a.target.backend reason offender out))
    below_floor :
        (out : FanOutput)
        → is_any_fail self.aggregator ≡ false
        → count_answers arrivals < self.min_responses
        → length out.output.attempts ≡ length arrivals
        → Fanned arrivals (err (floor_violation (count_answers arrivals) self.min_responses out))
    met_floor :
        (seen rest : List Arrival) (out : FanOutput)
        → is_any_fail self.aggregator ≡ false
        → arrivals ≡ seen ++ rest
        → (rest ≡ []) ⊎ (stops_early self.aggregator ≡ true)
        → self.min_responses ≤ count_answers seen
        → length out.output.attempts ≡ length seen
        → Fanned arrivals (ok out)
    failed : (e : StrategyError) → Blamed e → Fanned arrivals (err (strategy_error e))
    judge_failed :
        (judge template : Text) (require_different : Bool) (candidates : List BranchSuccess)
        (e : LlmJudgeError) (w w' : World)
        → self.aggregator ≡ llm_judge judge template require_different
        → Judged json render_ballot candidates judge require_different backends w (err e, w')
        → Fanned arrivals (err (judge_error texts candidates e))
    vote_failed :
        (config : VoteConfig) (branches : List BranchOutcome) (e : VoteError)
        → self.aggregator ≡ vote config
        → Decided (ballots deps branches) (length branches) config.abstain_threshold (some (err e))
        → Fanned arrivals (err (vote_error e))

  abbrev pub Says : Result (Unit {0}) StrategyError → Type 0
  Says (ok u) = Unit
  Says (err e) = Blamed e

  pub write_in_dir-Says :
      (path : PathBuf) (text : Text) (w : World)
      → Says (write_in_dir fs json texts self ctx path text w).0
  write_in_dir-Says path text w =
      match_result_ind (λ (r : Result (Unit {0}) StrategyError × World). Says r.0)
        (make_dir fs (parent path) w)
        (λ u w' e.
          match_result_ind (λ (r : Result (Unit {0}) StrategyError × World). Says r.0)
            (fs.write path text w') (λ u w'' f. tt) (λ x w'' f. not_written path text x w' w'' f))
        (λ x w' e. not_created path x w w' e)

  pub write_branch_output-Says :
      (output_path text : Text) (w : World)
      → Says (write_branch_output fs json texts self ctx output_path text w).0
  unfolding write_branch_output
  write_branch_output-Says output_path text w =
      if_ind (λ (r : Result (Unit {0}) StrategyError × World). Says r.0) (is_dot ctx.cwd) _ _
        (λ h. tt) (λ h. write_in_dir-Says (join ctx.cwd output_path) text w)
