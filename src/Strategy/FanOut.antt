-- ===== src/Strategy/FanOut.antt =====
-- src/strategy/parallel_fanout.rs: one prompt to several backends at once, and what their answers
-- come to. The order in which the queries end is the list of arrivals.
pub mod Conclude
pub mod Fanned
pub mod Gathered
pub mod Concluded
pub mod Floor
use loker.Prelude.{
  ℕ, zero, suc, ◌+◌, Bool, true, false, ◌&&◌, Option, none, some, List, [], ◌∷◌, ◌++◌,
  if◌then◌else◌, is_nil, length, leb, ltb, or_else, unwrap_or, Result, ok, err, match_result,
}
use loker.Prelude.Text.{Text, str, text_eq}
use loker.Prelude.Decimal.{decimal}
use loker.ApplyVerify.Files.{PathBuf, IoError, FileSystem, join, parent}
use loker.ApplyVerify.DiffApplier.{make_dir}
use loker.Family.{family_of, as_str}
use loker.Strategy.{
  BackendError, execution_failed, QueryOutput, parallel, stop, error, no_usage, usage_report,
  VerifyOutcome, outcome_skipped, outcome_of, Attempt, StrategyOutput, StrategyError,
  backend_not_found, no_backends, prompt_render, backend_error, non_empty,
}
use loker.Strategy.Escalating.{Backend, PhaseContext, is_dot}
use loker.Aggregator.{BranchSuccess, BranchOutcome, success, failure}
use loker.Aggregator.Concat.{Aggregator, first, concat, any_fail, all_pass, llm_judge, vote}
use loker.Aggregator.Verdict.{Json, AnyFailReason, backend_failed, any_fail_evaluate}

pub record TargetSpec : Type 0 where
  pub backend : Text
  pub model : Option Text

pub record ParallelFanOut : Type 0 where
  pub targets : List TargetSpec
  pub min_responses : ℕ
  pub prompt_template : Text
  pub aggregator : Aggregator

-- An output with the fields that only this strategy fills, but for the name of the aggregator.
pub record FanOutput : Type 0 where
  pub output : StrategyOutput
  pub aggregate_output_path : Text
  pub verify : VerifyOutcome

-- `StrategyError`, with the two variants that only this strategy returns.
pub data FanError : Type 0 where
  strategy_error : StrategyError → FanError
  -- A panic of the source.
  panicked : FanError
  any_fail_violation :
      (backend : Text) → AnyFailReason → (offender : Attempt) → FanOutput → FanError
  floor_violation : (successes min_responses : ℕ) → FanOutput → FanError

-- A query that has ended: the index of its target, the target and the result.
pub record Arrival : Type 0 where
  pub idx : ℕ
  pub target : TargetSpec
  pub result : Result QueryOutput BackendError

-- What the loop collects.
pub record Collected : Type 0 where
  pub attempts : List Attempt
  pub successes : ℕ
  pub successful_candidates : List BranchSuccess
  pub vote_branches : List BranchOutcome

abbrev pub nothing_yet : Collected
nothing_yet = record {
  attempts = [];
  successes = 0;
  successful_candidates = [];
  vote_branches = [];
}

abbrev pub is_any_fail : Aggregator → Bool
is_any_fail any_fail = true
is_any_fail _ = false

abbrev pub is_vote : Aggregator → Bool
is_vote (vote c) = true
is_vote _ = false

-- The aggregators that do not need all the answers.
abbrev pub stops_early : Aggregator → Bool
stops_early first = true
stops_early (concat t) = true
stops_early _ = false

-- The texts of errors.
pub record FanTexts : Type 0 where
  pub create_failed : PathBuf → IoError → Text
  pub write_failed : PathBuf → IoError → Text
  pub display : BackendError → Text

pub data LoopStep (W : Type 0) : Type 0 where
  go_on : Collected → W → LoopStep W
  break_off : Collected → W → LoopStep W
  ended : FanError → W → LoopStep W

module _ (fs : FileSystem) {V : Type 0} (json : Json V) (texts : FanTexts) (self : ParallelFanOut)
    (ctx : PhaseContext) where
  open fs use {World}

  abbrev pub write_to : PathBuf → Text → World → Result (Unit {0}) StrategyError × World
  write_to path text w =
      match_result (fs.write path text w) (λ _ w'. (ok tt, w'))
        (λ e w'. (err (backend_error (execution_failed (texts.write_failed path e))), w'))

  -- Creating the directory of a path and writing to it.
  abbrev pub write_in_dir : PathBuf → Text → World → Result (Unit {0}) StrategyError × World
  write_in_dir path text w =
      match_result (make_dir fs (parent path) w) (λ _ w'. write_to path text w')
        (λ e w'. (err (backend_error (execution_failed (texts.create_failed path e))), w'))

  unfoldable pub write_branch_output : Text → Text → World → Result (Unit {0}) StrategyError × World
  write_branch_output output_path text w =
      if is_dot ctx.cwd then (ok tt, w) else write_in_dir (join ctx.cwd output_path) text w

  abbrev pub output_path_of : ℕ → Text
  output_path_of idx = ctx.phase_name ++ (str "/attempts/" ++ (decimal idx ++ str "-parallel.txt"))

  abbrev pub aggregated_path : Text
  aggregated_path = ctx.phase_name ++ str "/aggregated.txt"

  -- `pick_model_override`, and the choice that the error path writes out.
  abbrev pub pick_model_override : Option Text → TargetSpec → Text
  pick_model_override reported target =
      unwrap_or
        (or_else (non_empty reported) (or_else (non_empty target.model) (non_empty ctx.model)))
        (str "default")

  abbrev pub family_text : TargetSpec → Text
  family_text target = as_str (family_of target.backend)

  abbrev pub answered : Arrival → QueryOutput → Attempt
  answered a query = record {
    tier = none;
    family = some (family_text a.target);
    backend = a.target.backend;
    model = pick_model_override query.model a.target;
    finish_reasons = stop ∷ [];
    usage = usage_report query.usage;
    output_path = output_path_of a.idx;
    verify = outcome_skipped;
    duration = query.duration;
  }

  abbrev pub errored : Arrival → Attempt
  errored a = record {
    tier = none;
    family = some (family_text a.target);
    backend = a.target.backend;
    model = pick_model_override none a.target;
    finish_reasons = error ∷ [];
    usage = no_usage;
    output_path = output_path_of a.idx;
    verify = outcome_skipped;
    duration = 0;
  }

  abbrev pub output_of : List Attempt → VerifyOutcome → FanOutput
  output_of attempts verify = record {
    output = record {
      strategy = parallel;
      phase = ctx.phase_name;
      run_id = ctx.run_id;
      attempts = attempts;
      final_status = none;
    };
    aggregate_output_path = aggregated_path;
    verify = verify;
  }

  abbrev pub violated : Arrival → AnyFailReason → Attempt → List Attempt → FanError
  violated a reason offender attempts =
      any_fail_violation a.target.backend reason offender
        (output_of (attempts ++ (offender ∷ [])) (outcome_of false (str "Aggregator::AnyFail")))

  abbrev pub push_vote : BranchOutcome → List BranchOutcome → List BranchOutcome
  push_vote b branches = if is_vote self.aggregator then branches ++ (b ∷ []) else branches

  abbrev pub branch_success : Arrival → QueryOutput → Collected → BranchSuccess
  branch_success a query c = record {
    backend_id = a.target.backend;
    family = family_text a.target;
    index = length c.successful_candidates + 1;
    output = query.stdout;
  }

  abbrev pub with_success : Arrival → QueryOutput → Collected → Collected
  with_success a query c = record {
    attempts = c.attempts ++ (answered a query ∷ []);
    successes = suc c.successes;
    successful_candidates = c.successful_candidates ++ (branch_success a query c ∷ []);
    vote_branches = push_vote (success (branch_success a query c)) c.vote_branches;
  }

  abbrev pub with_failure : Arrival → BackendError → Collected → Collected
  with_failure a e c = record c {
    attempts = c.attempts ++ (errored a ∷ []);
    vote_branches =
        push_vote
          (failure (record {
            backend_id = a.target.backend;
            family = family_text a.target;
            index = length c.attempts + 1;
            reason = texts.display e;
          }))
          c.vote_branches;
  }

  abbrev pub counted : Collected → World → LoopStep World
  counted c w =
      if stops_early self.aggregator && leb self.min_responses c.successes
      then break_off c w
      else go_on c w

  abbrev pub judged :
      Result (Unit {0}) AnyFailReason → Arrival → QueryOutput → Collected → World → LoopStep World
  judged (err reason) a query c w = ended (violated a reason (answered a query) c.attempts) w
  judged (ok u) a query c w = counted (with_success a query c) w

  abbrev pub verdict : QueryOutput → Result (Unit {0}) AnyFailReason
  verdict query = if is_any_fail self.aggregator then any_fail_evaluate json query.stdout else ok tt

  -- The body of the loop.
  abbrev pub arrive : Result QueryOutput BackendError → Arrival → Collected → World → LoopStep World
  arrive (ok query) a c w =
      match_result (write_branch_output (output_path_of a.idx) query.stdout w)
        (λ _ w'. judged (verdict query) a query c w') (λ e w'. ended (strategy_error e) w')
  arrive (err e) a c w =
      if is_any_fail self.aggregator
      then ended (violated a (backend_failed (texts.display e)) (errored a) c.attempts) w
      else go_on (with_failure a e c) w

  abbrev pub next :
      LoopStep World
      → (Collected → World → Result Collected FanError × World)
      → Result Collected FanError × World
  next (ended e w) rest = (err e, w)
  next (break_off c w) rest = (ok c, w)
  next (go_on c w) rest = rest c w

  -- The loop; dropping the queries that have not ended cancels them.
  unfoldable pub collect : List Arrival → Collected → World → Result Collected FanError × World
  collect [] c w = (ok c, w)
  collect (a ∷ arrivals) c w = next (arrive a.result a c w) (λ c' w'. collect arrivals c' w')
