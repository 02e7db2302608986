-- ===== src/Strategy/FanOut/Conclude.antt =====
-- src/strategy/parallel_fanout.rs: what follows when the answers are in, and the whole of `execute`.
use loker.Prelude.{
  ℕ, suc, ◌+◌, true, ◌||◌, Option, none, some, List, [], ◌∷◌, if◌then◌else◌, is_nil, ltb, Result,
  ok, err, match_result,
}
use loker.Prelude.Text.{Text, str}
use loker.ApplyVerify.Files.{FileSystem, join}
use loker.Family.{
  Family, family_of, same_family, family_overlap, aggregator_contract, aggregator_rejected,
  judge_unavailable, quorum_lost,
}
use loker.Strategy.{
  outcome_skipped, outcome_of, backend_not_found, phase_error, no_backends, prompt_render,
}
use loker.Strategy.Escalating.{Backend, PhaseContext}
use loker.Aggregator.{BranchSuccess}
use loker.Aggregator.Concat.{Aggregator, llm_judge, vote}
use loker.Aggregator.Verdict.{Json}
use loker.Aggregator.Judge.{
  LlmJudgeError, contract, judge_call, out_of_range, Render, find_backend, aggregate_llm_judge,
}
use loker.Aggregator.Vote.{Deps, VoteError, no_candidates}
use loker.Aggregator.Vote.Tally.{Tallied, aggregate_vote}
use loker.Strategy.FanOut.{
  TargetSpec, ParallelFanOut, FanOutput, FanError, strategy_error, floor_violation, panicked,
  Arrival, Collected, nothing_yet, is_any_fail, FanTexts, write_in_dir, aggregated_path, output_of,
  collect,
}

-- How many candidates have the family.
unfoldable pub count_of : Family → List BranchSuccess → ℕ
count_of family [] = 0
count_of family (c ∷ candidates) =
    let rest = count_of family candidates in
    if same_family (family_of c.backend_id) family then suc rest else rest

abbrev pub judge_error : FanTexts → List BranchSuccess → LlmJudgeError → FanError
judge_error texts candidates (LlmJudgeError.family_overlap judge candidate family) =
    strategy_error (
      phase_error
        (family_overlap (family_of candidate) (count_of (family_of candidate) candidates + 1)))
judge_error texts candidates (contract message) =
    strategy_error (phase_error (aggregator_contract message))
judge_error texts candidates (judge_call e) =
    strategy_error (phase_error (judge_unavailable (texts.display e)))
judge_error texts candidates (LlmJudgeError.backend_not_found name) =
    strategy_error (backend_not_found name)
judge_error texts candidates out_of_range = panicked

abbrev pub vote_error : VoteError → FanError
vote_error (VoteError.quorum_lost abstains threshold) =
    strategy_error (phase_error (quorum_lost abstains threshold))
vote_error no_candidates = strategy_error (phase_error (aggregator_rejected (str "no candidates")))

abbrev pub or_missing : {W : Type 0} → Option (Backend W) → Text → Option Text → Option Text
or_missing (some b) name rest = rest
or_missing none name rest = some name

-- The first target that no backend is named after.
unfoldable pub missing_backend : {W : Type 0} → List (Backend W) → List TargetSpec → Option Text
missing_backend backends [] = none
missing_backend backends (t ∷ targets) =
    or_missing (find_backend t.backend backends) t.backend (missing_backend backends targets)

module _ (fs : FileSystem) {V : Type 0} (json : Json V) (render_ballot : Render) (deps : Deps)
    (texts : FanTexts) (self : ParallelFanOut) (ctx : PhaseContext)
    (backends : List (Backend fs.World)) where
  open fs use {World}

  abbrev pub Done : Type 0
  Done = Result FanOutput FanError × World

  -- The aggregate goes to its file, and the output says what has passed.
  abbrev pub write_aggregate : Text → Text → Collected → World → Done
  write_aggregate hook text c w =
      match_result
        (write_in_dir fs json texts self ctx (join ctx.cwd (aggregated_path fs json texts self ctx))
          text w)
        (λ _ w'. (ok (output_of fs json texts self ctx c.attempts (outcome_of true hook)), w'))
        (λ e w'. (err (strategy_error e), w'))

  abbrev pub voted : Option Tallied → Collected → World → Done
  voted none c w = (err panicked, w)
  voted (some (err e)) c w = (err (vote_error e), w)
  voted (some (ok (a, result))) c w = write_aggregate (str "Vote") a.text c w

  abbrev pub aggregated : Aggregator → Collected → World → Done
  aggregated (llm_judge judge template require_different) c w =
      match_result
        (aggregate_llm_judge json render_ballot c.successful_candidates judge template
          require_different backends w)
        (λ a w'. write_aggregate (str "LLMJudge") a.text c w')
        (λ e w'. (err (judge_error texts c.successful_candidates e), w'))
  aggregated (vote config) c w = voted (aggregate_vote deps c.vote_branches config) c w
  aggregated _ c w = (ok (output_of fs json texts self ctx c.attempts outcome_skipped), w)

  -- What follows the loop.
  unfoldable pub conclude : Collected → World → Done
  conclude c w =
      if is_any_fail self.aggregator
      then (
        ok (
            output_of fs json texts self ctx c.attempts
              (outcome_of true (str "Aggregator::AnyFail"))),
        w,
      )
      else if ltb c.successes self.min_responses
      then (
        err (
            floor_violation c.successes self.min_responses
              (output_of fs json texts self ctx c.attempts outcome_skipped)),
        w,
      )
      else aggregated self.aggregator c w

  abbrev pub with_targets : Option Text → World → (World → Done) → Done
  with_targets (some name) w run = (err (strategy_error (backend_not_found name)), w)
  with_targets none w run = run w

  abbrev pub with_prompt : Result Text Text → World → (World → Done) → Done
  with_prompt (err e) w run = (err (strategy_error (prompt_render e)), w)
  with_prompt (ok rendered) w run = run w

  -- `execute`, where the template engine makes `rendered` of the prompt and the queries end in the
  -- order of the arrivals.
  unfoldable pub execute : (rendered : Result Text Text) → List Arrival → World → Done
  execute rendered arrivals w =
      if is_nil self.targets || is_nil backends
      then (err (strategy_error no_backends), w)
      else with_prompt rendered w (λ w1.
        with_targets (missing_backend backends self.targets) w1 (λ w2.
          match_result (collect fs json texts self ctx arrivals nothing_yet w2)
            (λ c w3. conclude c w3) (λ e w3. (err e, w3))))
