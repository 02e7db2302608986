-- ===== src/Strategy/Escalating.antt =====
-- src/strategy/escalating_retry.rs: a ladder of backends, climbed until a verification passes.
-- The backends, the verification hook, the template engine and the texts of errors are parameters.
pub mod Climbed
pub mod Climb
use loker.Prelude.{
  ℕ, zero, suc, ◌+◌, Bool, true, false, Option, none, some, List, [], ◌∷◌, ◌++◌, if◌then◌else◌,
  is_nil, Result, ok, err, match_result, ltb, ◌&&◌, ◌||◌,
}
use loker.Prelude.Text.{Text, str, text_eq}
use loker.Prelude.Decimal.{decimal}
use loker.ApplyVerify.Files.{Component, cur_dir, PathBuf, IoError, FileSystem, join, parent}
use loker.ApplyVerify.DiffApplier.{make_dir}
use loker.Strategy.{
  BackendError, execution_failed, QueryOutput, escalating, Tier, tier_str, succeeded, exhausted,
  stop, error, no_usage, usage_report, outcome_skipped, outcome_of, Attempt, StrategyOutput,
  StrategyError, backend_not_found, no_backends, prompt_render, backend_error, all_exhausted,
  pick_model,
}
use loker.Strategy.Envelope.{
  Texts, FailureContext, from_verify_fail, from_backend_error, build_failure_envelope,
}

pub record Rung : Type 0 where
  pub tier : Tier
  pub backend : Text

-- `VerifyResult` of src/strategy/verify/verify.rs; of a failure's reason the summary is read.
pub data VerifyResult : Type 0 where
  pass_result : VerifyResult
  fail_result : (summary : Text) → VerifyResult
  repair_result : (suggestion : Text) → VerifyResult
  score_result : (score : ℕ) → VerifyResult

abbrev pub is_pass : VerifyResult → Bool
is_pass pass_result = true
is_pass _ = false

abbrev pub reason_of : VerifyResult → Text
reason_of (fail_result summary) = summary
reason_of _ = str "verify did not pass"

pub record Backend (W : Type 0) : Type 0 where
  pub name : Text
  pub query : (prompt : Text) → (model : Option Text) → W → Result QueryOutput BackendError × W

-- The hook of the strategy, `TemplateEngine::render` and the texts of errors. A verification that
-- fails to run returns its message.
pub record Services (fs : FileSystem) : Type 0 where
  pub texts : Texts
  pub hook_name : Text
  pub verify : QueryOutput → fs.World → Result VerifyResult Text × fs.World
  pub render : Text → Result Text Text
  pub create_failed : PathBuf → IoError → Text
  pub write_failed : PathBuf → IoError → Text

pub record EscalatingRetry : Type 0 where
  pub rungs : List Rung
  pub prompt_template : Text
  pub pass_failure_context : Bool

-- The fields of `PhaseContext` that the strategy reads, and the model of the prompt.
pub record PhaseContext : Type 0 where
  pub phase_name : Text
  pub run_id : ℕ
  pub cwd : PathBuf
  pub model : Option Text

-- What comes of a rung: the ladder ends, or the next rung is told of the failure.
pub data RungStep (W : Type 0) : Type 0 where
  ended : Result StrategyOutput StrategyError → W → RungStep W
  failed : Attempt → Option FailureContext → W → RungStep W

abbrev pub is_dot : PathBuf → Bool
is_dot (cur_dir ∷ []) = true
is_dot _ = false

abbrev pub output_of : PhaseContext → List Attempt → StrategyOutput
output_of ctx attempts = record {
  strategy = escalating;
  phase = ctx.phase_name;
  run_id = ctx.run_id;
  attempts = attempts;
  final_status = some succeeded;
}

module _ (fs : FileSystem) (services : Services fs) (self : EscalatingRetry)
    (ctx : PhaseContext) where
  open fs use {World}
  open services use {texts, hook_name, verify, render}

  abbrev pub write_to : PathBuf → Text → World → Result (Unit {0}) StrategyError × World
  write_to path text w =
      match_result (fs.write path text w) (λ _ w'. (ok tt, w'))
        (λ e w'. (err (backend_error (execution_failed (services.write_failed path e))), w'))

  unfoldable pub write_strategy_output :
      Text → Text → World → Result (Unit {0}) StrategyError × World
  write_strategy_output output_path text w =
      let path = join ctx.cwd output_path in
      if is_dot ctx.cwd
      then (ok tt, w)
      else match_result (make_dir fs (parent path) w) (λ _ w'. write_to path text w')
          (λ e w'. (err (backend_error (execution_failed (services.create_failed path e))), w'))

  -- `pass_failure_context.then(..)`
  abbrev pub kept : FailureContext → Option FailureContext
  kept failure = if self.pass_failure_context then some failure else none

  abbrev pub told : Text → Option FailureContext → Option Text
  told rendered none = some rendered
  told rendered (some failure) = elim (build_failure_envelope texts failure rendered) [
    | none ↦ none
    | some envelope ↦ some (texts.redact_secrets envelope)
  ]

  -- The prompt of the rung with index `idx`; `none` stands for a loop that does not end.
  unfoldable pub rung_prompt : ℕ → Text → Option FailureContext → Option Text
  rung_prompt idx rendered previous =
      if ltb 0 idx && self.pass_failure_context then told rendered previous else some rendered

  abbrev pub output_path_of : ℕ → Rung → Text
  output_path_of idx rung =
      ctx.phase_name
      ++ str "/attempts/"
      ++ decimal (idx + 1)
      ++ str "-"
      ++ tier_str rung.tier
      ++ str ".md"

  abbrev pub queried : ℕ → Rung → Text → QueryOutput → Bool → Attempt
  queried idx rung name query passed = record {
    tier = some rung.tier;
    family = none;
    backend = name;
    model = pick_model query.model ctx.model;
    finish_reasons = stop ∷ [];
    usage = usage_report query.usage;
    output_path = output_path_of idx rung;
    verify = outcome_of passed hook_name;
    duration = query.duration;
  }

  -- The verification of an output that has been written.
  unfoldable pub verify_rung : ℕ → Rung → Text → List Attempt → QueryOutput → World → RungStep World
  verify_rung idx rung name attempts query w =
      match_result (verify query w)
        (λ result w'.
          if is_pass result
          then ended (ok (output_of ctx (attempts ++ (queried idx rung name query true ∷ [])))) w'
          else failed (queried idx rung name query false)
              (kept (from_verify_fail texts rung.tier name (reason_of result) (some query.stdout)))
              w')
        (λ message w'.
          failed (queried idx rung name query false)
            (kept (from_verify_fail texts rung.tier name message (some query.stdout))) w')

  abbrev pub errored : ℕ → Rung → Attempt
  errored idx rung = record {
    tier = some rung.tier;
    family = none;
    backend = rung.backend;
    model = pick_model none ctx.model;
    finish_reasons = error ∷ [];
    usage = no_usage;
    output_path = output_path_of idx rung;
    verify = outcome_skipped;
    duration = 0;
  }

  unfoldable pub query_rung :
      ℕ → Rung → Backend World → List Attempt → Text → World → RungStep World
  query_rung idx rung backend attempts prompt w =
      match_result (backend.query prompt ctx.model w)
        (λ query w'.
          match_result (write_strategy_output (output_path_of idx rung) query.stdout w')
            (λ _ w''. verify_rung idx rung backend.name attempts query w'')
            (λ e w''. ended (err e) w''))
        (λ e w'.
          failed (errored idx rung) (kept (from_backend_error texts rung.tier backend.name e)) w')

  -- `backends.iter().find(|b| b.name() == rung.backend)`
  abbrev pub find_backend : Text → List (Backend World) → Option (Backend World)
  find_backend name [] = none
  find_backend name (b ∷ bs) =
      let rest = find_backend name bs in if text_eq b.name name then some b else rest

  abbrev pub with_prompt : Option Text → (Text → Option (RungStep World)) → Option (RungStep World)
  with_prompt none next = none
  with_prompt (some prompt) next = next prompt

  abbrev pub on_backend :
      Option (Backend World)
      → Rung
      → World
      → (Backend World → Option (RungStep World))
      → Option (RungStep World)
  on_backend none rung w next = some (ended (err (backend_not_found rung.backend)) w)
  on_backend (some backend) rung w next = next backend

  -- The body of the `for` loop.
  unfoldable pub climb_rung :
      List (Backend World)
      → Text
      → ℕ
      → Rung
      → List Attempt
      → Option FailureContext
      → World
      → Option (RungStep World)
  climb_rung backends rendered idx rung attempts previous w =
      on_backend (find_backend rung.backend backends) rung w (λ backend.
        with_prompt (rung_prompt idx rendered previous)
          (λ prompt. some (query_rung idx rung backend attempts prompt w)))

  abbrev pub Ended : Type 0
  Ended = Option (Result StrategyOutput StrategyError × World)

  abbrev pub continue :
      Option (RungStep World) → (Attempt → Option FailureContext → World → Ended) → Ended
  continue none next = none
  continue (some (ended r w)) next = some (r, w)
  continue (some (failed attempt previous w)) next = next attempt previous w

  unfoldable pub climb :
      List (Backend World)
      → Text
      → ℕ
      → List Rung
      → List Attempt
      → Option FailureContext
      → World
      → Ended
  climb backends rendered idx [] attempts previous w =
      some
        (err (all_exhausted (record (output_of ctx attempts) { final_status = some exhausted })), w)
  climb backends rendered idx (rung ∷ rungs) attempts previous w =
      continue (climb_rung backends rendered idx rung attempts previous w) (λ attempt previous' w'.
        climb backends rendered (suc idx) rungs (attempts ++ (attempt ∷ [])) previous' w')

  abbrev pub rendered_over : List (Backend World) → Result Text Text → World → Ended
  rendered_over backends (err e) w = some (err (prompt_render e), w)
  rendered_over backends (ok rendered) w = climb backends rendered 0 self.rungs [] none w

  unfoldable pub execute : List (Backend World) → World → Ended
  execute backends w =
      if is_nil self.rungs || is_nil backends
      then some (err no_backends, w)
      else rendered_over backends (render self.prompt_template) w
