-- ===== src/Strategy.antt =====
-- src/strategy/mod.rs: what a strategy records of a phase, with the backend's results of
-- src/backend/mod.rs.
pub mod Envelope
pub mod Escalating
pub mod Retry
pub mod FanOut
use loker.Prelude.{
  ℕ, Option, none, some, List, [], ◌∷◌, Bool, true, false, if◌then◌else◌, is_nil, or_else,
  unwrap_or,
}
use loker.Prelude.Text.{Text, str}
use loker.Family.{PhaseError}

-- `elapsed_ms` and `exit_code` are left out.
pub data BackendError : Type 0 where
  timeout auth network parse execution_failed unavailable config : (message : Text) → BackendError
  rate_limit : (message : Text) → (retry_after_ms : Option ℕ) → BackendError

pub record TokenUsage : Type 0 where
  pub prompt_tokens : ℕ
  pub completion_tokens : ℕ

-- The fields that a strategy reads.
pub record QueryOutput : Type 0 where
  pub stdout : Text
  pub model : Option Text
  pub duration : ℕ
  pub usage : Option TokenUsage

pub data StrategyKind : Type 0 where
  single escalating parallel : StrategyKind

pub data Tier : Type 0 where
  cheap medium strong : Tier

abbrev pub tier_str : Tier → Text
tier_str cheap = str "cheap"
tier_str medium = str "medium"
tier_str strong = str "strong"

pub data FinalStatus : Type 0 where
  succeeded exhausted aborted : FinalStatus

pub data FinishReason : Type 0 where
  stop length tool_calls content_filter error : FinishReason

pub record TokenUsageReport : Type 0 where
  pub input_tokens : ℕ
  pub output_tokens : ℕ

abbrev pub no_usage : TokenUsageReport
no_usage = record { input_tokens = 0; output_tokens = 0 }

abbrev pub usage_report : Option TokenUsage → TokenUsageReport
usage_report none = no_usage
usage_report (some u) = record {
  input_tokens = u.prompt_tokens;
  output_tokens = u.completion_tokens;
}

pub data VerifyStatus : Type 0 where
  pass fail skipped : VerifyStatus

pub record VerifyOutcome : Type 0 where
  pub status : VerifyStatus
  pub hook : Option Text

abbrev pub outcome_skipped : VerifyOutcome
outcome_skipped = record { status = skipped; hook = none }

abbrev pub outcome_of : Bool → Text → VerifyOutcome
outcome_of passed hook = record { status = if passed then pass else fail; hook = some hook }

pub record Attempt : Type 0 where
  pub tier : Option Tier
  pub family : Option Text
  pub backend : Text
  pub model : Text
  pub finish_reasons : List FinishReason
  pub usage : TokenUsageReport
  pub output_path : Text
  pub verify : VerifyOutcome
  pub duration : ℕ

-- The version is a constant, and the fields of a parallel output are left out.
pub record StrategyOutput : Type 0 where
  pub strategy : StrategyKind
  pub phase : Text
  pub run_id : ℕ
  pub attempts : List Attempt
  pub final_status : Option FinalStatus

pub data StrategyError : Type 0 where
  backend_not_found : (name : Text) → StrategyError
  phase_error : PhaseError → StrategyError
  no_backends : StrategyError
  prompt_render : Text → StrategyError
  backend_error : BackendError → StrategyError
  all_exhausted : StrategyOutput → StrategyError

abbrev pub non_empty : Option Text → Option Text
non_empty none = none
non_empty (some t) = if is_nil t then none else some t

-- `pick_model`, for the model of the output and the one of the prompt.
unfoldable pub pick_model : (query prompt : Option Text) → Text
pick_model query prompt = unwrap_or (or_else (non_empty query) (non_empty prompt)) (str "default")
