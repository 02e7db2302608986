-- ===== src/Tests/Ladder.antt =====
-- Runs of src/strategy/escalating_retry.rs on concrete inputs.
use loker.Prelude.{
  leb, ◌+◌, ◌≡◌, ◌≤◌, refl, true, Option, none, some, List, [], ◌∷◌, ◌++◌, Result, ok, err, map, ℕ,
  if◌then◌else◌,
}
use loker.Prelude.Text.{Text, str, byte_len, text_eq}
use loker.ApplyVerify.Files.{cur_dir}
use loker.Strategy.{
  timeout, cheap, strong, Attempt, StrategyOutput, StrategyError, QueryOutput, rate_limit,
}
use loker.Strategy.Envelope.{
  Texts, FailureContext, truncate_excerpt, build_failure_envelope, backend_error_class, shrink,
  envelope_at, from_backend_error,
}
use loker.Strategy.Envelope.Bounds.{truncate_excerpt-byte_len, build_failure_envelope-byte_len}
use loker.Strategy.Escalating.{
  Backend, Services, EscalatingRetry, PhaseContext, pass_result, execute, climb, climb_rung,
  query_rung, verify_rung, rung_prompt, write_strategy_output,
}
use loker.Strategy.Escalating.Climbed.{Climbed}
use loker.Strategy.Escalating.Climb.{execute-Climbed}
use loker.Strategy.Retry.{Inner, RetryPolicy, retry_query, try_from, pause}
use loker.Strategy.Retry.Trail.{Retried, retry_query-Retried}
use loker.Tests.Disk.{Disk, memory}

abbrev texts : Texts
texts = record { debug_text = λ t. str "\"" ++ t ++ str "\""; redact_secrets = λ t. t }

abbrev services : Services memory
services = record {
  texts = texts;
  hook_name = str "run_command";
  verify = λ q w. (ok pass_result, w);
  render = λ t. ok t;
  create_failed = λ p e. str "create";
  write_failed = λ p e. str "write";
}

abbrev ladder : EscalatingRetry
ladder = record {
  rungs =
      record { tier = cheap; backend = str "ollama" }
      ∷ record { tier = strong; backend = str "claude" }
      ∷ [];
  prompt_template = str "do it";
  pass_failure_context = true;
}

abbrev phase : PhaseContext
phase = record { phase_name = str "spec"; run_id = 7; cwd = cur_dir ∷ []; model = none }

-- The first backend times out and the second one answers.
abbrev backends : List (Backend Disk)
backends =
    record { name = str "ollama"; query = λ p m w. (err (timeout (str "slow")), w) }
    ∷ record {
      name = str "claude";
      query = λ p m w. (
        ok (record { stdout = str "done"; model = some (str "opus"); duration = 5; usage = none }),
        w,
      );
    }
    ∷ []

abbrev empty_disk : Disk
empty_disk p = none

execute-Climbed_example :
    (r : Result StrategyOutput StrategyError) × (w : Disk) × (execute memory services ladder phase
        backends empty_disk
      ≡ some (r, w))
    × Climbed memory services ladder phase backends r
execute-Climbed_example = execute-Climbed memory services ladder phase backends empty_disk

-- How many attempts a run makes, and the last one's backend.
abbrev attempt_backends : Option (Result StrategyOutput StrategyError × Disk) → List Text
attempt_backends (some (ok o, w)) = map (λ (a : Attempt). a.backend) o.attempts
attempt_backends _ = []

execute_run :
    attempt_backends (execute memory services ladder phase backends empty_disk)
    ≡ str "ollama" ∷ str "claude" ∷ []
unfolding execute climb climb_rung query_rung verify_rung rung_prompt write_strategy_output
    build_failure_envelope shrink envelope_at from_backend_error truncate_excerpt byte_len text_eq
    backend_error_class
execute_run = refl

truncate_excerpt-byte_len_example :
    byte_len (truncate_excerpt (str "a long answer of the model, longer than the limit is") 40) ≤ 40
truncate_excerpt-byte_len_example =
    truncate_excerpt-byte_len (str "a long answer of the model, longer than the limit is") 40

abbrev slow : FailureContext
slow = record {
  previous_tier = cheap;
  previous_backend = str "ollama";
  verify_reason = none;
  backend_error_class = some (str "Timeout");
  response_excerpt = none;
}

build_failure_envelope-byte_len_example :
    (t : Text) × (build_failure_envelope texts slow (str "do it") ≡ some t) × (byte_len t ≤ 8192)
build_failure_envelope-byte_len_example = build_failure_envelope-byte_len texts slow (str "do it")

-- A clock that counts the milliseconds, and a backend that answers from the third one on.
abbrev answer : QueryOutput
answer = record { stdout = str "done"; model = none; duration = 5; usage = none }

abbrev inner : Inner ℕ
inner = record {
  query = λ w. if leb 3 w then (ok answer, w) else (err (rate_limit (str "busy") (some 1)), w);
  sleep = λ ms w. w + ms;
  with_jitter = λ ms w. (ms, w);
}

abbrev policy : RetryPolicy
policy = record { max_retries = 3; base_delay = 1000; max_delay = 30000 }

retry_query-Retried_example : Retried inner policy 0 (retry_query inner policy 0)
retry_query-Retried_example = retry_query-Retried inner policy 0

retry_query_run : retry_query inner policy 0 ≡ (ok answer, 3)
unfolding retry_query try_from pause
retry_query_run = refl
