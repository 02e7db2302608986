-- ===== src/Strategy/Retry.antt =====
-- src/backend/retry.rs: a backend whose transient errors are tried again after a pause.
-- The backend, the clock and the jitter are parameters; the message on the terminal is left out.
pub mod Trail
use loker.Prelude.{
  ℕ, zero, suc, ◌-◌, ◌*◌, ◌^◌, ◌%◌, Bool, true, false, Option, none, some, Result, ok, err,
  match_result, ltb, if◌then◌else◌, unwrap_or,
}
use loker.Prelude.Text.{Text, str}
use loker.Strategy.{BackendError, timeout, rate_limit, network, execution_failed, QueryOutput}

-- `BackendError::is_retryable` of src/backend/mod.rs
abbrev pub is_retryable : BackendError → Bool
is_retryable (timeout m) = true
is_retryable (rate_limit m r) = true
is_retryable (network m) = true
is_retryable _ = false

-- Durations are in milliseconds.
pub record RetryPolicy : Type 0 where
  pub max_retries : ℕ
  pub base_delay : ℕ
  pub max_delay : ℕ

-- The inner backend's `query` for the prompt at hand, `sleep`, and the product of a delay with a
-- random factor, which changes the state of the generator.
pub record Inner (W : Type 0) : Type 0 where
  pub query : W → Result QueryOutput BackendError × W
  pub sleep : ℕ → W → W
  pub with_jitter : ℕ → W → ℕ × W

module _ {W : Type 0} (inner : Inner W) (policy : RetryPolicy) where
  abbrev pub capped : ℕ → ℕ
  capped delay = if ltb policy.max_delay delay then policy.max_delay else delay

  -- The power is a `u32`, which wraps around in a release build from attempt 33 on.
  unfoldable pub get_delay : ℕ → W → ℕ × W
  get_delay zero w = (0, w)
  get_delay (suc n) w =
      let (delay, w') = inner.with_jitter (policy.base_delay * (2 ^ n % 2 ^ 32)) w in
      (capped delay, w')

  abbrev pub asked_for : Option BackendError → Option ℕ
  asked_for (some (rate_limit m r)) = r
  asked_for _ = none

  abbrev pub delay_over : Option ℕ → ℕ → W → ℕ × W
  delay_over (some ms) attempt w = (ms, w)
  delay_over none attempt w = get_delay attempt w

  -- The pause in front of an attempt.
  unfoldable pub pause : ℕ → Option BackendError → W → W
  pause zero last_error w = w
  pause (suc n) last_error w =
      let (delay, w') = delay_over (asked_for last_error) (suc n) w in inner.sleep delay w'

  -- The loop from the attempt `n` on, with `left` attempts left.
  unfoldable pub try_from :
      (left n : ℕ) → Option BackendError → W → Result QueryOutput BackendError × W
  try_from zero n last_error w =
      (err (unwrap_or last_error (execution_failed (str "Retry loop exhausted without error"))), w)
  try_from (suc left) n last_error w =
      match_result (inner.query (pause n last_error w)) (λ output w'. (ok output, w'))
        (λ e w'.
          let more = try_from left (suc n) (some e) w' in
          if is_retryable e then more else (err e, w'))

  -- `RetryExecutor::query`
  unfoldable pub retry_query : W → Result QueryOutput BackendError × W
  retry_query w = try_from (suc policy.max_retries) 0 none w
