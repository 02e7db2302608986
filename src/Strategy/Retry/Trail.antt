-- ===== src/Strategy/Retry/Trail.antt =====
-- The attempts that a retried query makes.
use loker.Prelude.{
  ℕ, zero, suc, ◌+◌, ◌≤◌, ◌≡◌, refl, true, false, Option, none, some, Result, ok, err,
  match_result_ind, if_ind, arith, subst,
}
use loker.Strategy.{BackendError, QueryOutput}
use loker.Strategy.Retry.{is_retryable, RetryPolicy, Inner, pause, try_from, retry_query}

module _ {W : Type 0} (inner : Inner W) (policy : RetryPolicy) where
  -- A number of attempts that failed with transient errors, the last of them, and the worlds before
  -- the first and behind the last one.
  pub data Trail (start : W) : ℕ → Option BackendError → W → Type 0 where
    untried : Trail start 0 none start
    transient :
        {n : ℕ} {o : Option BackendError} {v : W} (e : BackendError) (w : W)
        → Trail start n o v
        → inner.query (pause inner policy n o v) ≡ (err e, w)
        → is_retryable e ≡ true
        → Trail start (suc n) (some e) w

  untried-zero : (start v : W) (n : ℕ) → Trail start n none v → n ≡ 0
  untried-zero start v n untried = refl

  pub data Retried (start : W) : Result QueryOutput BackendError × W → Type 0 where
    answered :
        (n : ℕ) (o : Option BackendError) (v w : W) (output : QueryOutput)
        → n ≤ policy.max_retries
        → Trail start n o v
        → inner.query (pause inner policy n o v) ≡ (ok output, w)
        → Retried start (ok output, w)
    fatal :
        (n : ℕ) (o : Option BackendError) (v w : W) (e : BackendError)
        → n ≤ policy.max_retries
        → Trail start n o v
        → inner.query (pause inner policy n o v) ≡ (err e, w)
        → is_retryable e ≡ false
        → Retried start (err e, w)
    worn_out :
        (w : W) (e : BackendError)
        → Trail start (suc policy.max_retries) (some e) w
        → Retried start (err e, w)

  try_from-Retried :
      (start : W) (left n : ℕ) (o : Option BackendError) (w : W)
      → n + left ≡ suc policy.max_retries
      → Trail start n o w
      → Retried start (try_from inner policy left n o w)
  unfolding try_from
  try_from-Retried start zero n none w h trail =
      absurd (omega (arith, untried-zero start w n trail))
  try_from-Retried start zero n (some e) w h trail =
      worn_out w e (subst (λ k. Trail start k (some e) w) (omega arith) trail)
  try_from-Retried start (suc left) n o w h trail =
      match_result_ind (Retried start) (inner.query (pause inner policy n o w))
        (λ output w' e. answered n o w w' output (omega arith) trail e)
        (λ x w' e.
          if_ind (Retried start) (is_retryable x) _ _
            (λ t.
              try_from-Retried start left (suc n) (some x) w' (omega arith)
                (transient x w' trail e t))
            (λ t. fatal n o w w' x (omega arith) trail e t))

  -- A retried query makes a run of attempts with transient errors, with the pause of the policy or
  -- of the last error in front of each but the first. It returns the first answer, or the first
  -- error that is not transient, after at most `max_retries` transient ones; or else the last error
  -- of `max_retries + 1` transient ones.
  pub retry_query-Retried : (w : W) → Retried w (retry_query inner policy w)
  unfolding retry_query
  retry_query-Retried w = try_from-Retried w (suc policy.max_retries) 0 none w (omega arith) untried
