-- ===== src/Strategy/Envelope.antt =====
-- src/strategy/escalating_retry.rs: what a rung is told of the failure before it.
-- `{:?}` on a text and `redact_secrets` of src/utils.rs are in the record `Texts`.
pub mod Bounds
use loker.Prelude.{
  ℕ, zero, suc, ◌+◌, ◌-◌, Bool, true, false, Option, none, some, List, [], ◌∷◌, ◌++◌, leb, ltb,
  if◌then◌else◌, unwrap_or, ◌&&◌,
}
use loker.Prelude.Text.{Text, str, byte_len, char_len, replace}
use loker.Prelude.Decimal.{decimal}
use loker.Strategy.{
  BackendError, timeout, rate_limit, auth, network, parse, execution_failed, unavailable, config,
  Tier, tier_str,
}

pub record Texts : Type 0 where
  pub debug_text : Text → Text
  pub redact_secrets : Text → Text

abbrev pub max_response_excerpt_bytes : ℕ
max_response_excerpt_bytes = 4096

abbrev pub max_failure_context_bytes : ℕ
max_failure_context_bytes = 8192

pub record FailureContext : Type 0 where
  pub previous_tier : Tier
  pub previous_backend : Text
  pub verify_reason : Option Text
  pub backend_error_class : Option Text
  pub response_excerpt : Option Text

unfoldable pub backend_error_class : BackendError → Text
backend_error_class (timeout m) = str "Timeout"
backend_error_class (rate_limit m r) = str "RateLimited"
backend_error_class (auth m) = str "Auth"
backend_error_class (network m) = str "Network"
backend_error_class (parse m) = str "Parse"
backend_error_class (execution_failed m) = str "ExecutionFailed"
backend_error_class (unavailable m) = str "Unavailable"
backend_error_class (config m) = str "Config"

-- The slice up to the last character boundary at or below `n` bytes.
unfoldable pub cut : ℕ → Text → Text
cut n [] = []
cut n (c ∷ s) = let rest = cut (n - char_len c) s in if leb (char_len c) n then c ∷ rest else []

abbrev pub suffix_of : ℕ → Text
suffix_of elided = str " …[truncated, " ++ decimal elided ++ str " bytes elided]"

-- The bytes of the suffix without its digits: ` …[truncated,  bytes elided]`.
abbrev pub suffix_template_len : ℕ
suffix_template_len = 30

unfoldable pub truncate_excerpt : Text → (max_bytes : ℕ) → Text
unfolding cut
truncate_excerpt s max_bytes =
    let suffix_len = suffix_template_len + byte_len (decimal (byte_len s)) in
    let kept = cut (max_bytes - suffix_len) s in
    if leb (byte_len s) max_bytes
    then s
    else if leb max_bytes suffix_len
    then cut max_bytes s
    else kept ++ suffix_of (byte_len s - byte_len kept)

abbrev pub redacted_excerpt : Texts → Option Text → Option Text
redacted_excerpt texts none = none
redacted_excerpt texts (some r) =
    some (truncate_excerpt (texts.redact_secrets r) max_response_excerpt_bytes)

unfoldable pub from_verify_fail : Texts → Tier → Text → Text → Option Text → FailureContext
from_verify_fail texts tier backend reason response = record {
  previous_tier = tier;
  previous_backend = backend;
  verify_reason = some (texts.redact_secrets reason);
  backend_error_class = none;
  response_excerpt = redacted_excerpt texts response;
}

unfoldable pub from_backend_error : Texts → Tier → Text → BackendError → FailureContext
from_backend_error texts tier backend e = record {
  previous_tier = tier;
  previous_backend = backend;
  verify_reason = none;
  backend_error_class = some (texts.redact_secrets (backend_error_class e));
  response_excerpt = none;
}

abbrev pub field_of : (Text → Text) → Option Text → Text
field_of show none = str "null"
field_of show (some t) = show t

abbrev pub indented : Text → Text
indented excerpt = str "|\n    " ++ replace excerpt (str "\n") (str "\n    ")

-- The text for the budgets of one round of the loop.
unfoldable pub envelope_at : Texts → FailureContext → Text → (excerpt_budget verify_cap : ℕ) → Text
envelope_at texts ctx body excerpt_budget verify_cap =
    str "<previous-attempt>\n  tier: "
    ++ tier_str ctx.previous_tier
    ++ str "\n  backend: "
    ++ ctx.previous_backend
    ++ str "\n  verify_reason: "
    ++ field_of (λ t. texts.debug_text (truncate_excerpt t verify_cap)) ctx.verify_reason
    ++ str "\n  backend_error: "
    ++ field_of texts.debug_text ctx.backend_error_class
    ++ str "\n  response_excerpt: "
    ++ field_of (λ t. indented (truncate_excerpt t excerpt_budget)) ctx.response_excerpt
    ++ str "\n</previous-attempt>\n\n<original-prompt>\n"
    ++ body
    ++ str "\n</original-prompt>"

-- The loop, on fuel, with `none` where it runs out.
unfoldable pub shrink :
    ℕ → Texts → FailureContext → Text → (excerpt_budget verify_cap : ℕ) → Option Text
shrink zero texts ctx body excerpt_budget verify_cap = none
shrink (suc fuel) texts ctx body excerpt_budget verify_cap =
    let envelope = envelope_at texts ctx body excerpt_budget verify_cap in
    let spent = leb excerpt_budget 0 in
    let next =
      shrink fuel texts ctx body (if spent then excerpt_budget else excerpt_budget - 512)
        (if spent then verify_cap - 256 else verify_cap) in
    if leb (byte_len envelope) max_failure_context_bytes
    then some envelope
    else if spent && leb verify_cap 64
    then some (truncate_excerpt envelope max_failure_context_bytes)
    else next

-- The rounds that the loop can need: eight for the excerpt, four for the reason and the last one.
abbrev pub shrink_rounds : ℕ
shrink_rounds = 13

unfoldable pub build_failure_envelope : Texts → FailureContext → Text → Option Text
build_failure_envelope texts ctx body =
    shrink shrink_rounds texts ctx body max_response_excerpt_bytes 1024
