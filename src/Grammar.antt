-- ===== src/Grammar.antt =====
-- The phase grammar of src/workflow/grammar.rs: the references to backends and inputs, and the
-- validation of a parsed workflow. TOML itself is parsed by a library, a parameter of `from_str`.
pub mod References
pub mod Places
pub mod Parsed
pub mod Fits
pub mod Accepted
use loker.Prelude.{
  ℕ, suc, Bool, true, false, Option, none, some, List, [], ◌∷◌, ◌++◌, map, if◌then◌else◌, is_nil,
  ltb, leb, length, Result, ok, err, unwrap_or, usize_max,
}
use loker.Prelude.Text.{Text, str, text_eq, strip_prefix, split_once}
use loker.Prelude.Names.{mem}
use loker.Prelude.Assoc.{get, insert}

pub data Strategy : Type 0 where
  single : Strategy
  parallel_fan_out : (min_responses : ℕ) → Strategy
  escalating_retry : (pass_failure_context : Bool) → Strategy

-- A value of TOML that is kept and not read, such as `contract`, is its text.
pub record Phase : Type 0 where
  pub name : Text
  pub strategy : Strategy
  pub backends : List Text
  pub prompt_template : Text
  pub inputs : List Text
  pub output : Text
  pub contract : Option Text

pub record Workflow : Type 0 where
  pub name : Text
  pub description : Option Text
  pub phases : List Phase
  pub defaults : Option Text

pub data BackendRef : Type 0 where
  tensor_zero : (function : Text) → BackendRef
  claude : BackendRef
  codex : BackendRef
  gemini : BackendRef
  ollama : (model : Text) → BackendRef

pub data InputRef : Type 0 where
  phase_ref : (name : Text) → InputRef
  var_ref : (name : Text) → InputRef
  spec : InputRef

pub data WorkflowError : Type 0 where
  toml_parse : (message : Text) → WorkflowError
  unknown_backend_scheme : (scheme : Text) → WorkflowError
  forward_input_ref : (from to : Text) → WorkflowError
  unknown_phase_ref : (from to : Text) → WorkflowError
  min_responses_exceeds_backends : (phase : Text) → (min count : ℕ) → WorkflowError
  too_few_backends_for_escalating : (phase : Text) → (count : ℕ) → WorkflowError
  no_phases : WorkflowError
  duplicate_phase_name : (name : Text) → WorkflowError
  invalid_input_ref : (raw : Text) → WorkflowError
  malformed_backend_ref : (raw : Text) → WorkflowError

-- A scheme that needs a name after the slash.
abbrev pub with_name : Text → Text → (Text → BackendRef) → Result BackendRef WorkflowError
with_name raw rest make = if is_nil rest then err (malformed_backend_ref raw) else ok (make rest)

-- A scheme with nothing after the slash.
abbrev pub without_name : Text → Text → BackendRef → Result BackendRef WorkflowError
without_name raw rest backend = if is_nil rest then ok backend else err (malformed_backend_ref raw)

abbrev pub resolve_split : Text → Option (Text × Text) → Result BackendRef WorkflowError
resolve_split raw none = err (malformed_backend_ref raw)
resolve_split raw (some (scheme, rest)) =
    if text_eq scheme (str "tensorzero")
    then with_name raw rest tensor_zero
    else if text_eq scheme (str "claude")
    then without_name raw rest claude
    else if text_eq scheme (str "codex")
    then without_name raw rest codex
    else if text_eq scheme (str "gemini")
    then without_name raw rest gemini
    else if text_eq scheme (str "ollama")
    then with_name raw rest ollama
    else err (unknown_backend_scheme raw)

unfoldable pub resolve_backend_scheme : Text → Result BackendRef WorkflowError
unfolding split_once
resolve_backend_scheme raw = resolve_split raw (split_once b'/' raw)

abbrev pub named_input : Text → Text → (Text → InputRef) → Result InputRef WorkflowError
named_input raw name make = if is_nil name then err (invalid_input_ref raw) else ok (make name)

abbrev pub parse_stripped : Text → Option Text → Option Text → Result InputRef WorkflowError
parse_stripped raw (some name) var = named_input raw name phase_ref
parse_stripped raw none (some name) = named_input raw name var_ref
parse_stripped raw none none = err (invalid_input_ref raw)

unfoldable pub parse_input_ref : Text → Result InputRef WorkflowError
unfolding strip_prefix text_eq
parse_input_ref raw =
    if text_eq raw (str "spec")
    then ok spec
    else parse_stripped raw (strip_prefix raw (str "phase:")) (strip_prefix raw (str "var:"))

-- The loop of `resolve_backends` and `resolve_inputs`: what parses, and the errors of the rest.
module _ {A : Type 0} (parse : Text → Result A WorkflowError) where
  abbrev pub add_parsed :
      Result A WorkflowError → List A × List WorkflowError → List A × List WorkflowError
  add_parsed (ok ref) (refs, errors) = (ref ∷ refs, errors)
  add_parsed (err e) (refs, errors) = (refs, e ∷ errors)

  unfoldable pub resolve_each : List Text → List A × List WorkflowError
  resolve_each [] = ([], [])
  resolve_each (raw ∷ raws) = add_parsed (parse raw) (resolve_each raws)

  abbrev pub resolve_all : List Text → Result (List A) (List WorkflowError)
  resolve_all raws =
      let (refs, errors) = resolve_each raws in if is_nil errors then ok refs else err errors

abbrev pub resolve_backends : Phase → Result (List BackendRef) (List WorkflowError)
resolve_backends phase = resolve_all resolve_backend_scheme phase.backends

abbrev pub resolve_inputs : Phase → Result (List InputRef) (List WorkflowError)
resolve_inputs phase = resolve_all parse_input_ref phase.inputs

unfoldable pub duplicate_errors : List Text → List Phase → List WorkflowError
duplicate_errors seen_names [] = []
duplicate_errors seen_names (phase ∷ phases) =
    let rest = duplicate_errors (phase.name ∷ seen_names) phases in
    if mem phase.name seen_names then duplicate_phase_name phase.name ∷ rest else rest

-- The map from names to places; a later phase of the same name replaces an earlier one.
unfoldable pub indices_from : ℕ → List (Text × ℕ) → List Phase → List (Text × ℕ)
indices_from i indices [] = indices
indices_from i indices (phase ∷ phases) = indices_from (suc i) (insert phase.name i indices) phases

abbrev pub target_errors : Option ℕ → Option ℕ → Text → Text → List WorkflowError
target_errors none phase_idx from to = unknown_phase_ref from to ∷ []
target_errors (some target_idx) phase_idx from to =
    if ltb target_idx (unwrap_or phase_idx usize_max) then [] else forward_input_ref from to ∷ []

abbrev pub ref_error : List (Text × ℕ) → Text → InputRef → List WorkflowError
ref_error indices from (phase_ref target) =
    target_errors (get target indices) (get from indices) from target
ref_error indices from (var_ref name) = []
ref_error indices from spec = []

unfoldable pub ref_errors : List (Text × ℕ) → Text → List InputRef → List WorkflowError
ref_errors indices from [] = []
ref_errors indices from (input ∷ inputs) =
    ref_error indices from input ++ ref_errors indices from inputs

abbrev pub strategy_errors : Text → Strategy → ℕ → List WorkflowError
strategy_errors phase (parallel_fan_out min) count =
    if ltb count min then min_responses_exceeds_backends phase min count ∷ [] else []
strategy_errors phase (escalating_retry context) count =
    if ltb count 2 then too_few_backends_for_escalating phase count ∷ [] else []
strategy_errors phase single count = []

abbrev pub errors_of : {A : Type 0} → Result (List A) (List WorkflowError) → List WorkflowError
errors_of (ok refs) = []
errors_of (err errors) = errors

-- Where some references do not resolve, none are used.
abbrev pub refs_or_none : {A : Type 0} → Result (List A) (List WorkflowError) → List A
refs_or_none (ok refs) = refs
refs_or_none (err errors) = []

-- The body of the second loop of `validate`.
unfoldable pub phase_errors : List (Text × ℕ) → Phase → List WorkflowError
unfolding ref_errors resolve_each
phase_errors indices phase =
    let backends = resolve_backends phase in
    let inputs = resolve_inputs phase in
    errors_of backends
    ++ (errors_of inputs
        ++ (ref_errors indices phase.name (refs_or_none inputs)
            ++ strategy_errors phase.name phase.strategy (length (refs_or_none backends))))

unfoldable pub all_phase_errors : List (Text × ℕ) → List Phase → List WorkflowError
all_phase_errors indices [] = []
all_phase_errors indices (phase ∷ phases) =
    phase_errors indices phase ++ all_phase_errors indices phases

unfoldable pub validate : Workflow → List WorkflowError
unfolding duplicate_errors indices_from all_phase_errors phase_errors
validate w =
    if is_nil w.phases
    then no_phases ∷ []
    else duplicate_errors [] w.phases ++ all_phase_errors (indices_from 0 [] w.phases) w.phases

abbrev pub accept : Workflow → Result Workflow (List WorkflowError)
accept w = let errors = validate w in if is_nil errors then ok w else err errors

-- `Workflow::from_str`, where `toml` parses TOML into a workflow.
unfoldable pub from_str :
    (Text → Result Workflow Text) → Text → Result Workflow (List WorkflowError)
unfolding validate
from_str toml s = elim (toml s) [ err message ↦ err (toml_parse message ∷ []) | ok w ↦ accept w ]

abbrev pub warn : Phase → Option Text → List Text → List Text
warn phase none rest = rest
warn phase (some contract) rest =
    (str "WARN: phase.contract reserved for post-v0; ignored (phase '" ++ (phase.name ++ str "')"))
    ∷ rest

unfoldable pub lint_each : List Phase → List Text
lint_each [] = []
lint_each (phase ∷ phases) = warn phase phase.contract (lint_each phases)

abbrev pub lint : Workflow → List Text
lint w = lint_each w.phases
