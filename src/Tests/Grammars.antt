-- ===== src/Tests/Grammars.antt =====
-- Workflows of phases at hand, one that is accepted and one with every kind of fault.
use loker.Prelude.{true, ◌≡◌, ◌↔◌, refl, none, List, [], ◌∷◌, Result, ok}
use loker.Prelude.Text.{Text, str, text_eq}
use loker.Prelude.Assoc.{get, insert}
use loker.Grammar.{
  Strategy, single, parallel_fan_out, escalating_retry, Phase, Workflow, ollama, forward_input_ref,
  unknown_phase_ref, min_responses_exceeds_backends, too_few_backends_for_escalating,
  duplicate_phase_name, invalid_input_ref, malformed_backend_ref, unknown_backend_scheme, no_phases,
  resolve_backend_scheme, parse_input_ref, validate, from_str,
}
use loker.Grammar.References.{IsBackend, render_backend, resolve_backend_scheme_iff}
use loker.Grammar.Accepted.{WellFormed, from_str_iff}

abbrev phase_of : Text → Strategy → List Text → List Text → Phase
phase_of name strategy backends inputs = record {
  name = name;
  strategy = strategy;
  backends = backends;
  prompt_template = str "{{ spec }}";
  inputs = inputs;
  output = str "out.md";
  contract = none;
}

abbrev workflow_of : List Phase → Workflow
workflow_of phases = record { name = str "w"; description = none; phases = phases; defaults = none }

abbrev two_phases : Workflow
two_phases = workflow_of (
    phase_of (str "draft") single (str "claude/" ∷ []) (str "spec" ∷ [])
    ∷ phase_of (str "review") (parallel_fan_out 2) (str "codex/" ∷ str "ollama/m" ∷ [])
        (str "phase:draft" ∷ str "var:tone" ∷ [])
    ∷ [])

abbrev faulty : Workflow
faulty = workflow_of (
    phase_of (str "a") single (str "claude" ∷ str "gpt/x" ∷ []) (str "phase:" ∷ str "phase:b" ∷ [])
    ∷ phase_of (str "b") (escalating_retry true) (str "codex/" ∷ [])
        (str "phase:b" ∷ str "phase:c" ∷ [])
    ∷ phase_of (str "b") (parallel_fan_out 2) (str "codex/" ∷ []) []
    ∷ [])

validate-two_phases : validate two_phases ≡ []
unfolding validate resolve_backend_scheme parse_input_ref get insert text_eq
validate-two_phases = refl

-- The references of a phase with a malformed one are not looked at.
validate-faulty : validate faulty ≡ (
    duplicate_phase_name (str "b")
    ∷ malformed_backend_ref (str "claude")
    ∷ unknown_backend_scheme (str "gpt/x")
    ∷ invalid_input_ref (str "phase:")
    ∷ forward_input_ref (str "b") (str "b")
    ∷ unknown_phase_ref (str "b") (str "c")
    ∷ too_few_backends_for_escalating (str "b") 1
    ∷ min_responses_exceeds_backends (str "b") 2 1
    ∷ [])
unfolding validate resolve_backend_scheme parse_input_ref get insert text_eq
validate-faulty = refl

validate_empty : validate (workflow_of []) ≡ no_phases ∷ []
unfolding validate
validate_empty = refl

from_str_iff_example :
    (from_str (λ s. ok two_phases) (str "name = 'w'") ≡ ok two_phases)
    ↔ (◌≡◌ {A = Result Workflow Text} (ok two_phases) (ok two_phases) × WellFormed two_phases)
from_str_iff_example = from_str_iff (λ s. ok two_phases) (str "name = 'w'") two_phases

resolve_backend_scheme_iff_example :
    (resolve_backend_scheme (str "ollama/a/b") ≡ ok (ollama (str "a/b")))
    ↔ (IsBackend (ollama (str "a/b")) × (str "ollama/a/b" ≡ render_backend (ollama (str "a/b"))))
resolve_backend_scheme_iff_example =
    resolve_backend_scheme_iff (str "ollama/a/b") (ollama (str "a/b"))
