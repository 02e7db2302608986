-- ===== src/Workflow.antt =====
-- src/workflow/mod.rs: the records of a workflow and its errors, with what reads them at load time.
pub mod Depth
pub mod Validate
pub mod Run
pub mod Merge
use loker.Prelude.{
  ℕ, Bool, true, false, Option, none, some, List, [], ◌∷◌, ◌++◌, map, if◌then◌else◌, is_nil,
  unwrap_or, or_else, ◌==◌,
}
use loker.Prelude.Text.{Text, text_eq, trim}

-- The fields of a step that scheduling and validation read.
pub record Step : Type 0 where
  pub name : Text
  pub backend : Text
  pub backends : List Text
  pub depends_on : List Text
  pub when : Option Text
  pub apply_edits : Bool
  pub continue_on_error : Option Bool
  pub min_deps_success : Option ℕ
  pub timeout : Option ℕ

pub record Workflow : Type 0 where
  pub name : Text
  pub description : Option Text
  pub extends : Option Text
  pub steps : List Step
  pub continue_on_error : Bool
  pub timeout : Option ℕ

-- The name of the workflow, which every variant repeats, is left out; the chain of a circular
-- dependency is the list that the source joins by arrows.
pub data WorkflowError : Type 0 where
  missing_dependency : (step missing : Text) → WorkflowError
  circular_dependency : (chain : List Text) → WorkflowError
  duplicate_step_names : (duplicates : List Text) → WorkflowError
  min_deps_success_without_deps : (step : Text) → WorkflowError
  min_deps_success_exceeds_deps : (step : Text) → (min actual : ℕ) → WorkflowError
  timeout_too_small : (step : Text) → (timeout : ℕ) → WorkflowError
  missing_capability : (step backend capability : Text) → WorkflowError
  apply_edits_multi_backend : (step : Text) → (backends : List Text) → WorkflowError
  missing_backend_for_capability : (step capability : Text) → WorkflowError
  -- `anyhow!("Step '{}' not found in workflow")`
  step_not_found : (step : Text) → WorkflowError

-- `step_continue_on_error`
abbrev pub step_continue_on_error : Workflow → Step → Bool
step_continue_on_error w s = unwrap_or s.continue_on_error w.continue_on_error

-- `step_timeout`
abbrev pub step_timeout : Workflow → Step → Option ℕ
step_timeout w s = or_else s.timeout w.timeout

-- The pieces of `split(',')`; `piece` is the current one so far.
unfoldable pub split_commas : Text → Text → List Text
split_commas piece [] = piece ∷ []
split_commas piece (c ∷ s) =
    let comma = c == b',' in
    let rest = split_commas (if comma then [] else piece ++ (c ∷ [])) s in
    if comma then piece ∷ rest else rest

unfoldable pub non_blank : List Text → List Text
unfolding trim
non_blank [] = []
non_blank (piece ∷ pieces) =
    let rest = non_blank pieces in if is_nil (trim piece) then rest else trim piece ∷ rest

unfoldable pub get_backends : Step → List Text
unfolding split_commas non_blank
get_backends s =
    if is_nil s.backends
    then if is_nil s.backend then [] else non_blank (split_commas [] s.backend)
    else s.backends

-- `step_map.get(name)`
unfoldable pub find_step : Text → List Step → Option Step
find_step name [] = none
find_step name (s ∷ steps) =
    let rest = find_step name steps in if text_eq s.name name then some s else rest

abbrev pub step_names : List Step → List Text
step_names steps = map (λ (s : Step). s.name) steps
