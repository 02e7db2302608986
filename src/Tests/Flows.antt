-- ===== src/Tests/Flows.antt =====
-- Workflows at hand: grouping, validation, merging, loading and running them.
use loker.Prelude.Assoc.{get, insert}
use loker.Prelude.{
  if◌then◌else◌, ◌≡◌, ◌↔◌, refl, true, false, Option, none, some, List, [], ◌∷◌, ok, err, In, here,
  or_else,
}
use loker.Prelude.Text.{Text, str, text_eq, is_whitespace, drop_while, drop_end_while, trim}
use loker.Workflow.{
  Step, Workflow, circular_dependency, find_step, step_names, split_commas, non_blank, get_backends,
}
use loker.Workflow.Depth.{
  drop_until, max_of, duplicates, first_missing, check_deps, check_min_deps, calc_deps, calc_depth,
  calc_all, level_at, levels_from, group_unique, group_by_depth,
}
use loker.Workflow.Depth.Grouped.{Grouped, group_by_depth-Grouped}
use loker.Workflow.Validate.{
  BackendCapabilities, no_capabilities, check_demands, check_backends, validate_steps,
  capable_steps, validate_with_capabilities,
}
use loker.Workflow.Validate.Bounds.{IsBounded}
use loker.Workflow.Validate.Capable.{IsCapable, validate_with_capabilities_iff}
use loker.Workflow.Merge.{
  index_of, merge_steps, merge_workflows, depth_exceeded, Sources, load_with_depth, load_workflow,
}
use loker.Workflow.Merge.Overrides.{new_names, merge_workflows-finds}
use loker.Workflow.Merge.Chain.{HasAncestors, load_workflow-depth_exceeded, load_workflow-IsBounded}
use loker.Workflow.Run.{
  Runner, undefined_variable, error_result, backend_error, hard_failed_deps, successful_deps,
  prepare_level, record_all, run_levels, run, depends_on_failed,
}
use loker.Workflow.Run.Levels.{Ran, run-Ran}

abbrev plain : Text → List Text → Step
plain name deps = record {
  name = name;
  backend = str "claude";
  backends = [];
  depends_on = deps;
  when = none;
  apply_edits = false;
  continue_on_error = none;
  min_deps_success = none;
  timeout = none;
}

abbrev workflow_of : List Step → Workflow
workflow_of steps = record {
  name = str "w";
  description = none;
  extends = none;
  steps = steps;
  continue_on_error = false;
  timeout = none;
}

-- `d` depends on `b` and `c`, and both depend on `a`.
abbrev diamond : List Step
diamond =
    plain (str "d") (str "b" ∷ str "c" ∷ [])
    ∷ plain (str "b") (str "a" ∷ [])
    ∷ plain (str "c") (str "a" ∷ [])
    ∷ plain (str "a") []
    ∷ []

group_by_depth-Grouped_example :
    Grouped diamond (ok ((str "a" ∷ []) ∷ (str "b" ∷ str "c" ∷ []) ∷ (str "d" ∷ []) ∷ []))
unfolding group_by_depth group_unique duplicates first_missing check_deps check_min_deps find_step
    calc_depth calc_all calc_deps get insert max_of level_at levels_from text_eq
group_by_depth-Grouped_example = group_by_depth-Grouped diamond

abbrev ring : List Step
ring = plain (str "a") (str "b" ∷ []) ∷ plain (str "b") (str "a" ∷ []) ∷ []

ring_is_refused : group_by_depth ring ≡ err (circular_dependency (str "a" ∷ str "b" ∷ str "a" ∷ []))
unfolding group_by_depth group_unique duplicates first_missing check_deps check_min_deps find_step
    calc_depth calc_all calc_deps get drop_until text_eq
ring_is_refused = refl

abbrev editing : Workflow
editing = workflow_of (record (plain (str "edit") []) { apply_edits = true } ∷ [])

abbrev all_edit : Text → Option BackendCapabilities
all_edit n = some (record no_capabilities { file_edit = true })

validate_with_capabilities_iff_example :
    (validate_with_capabilities all_edit editing ≡ ok tt)
    ↔ ((s : Step) → In s editing.steps → IsBounded editing s × IsCapable all_edit s)
validate_with_capabilities_iff_example = validate_with_capabilities_iff all_edit editing

editing_passes : validate_with_capabilities all_edit editing ≡ ok tt
unfolding validate_with_capabilities validate_steps capable_steps check_backends check_demands
    get_backends split_commas non_blank trim drop_while drop_end_while is_whitespace text_eq
editing_passes = refl

abbrev base : Workflow
base = workflow_of (plain (str "a") [] ∷ [])

abbrev derived : Workflow
derived = workflow_of (plain (str "b") (str "a" ∷ []) ∷ [])

merge_workflows-finds_example :
    (step_names (merge_workflows base derived).steps ≡ str "a" ∷ str "b" ∷ [])
    × ((n : Text)
        → find_step n (merge_workflows base derived).steps
          ≡ or_else (find_step n derived.steps) (find_step n base.steps))
unfolding merge_workflows merge_steps new_names index_of text_eq
merge_workflows-finds_example =
    merge_workflows-finds base derived ((λ p. elim p [ ]), tt) ((λ p. elim p [ ]), tt)

-- A workflow that extends itself.
abbrev looping : Sources (Unit {0})
looping = record {
  read = λ s. ok (record base { extends = some (str "w") });
  find_workflow = λ n. some tt;
}

load_workflow-depth_exceeded_example :
    (load_workflow looping tt ≡ err depth_exceeded) ↔ HasAncestors looping 11 tt
load_workflow-depth_exceeded_example = load_workflow-depth_exceeded looping tt

abbrev single : Sources (Unit {0})
single = record { read = λ s. ok base; find_workflow = λ n. none }

load_workflow-IsBounded_example : IsBounded base (plain (str "a") [])
unfolding load_workflow load_with_depth validate_steps
load_workflow-IsBounded_example =
    load_workflow-IsBounded single tt base (plain (str "a") []) refl here

-- The step `b` fails, and the others succeed.
abbrev runner : Runner (Unit {0})
runner = record {
  eval_expression = λ c rs. undefined_variable;
  prepare = λ s rs. ok tt;
  execute = λ s p. record (error_result s.name (str "out") 1 none backend_error) {
    success = if text_eq s.name (str "b") then false else true;
  };
  execute_name = λ s p. refl;
}

run-Ran_example :
    Ran runner (workflow_of diamond) (err (depends_on_failed (str "d") (str "b" ∷ [])))
unfolding run run_levels prepare_level record_all hard_failed_deps successful_deps group_by_depth
    group_unique duplicates first_missing check_deps check_min_deps find_step calc_depth calc_all
    calc_deps get insert max_of level_at levels_from text_eq
run-Ran_example = run-Ran runner (workflow_of diamond)
