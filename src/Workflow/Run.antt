-- ===== src/Workflow/Run.antt =====
-- `WorkflowRunner::run` of src/workflow/mod.rs: the levels one after the other, each step of a
-- level prepared on the results so far and the prepared ones executed together.
pub mod Settled
pub mod Kept
pub mod Prepared
pub mod Levels
use loker.Prelude.Assoc.{get, insert}
use loker.Prelude.{
  ℕ, suc, Bool, true, false, Option, none, some, List, [], ◌∷◌, ◌++◌, map, if◌then◌else◌, is_nil,
  ltb, length, Result, ok, err, ◌>>=◌, ◌≡◌,
}
use loker.Prelude.Text.{Text, text_eq, str}
use loker.Prelude.Decimal.{decimal}
use loker.Workflow.{Step, Workflow, WorkflowError, find_step, step_continue_on_error}
use loker.Workflow.Depth.{group_by_depth}

pub data StepFailureKind : Type 0 where
  timeout : StepFailureKind
  backend_error : StepFailureKind
  empty_output : StepFailureKind
  skipped : StepFailureKind
  edit_failed : StepFailureKind
  verify_failed : StepFailureKind

-- The fields of a result that other steps read.
pub record StepResult : Type 0 where
  pub name : Text
  pub output : Text
  pub success : Bool
  pub elapsed_ms : ℕ
  pub backend : Option Text
  pub failure : Option StepFailureKind

-- `StepResult::error`
abbrev pub error_result : (name output : Text) → ℕ → Option Text → StepFailureKind → StepResult
error_result name output elapsed backend kind = record {
  name = name;
  output = output;
  success = false;
  elapsed_ms = elapsed;
  backend = backend;
  failure = some kind;
}

-- The errors that end a run, with what their texts say.
pub data RunError : Type 0 where
  not_grouped : WorkflowError → RunError
  no_such_step : (step : Text) → RunError
  not_prepared : (step reason : Text) → RunError
  consensus_not_reached : (step : Text) → (successful total needed : ℕ) → RunError
  depends_on_failed : (step : Text) → (deps : List Text) → RunError

-- The map of the results by the names of their steps.
abbrev pub Results : Type 0
Results = List (Text × StepResult)

-- What the template engine makes of a condition.
pub data Evaluated : Type 0 where
  value : Bool → Evaluated
  undefined_variable : Evaluated
  other_error : Evaluated

-- What `run` uses of the template engine and of the execution of one step. A result bears the name
-- of its step.
pub record Runner (P : Type 0) : Type 0 where
  pub eval_expression : Text → Results → Evaluated
  pub prepare : Step → Results → Result P Text
  pub execute : Step → P → StepResult
  pub execute_name : (s : Step) (p : P) → (execute s p).name ≡ s.name

-- `evaluate_condition`: an undefined variable is false, another error true.
abbrev pub evaluate_condition : Evaluated → Bool
evaluate_condition (value b) = b
evaluate_condition undefined_variable = false
evaluate_condition other_error = true

-- `dep_failed`: there is a result of the dependency and it is a failure.
abbrev pub is_failure : Option StepResult → Bool
is_failure none = false
is_failure (some r) = if r.success then false else true

-- A dependency that has not run does not count.
abbrev pub is_success : Option StepResult → Bool
is_success none = false
is_success (some r) = r.success

-- `dep_had_continue_on_error`
abbrev pub had_continue_on_error : Workflow → Option Step → Bool
had_continue_on_error w none = false
had_continue_on_error w (some s) = step_continue_on_error w s

abbrev pub is_hard_failure : Workflow → Results → Text → Bool
is_hard_failure w rs dep =
    if is_failure (get dep rs)
    then if had_continue_on_error w (find_step dep w.steps) then false else true
    else false

unfoldable pub hard_failed_deps : Workflow → Results → List Text → List Text
hard_failed_deps w rs [] = []
hard_failed_deps w rs (dep ∷ deps) =
    let rest = hard_failed_deps w rs deps in if is_hard_failure w rs dep then dep ∷ rest else rest

unfoldable pub successful_deps : Results → List Text → ℕ
successful_deps rs [] = 0
successful_deps rs (dep ∷ deps) =
    let rest = successful_deps rs deps in if is_success (get dep rs) then suc rest else rest

-- What is done with a step: it is run, left out with a result that says so, or the run ends.
pub data Gate : Type 0 where
  proceed : Gate
  skip : (output : Text) → Gate
  bail : RunError → Gate

-- `deps.join(", ")`
unfoldable pub join_comma : List Text → Text
join_comma [] = []
join_comma (t ∷ []) = t
join_comma (t ∷ u ∷ ts) = t ++ str ", " ++ join_comma (u ∷ ts)

abbrev pub consensus_text : (successful total needed : ℕ) → Text
consensus_text successful total needed =
    str "Skipped: Consensus not reached: "
    ++ decimal successful
    ++ str "/"
    ++ decimal total
    ++ str " dependencies succeeded (need "
    ++ decimal needed
    ++ str ")"

abbrev pub dependency_text : List Text → Text
dependency_text deps = str "Skipped: dependency failed (" ++ join_comma deps ++ str ")"

abbrev pub skip_or_bail : Workflow → Step → Text → RunError → Gate
skip_or_bail w s output e = if step_continue_on_error w s then skip output else bail e

-- The check of the consensus where a minimum is set, of the hard failures otherwise.
abbrev pub gate_of : Option ℕ → Workflow → Step → Results → Gate
gate_of (some min) w s rs =
    if ltb (successful_deps rs s.depends_on) min
    then skip_or_bail w s
        (consensus_text (successful_deps rs s.depends_on) (length s.depends_on) min)
        (consensus_not_reached s.name (successful_deps rs s.depends_on) (length s.depends_on) min)
    else proceed
gate_of none w s rs =
    if is_nil (hard_failed_deps w rs s.depends_on)
    then proceed
    else skip_or_bail w s (dependency_text (hard_failed_deps w rs s.depends_on))
        (depends_on_failed s.name (hard_failed_deps w rs s.depends_on))

-- The two collections of `run`.
pub record RunState : Type 0 where
  pub results : Results
  pub ordered : List StepResult

abbrev pub record_result : StepResult → RunState → RunState
record_result x st = record {
  results = insert x.name x st.results;
  ordered = st.ordered ++ (x ∷ []);
}

module _ {P : Type 0} (r : Runner P) (w : Workflow) where
  -- No condition, or one that holds.
  abbrev pub condition_met : Option Text → Results → Bool
  condition_met none rs = true
  condition_met (some c) rs = evaluate_condition (r.eval_expression c rs)

  abbrev pub skip_result : Step → Text → StepResult
  skip_result s output = error_result s.name output 0 none skipped

  abbrev pub Prep : Type 0
  Prep = List (Step × P) × RunState

  abbrev pub cons_prepared : Result P Text → Step → Result Prep RunError → Result Prep RunError
  cons_prepared (err e) s rest = err (not_prepared s.name e)
  cons_prepared (ok p) s rest = do (ps, st) ← rest; ok ((s, p) ∷ ps, st)

  -- A step whose condition holds; `next` prepares the steps after it.
  abbrev pub prepare_gated :
      Gate → Step → (RunState → Result Prep RunError) → RunState → Result Prep RunError
  prepare_gated (bail e) s next st = err e
  prepare_gated (skip output) s next st = next (record_result (skip_result s output) st)
  prepare_gated proceed s next st = cons_prepared (r.prepare s st.results) s (next st)

  abbrev pub prepare_step :
      Option Step → Text → (RunState → Result Prep RunError) → RunState → Result Prep RunError
  prepare_step none name next st = err (no_such_step name)
  prepare_step (some s) name next st =
      if condition_met s.when st.results
      then prepare_gated (gate_of s.min_deps_success w s st.results) s next st
      else next st

  -- The loop over the names of a level.
  unfoldable pub prepare_level : List Text → RunState → Result Prep RunError
  prepare_level [] st = ok ([], st)
  prepare_level (name ∷ names) st =
      prepare_step (find_step name w.steps) name (λ st'. prepare_level names st') st

  -- The results of the level, in the order of its steps.
  unfoldable pub record_all : List (Step × P) → RunState → RunState
  record_all [] st = st
  record_all (q ∷ qs) st = record_all qs (record_result (r.execute q.0 q.1) st)

  unfoldable pub run_levels : List (List Text) → RunState → Result RunState RunError
  run_levels [] st = ok st
  run_levels (level ∷ levels) st = do
    (ps, st') ← prepare_level level st
    run_levels levels (record_all ps st')

  abbrev pub run_grouped :
      Result (List (List Text)) WorkflowError → Result (List StepResult) RunError
  run_grouped (err e) = err (not_grouped e)
  run_grouped (ok levels) = do
    st ← run_levels levels (record { results = []; ordered = [] })
    ok st.ordered

  unfoldable pub run : Result (List StepResult) RunError
  run = run_grouped (group_by_depth w.steps)
