-- ===== src/Workflow/Merge.antt =====
-- `extends` of src/workflow/mod.rs: `merge_workflows` and the loading of a chain of workflows.
pub mod Places
pub mod Overrides
pub mod Chain
use loker.Prelude.{
  ℕ, suc, zero, ◌+◌, Bool, true, false, ◌||◌, Option, none, some, List, [], ◌∷◌, ◌++◌,
  if◌then◌else◌, ltb, or_else, Result, ok, err, ◌>>=◌,
}
use loker.Prelude.Text.{Text, text_eq}
use loker.Workflow.{Step, Workflow, WorkflowError}
use loker.Workflow.Validate.{validate}

-- `name_to_index`, of the names from the index `i` on: the last place of a name, since collecting
-- into the map overwrites.
unfoldable pub index_of : ℕ → Text → List Step → Option ℕ
index_of i n [] = none
index_of i n (s ∷ steps) =
    let rest = index_of (suc i) n steps in or_else rest (if text_eq s.name n then some i else none)

-- `merged_steps[pos] = child_step`
unfoldable pub set_at : ℕ → Step → List Step → List Step
set_at i s [] = []
set_at zero s (x ∷ xs) = s ∷ xs
set_at (suc i) s (x ∷ xs) = x ∷ set_at i s xs

abbrev pub put_step : Option ℕ → Step → List Step → List Step
put_step (some pos) s merged = set_at pos s merged
put_step none s merged = merged ++ (s ∷ [])

-- The loop over the steps of the child.
unfoldable pub merge_steps : (parents children merged : List Step) → List Step
merge_steps parents [] merged = merged
merge_steps parents (c ∷ children) merged =
    merge_steps parents children (put_step (index_of 0 c.name parents) c merged)

unfoldable pub merge_workflows : (parent child : Workflow) → Workflow
merge_workflows parent child = record {
  name = child.name;
  description = or_else child.description parent.description;
  extends = none;
  steps = merge_steps parent.steps child.steps parent.steps;
  continue_on_error = child.continue_on_error || parent.continue_on_error;
  timeout = or_else child.timeout parent.timeout;
}

pub data LoadError : Type 0 where
  depth_exceeded : LoadError
  unread : (reason : Text) → LoadError
  not_found : (parent : Text) → LoadError
  invalid : WorkflowError → LoadError

-- Reading and parsing the text of a source, and `find_workflow`.
pub record Sources (S : Type 0) : Type 0 where
  pub read : S → Result Workflow Text
  pub find_workflow : Text → Option S

abbrev pub checked : Workflow → Result (Unit {0}) WorkflowError → Result Workflow LoadError
checked w (ok u) = ok w
checked w (err e) = err (invalid e)

module _ {S : Type 0} (from : Sources S) where
  abbrev pub with_parent :
      Option S
      → (parent : Text) → Workflow
      → (S → Result Workflow LoadError)
      → Result Workflow LoadError
  with_parent none parent w load = err (not_found parent)
  with_parent (some source) parent w load = do p ← load source; ok (merge_workflows p w)

  -- The parent of a workflow that extends one, and `merge_workflows` with it.
  abbrev pub extended :
      Option Text → Workflow → (S → Result Workflow LoadError) → Result Workflow LoadError
  extended none w load = ok w
  extended (some parent) w load = with_parent (from.find_workflow parent) parent w load

  abbrev pub parsed :
      Result Workflow Text → (S → Result Workflow LoadError) → Result Workflow LoadError
  parsed (err reason) load = err (unread reason)
  parsed (ok w) load = do merged ← extended w.extends w load; checked merged (validate merged)

  -- `load_workflow_with_depth` and `load_workflow_from_source_with_depth`, which call each other. The
  -- fuel is how much deeper the code goes: it gives up at a depth above 10.
  unfoldable pub load_with_depth : (fuel depth : ℕ) → S → Result Workflow LoadError
  load_with_depth zero depth source = err depth_exceeded
  load_with_depth (suc fuel) depth source =
      let body = parsed (from.read source) (load_with_depth fuel (suc depth)) in
      if ltb 10 depth then err depth_exceeded else body

  -- `load_workflow`
  unfoldable pub load_workflow : S → Result Workflow LoadError
  load_workflow source = load_with_depth 12 0 source
