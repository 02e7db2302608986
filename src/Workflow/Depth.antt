-- ===== src/Workflow/Depth.antt =====
-- `group_by_depth` of src/workflow/mod.rs: the steps by the depth of their dependencies.
-- The hash maps are association lists; where the source iterates over one, the order is arbitrary
-- there and the order of insertion here.
pub mod Checks
pub mod Facts
pub mod Path
pub mod Insert
pub mod Visit
pub mod Search
pub mod Levels
pub mod Grouped
use loker.Prelude.Assoc.{get, insert}
use loker.Prelude.{
  ℕ, zero, suc, ◌+◌, Bool, true, false, Option, none, some, List, [], ◌∷◌, ◌++◌, map, if◌then◌else◌,
  is_nil, ltb, ◌==◌, Result, ok, err, ◌>>=◌, ◌&&◌, length,
}
use loker.Prelude.Text.{Text, text_eq}
use loker.Prelude.Names.{mem}
use loker.Workflow.{
  Step, WorkflowError, missing_dependency, circular_dependency, duplicate_step_names,
  min_deps_success_without_deps, step_not_found, find_step, step_names,
}

-- The names that occur more than once, each of them once.
unfoldable pub duplicates : List Text → List Text
duplicates [] = []
duplicates (n ∷ ns) =
    let rest = duplicates ns in
    if mem n ns && (if mem n rest then false else true) then n ∷ rest else rest

unfoldable pub first_missing : List Text → List Text → Option Text
first_missing names [] = none
first_missing names (d ∷ deps) =
    let rest = first_missing names deps in if mem d names then rest else some d

abbrev pub cons_missing :
    Option Text → Step → Result (Unit {0}) WorkflowError → Result (Unit {0}) WorkflowError
cons_missing none s rest = rest
cons_missing (some dep) s rest = err (missing_dependency s.name dep)

-- The loop over the steps that looks every dependency up.
unfoldable pub check_deps : List Text → List Step → Result (Unit {0}) WorkflowError
check_deps names [] = ok tt
check_deps names (s ∷ steps) =
    let rest = check_deps names steps in cons_missing (first_missing names s.depends_on) s rest

abbrev pub wants_deps : Option ℕ → Bool
wants_deps none = false
wants_deps (some min) = ltb 0 min

unfoldable pub check_min_deps : List Step → Result (Unit {0}) WorkflowError
check_min_deps [] = ok tt
check_min_deps (s ∷ steps) =
    let rest = check_min_deps steps in
    if wants_deps s.min_deps_success && is_nil s.depends_on
    then err (min_deps_success_without_deps s.name)
    else rest

abbrev pub Depths : Type 0
Depths = List (Text × ℕ)

-- `visiting[pos..]`, from the first place of `name` on.
unfoldable pub drop_until : Text → List Text → List Text
drop_until name [] = []
drop_until name (v ∷ vs) = let rest = drop_until name vs in if text_eq v name then v ∷ vs else rest

unfoldable pub max_of : List ℕ → ℕ
max_of [] = 0
max_of (d ∷ ds) = let rest = max_of ds in if ltb d rest then rest else d

abbrev pub Calc : Type 0
Calc = Text → Depths → Result (ℕ × Depths) WorkflowError

-- The depths of the dependencies, one after the other, up to the first error.
unfoldable pub calc_deps : Calc → List Text → Depths → Result (List ℕ × Depths) WorkflowError
calc_deps calc [] ds = ok ([], ds)
calc_deps calc (dep ∷ deps) ds = do
  (d, ds') ← calc dep ds
  (rest, ds'') ← calc_deps calc deps ds'
  ok (d ∷ rest, ds'')

abbrev pub depth_over : List Text → List ℕ → ℕ
depth_over deps ds = if is_nil deps then 0 else suc (max_of ds)

abbrev pub calc_step :
    Option Step
    → Text
    → (List Text → Depths → Result (List ℕ × Depths) WorkflowError)
    → Depths
    → Result (ℕ × Depths) WorkflowError
calc_step none name calc ds = err (step_not_found name)
calc_step (some s) name calc ds = do
  (found, ds') ← calc s.depends_on ds
  ok (depth_over s.depends_on found, insert name (depth_over s.depends_on found) ds')

abbrev pub calc_unknown :
    Option ℕ → Depths → Result (ℕ × Depths) WorkflowError → Result (ℕ × Depths) WorkflowError
calc_unknown (some d) ds otherwise = ok (d, ds)
calc_unknown none ds otherwise = otherwise

-- `calc_depth`, on fuel. What is being visited is an argument, since each call that returns takes
-- off the name that it put on. No fuel left is `step_not_found` of nothing, which no run reaches.
unfoldable pub calc_depth : ℕ → List Step → (visiting : List Text) → Calc
calc_depth zero steps visiting name ds = err (step_not_found [])
calc_depth (suc fuel) steps visiting name ds =
    let deeper =
      calc_step (find_step name steps) name
        (λ deps ds'. calc_deps (calc_depth fuel steps (visiting ++ (name ∷ []))) deps ds') ds in
    calc_unknown (get name ds) ds (
      if mem name visiting
      then err (circular_dependency (drop_until name visiting ++ (name ∷ [])))
      else deeper)

-- The loop over the steps.
unfoldable pub calc_all : List Step → List Step → Depths → Result Depths WorkflowError
calc_all steps [] ds = ok ds
calc_all steps (s ∷ todo) ds = do
  (d, ds') ← calc_depth (suc (length steps)) steps [] s.name ds
  calc_all steps todo ds'

-- `levels[depth]`
unfoldable pub level_at : ℕ → Depths → List Text
level_at d [] = []
level_at d (e ∷ ds) = let rest = level_at d ds in if e.1 == d then e.0 ∷ rest else rest

-- The levels from `d` on, `n` of them.
unfoldable pub levels_from : (n d : ℕ) → Depths → List (List Text)
levels_from zero d ds = []
levels_from (suc n) d ds = level_at d ds ∷ levels_from n (suc d) ds

abbrev pub levels_of : Depths → List (List Text)
levels_of ds = levels_from (suc (max_of (map (λ (e : Text × ℕ). e.1) ds))) 0 ds

-- `group_by_depth` where no name is twice.
unfoldable pub group_unique : List Step → Result (List (List Text)) WorkflowError
group_unique steps = do
  found ← check_deps (step_names steps) steps
  enough ← check_min_deps steps
  ds ← calc_all steps steps []
  ok (levels_of ds)

unfoldable pub group_by_depth : List Step → Result (List (List Text)) WorkflowError
group_by_depth steps =
    let twice = duplicates (step_names steps) in
    if is_nil twice then group_unique steps else err (duplicate_step_names twice)
