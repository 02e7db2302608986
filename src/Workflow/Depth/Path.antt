-- ===== src/Workflow/Depth/Path.antt =====
-- What the search for a depth is about: sound depths, chains of dependencies and cycles.
use loker.Prelude.Assoc.{get}
use loker.Prelude.{ℕ, suc, ◌<◌, ◌≡◌, none, some, List, [], ◌∷◌, ◌++◌, Result, ok, err, In}
use loker.Prelude.Text.{Text}
use loker.Prelude.Names.{NoDup}
use loker.Workflow.{Step, WorkflowError, circular_dependency, find_step, step_names}
use loker.Workflow.Depth.{Depths}
use loker.Workflow.Depth.Facts.{keys_of}

abbrev pub head_or : Text → List Text → Text
head_or n [] = n
head_or n (v ∷ vs) = v

module _ (steps : List Step) where
  -- A step with the first name depends on the second one.
  abbrev pub Depends : Text → Text → Type 0
  Depends a b = (s : Step) × (find_step a steps ≡ some s) × In b s.depends_on

  -- Each name depends on the next one, and the last of them on `n`.
  abbrev pub DependsInTurn : List Text → Text → Type 0
  DependsInTurn [] n = Unit
  DependsInTurn (v ∷ vs) n = Depends v (head_or n vs) × DependsInTurn vs n

  -- The chain begins and ends with one name, and each of its names depends on the next one.
  abbrev pub IsCycle : List Text → Type 0
  IsCycle chain =
      (v : Text) × (vs : List Text) × (chain ≡ v ∷ (vs ++ (v ∷ []))) × DependsInTurn (v ∷ vs) v

  -- The depth `d` is above those of the dependencies, and one of them is just below it.
  pub record IsDepth (ds : Depths) (s : Step) (d : ℕ) : Type 0 where
    pub above : (dep : Text) → In dep s.depends_on → (k : ℕ) × (get dep ds ≡ some k) × (k < d)
    pub reached : (k : ℕ) → d ≡ suc k → (dep : Text) × In dep s.depends_on × (get dep ds ≡ some k)

  pub record IsSound (ds : Depths) : Type 0 where
    pub keys : NoDup (keys_of ds)
    pub sound :
        (n : Text) (d : ℕ)
        → get n ds ≡ some d
        → (s : Step) × (find_step n steps ≡ some s) × IsDepth ds s d

  pub record Extends (ds ds' : Depths) : Type 0 where
    pub kept : (n : Text) (d : ℕ) → get n ds ≡ some d → get n ds' ≡ some d

  pub record Absent (visiting : List Text) (ds : Depths) : Type 0 where
    pub none_of : (v : Text) → In v visiting → get v ds ≡ none

  abbrev pub Cyclic : WorkflowError → Type 0
  Cyclic (circular_dependency chain) = IsCycle chain
  Cyclic _ = ⊥

  -- What a call leaves: the depths that were there, sound ones, and none for what is visited.
  pub record After (visiting : List Text) (ds ds' : Depths) : Type 0 where
    pub is_sound : IsSound ds'
    pub extends : Extends ds ds'
    pub absent : Absent visiting ds'

  abbrev pub Found : List Text → Text → Depths → Result (ℕ × Depths) WorkflowError → Type 0
  Found visiting name ds (err e) = Cyclic e
  Found visiting name ds (ok (d, ds')) = After visiting ds ds' × (get name ds' ≡ some d)

  abbrev pub Aligned : List Text → List ℕ → Depths → Type 0
  Aligned [] [] ds = Unit
  Aligned (dep ∷ deps) (d ∷ found) ds = (get dep ds ≡ some d) × Aligned deps found ds
  Aligned _ _ ds = ⊥

  abbrev pub FoundAll :
      List Text → List Text → Depths → Result (List ℕ × Depths) WorkflowError → Type 0
  FoundAll visiting deps ds (err e) = Cyclic e
  FoundAll visiting deps ds (ok (found, ds')) = After visiting ds ds' × Aligned deps found ds'

  -- Every dependency of a step is the name of a step.
  pub record IsComplete : Type 0 where
    pub complete :
        (n : Text) (s : Step) (dep : Text)
        → find_step n steps ≡ some s
        → In dep s.depends_on
        → In dep (step_names steps)

  -- What is being visited: different steps, each depending on the next one, the last on the name.
  pub record Visits (visiting : List Text) (name : Text) : Type 0 where
    pub different : NoDup visiting
    pub in_turn : DependsInTurn visiting name
    pub steps_only : (v : Text) → In v visiting → In v (step_names steps)
