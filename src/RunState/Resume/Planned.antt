-- ===== src/RunState/Resume/Planned.antt =====
-- What the plan of a resumption says of each phase.
use loker.RunState.Resume.Above.{IsNew, IsBelowMax}
use loker.Prelude.{ℕ, ◌≡◌, some, List, map, In}
use loker.Prelude.Text.{Text}
use loker.RunState.Load.{started, completed, failed, MarkerFile}
use loker.RunState.Load.Highest.{Gives}
use loker.RunState.Resume.{PhaseAction, skip, resume, run_fresh}

-- A phase is skipped where a marker says that it is completed, run anew where no marker says
-- anything of it, and else resumed at a new attempt.
abbrev pub Fits : List MarkerFile → List ℕ → Text → PhaseAction → Type 0
Fits markers dirs phase skip = (m : MarkerFile) × In m markers × Gives m phase completed
Fits markers dirs phase (resume n) =
    IsNew markers dirs phase n × ((m : MarkerFile) → In m markers → ¬ Gives m phase completed)
Fits markers dirs phase run_fresh =
    (m : MarkerFile)
    → In m markers
    → (¬ Gives m phase completed) × (¬ Gives m phase failed) × (¬ Gives m phase started)

module _ (markers : List MarkerFile) (dirs_of : Text → List ℕ)
    (small : (m : MarkerFile) (k : ℕ) → In m markers → m.attempt ≡ some k → IsBelowMax k)
    (small_dirs : (phase : Text) (k : ℕ) → In k (dirs_of phase) → IsBelowMax k) where
  abbrev Planned : List Text → List (Text × PhaseAction) → Type 0
  Planned phases actions =
      (map (λ (a : Text × PhaseAction). a.0) actions ≡ phases)
      × ((a : Text × PhaseAction) → In a actions → Fits markers (dirs_of a.0) a.0 a.1)
