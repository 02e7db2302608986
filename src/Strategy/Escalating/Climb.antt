-- ===== src/Strategy/Escalating/Climb.antt =====
-- What a climb of the ladder returns.
use loker.Prelude.{
  ℕ, suc, ◌≡◌, refl, sym, ap, subst, ◌∙◌, Option, none, some, List, [], ◌∷◌, ◌++◌, append-nil, All,
  All-append, In, here, there, if_ind, is_nil, Result, ok, err, ◌||◌, inl, inr, ◌⊎◌,
}
use loker.Prelude.Text.{Text}
use loker.ApplyVerify.Files.{FileSystem}
use loker.Strategy.{
  BackendError, Attempt, StrategyOutput, StrategyError, backend_not_found, no_backends,
  prompt_render, backend_error,
}
use loker.Strategy.Envelope.{FailureContext}
use loker.Strategy.Escalating.{
  Rung, Backend, Services, EscalatingRetry, PhaseContext, RungStep, ended, failed, find_backend,
  climb_rung, continue, climb, rendered_over, execute,
}
use loker.Strategy.Escalating.Climbed.{
  Unwritten, label, labels, rung_label, rung_labels, Unpassed, Climbed, StepGood,
  climb_rung-StepGood, passed, none_passed, missing, unwritten, nothing_to_climb, unrendered,
}

-- The tier and the backend, of an attempt and of a rung.

module _ (fs : FileSystem) (services : Services fs) (self : EscalatingRetry) (ctx : PhaseContext)
    (backends : List (Backend fs.World)) where
  open fs use {World}

  -- The hook has run on an output and has passed it.
  abbrev EndsGood : Option (Result StrategyOutput StrategyError × World) → Type 0
  EndsGood none = ⊥
  EndsGood (some (r, w)) = Climbed fs services self ctx backends r

  -- The labels behind one more attempt.
  labels-snoc :
      (attempts : List Attempt) (a : Attempt) (rung : Rung) (above : List Rung)
      → label a ≡ rung_label rung
      → labels (attempts ++ (a ∷ [])) ++ rung_labels above
        ≡ labels attempts ++ rung_labels (rung ∷ above)
  labels-snoc [] a rung above e = ap (λ l. l ∷ rung_labels above) e
  labels-snoc (x ∷ attempts) a rung above e =
      ap (λ ls. label x ∷ ls) (labels-snoc attempts a rung above e)

  stopped :
      (rung : Rung) (x : StrategyError)
      → In rung self.rungs
      → ((find_backend fs services self ctx rung.backend backends ≡ none)
          × (x ≡ backend_not_found rung.backend))
        ⊎ ((b : BackendError) × (x ≡ backend_error b) × Unwritten fs services self ctx backends b)
      → Climbed fs services self ctx backends (err x)
  stopped rung x inside (inl (lacks, is)) =
      subst (λ y. Climbed fs services self ctx backends (err y)) (sym is)
        (missing rung inside lacks)
  stopped rung x inside (inr (b, is, why)) =
      subst (λ y. Climbed fs services self ctx backends (err y)) (sym is) (unwritten b why)

  -- One rung, with the rungs above it and what the climb of those is to come to.
  continue-EndsGood :
      (rung : Rung) (rungs : List Rung) (attempts : List Attempt)
      (next : Attempt
        → Option FailureContext
        → World
        → Option (Result StrategyOutput StrategyError × World))
      (s : Option (RungStep World))
      → In rung self.rungs
      → labels attempts ++ rung_labels (rung ∷ rungs) ≡ rung_labels self.rungs
      → All Unpassed attempts
      → StepGood fs services self ctx backends rung attempts s
      → ((a : Attempt) (previous : Option FailureContext) (w : World)
          → label a ≡ rung_label rung
          → Unpassed a
          → EndsGood (next a previous w))
      → EndsGood (continue fs services self ctx s λ a previous w. next a previous w)
  continue-EndsGood rung rungs attempts next none inside e unpassed bad ends = absurd bad
  continue-EndsGood rung rungs attempts next (some (ended (ok o) w)) inside e unpassed
        (a, is, same, good, seen_it, status) ends =
      passed o attempts a rungs is unpassed good seen_it
        (ap (λ (tried : List Attempt). labels tried ++ rung_labels rungs) is
          ∙ labels-snoc attempts a rung rungs same
          ∙ e)
        status
  continue-EndsGood rung rungs attempts next (some (ended (err x) w)) inside e unpassed why ends =
      stopped rung x inside why
  continue-EndsGood rung rungs attempts next (some (failed a previous w)) inside e unpassed
        (same, none_yet) ends =
      ends a previous w same none_yet

  climb-EndsGood :
      (rendered : Text) (idx : ℕ) (rungs : List Rung) (attempts : List Attempt)
      (previous : Option FailureContext) (w : World)
      → ((r : Rung) → In r rungs → In r self.rungs)
      → labels attempts ++ rung_labels rungs ≡ rung_labels self.rungs
      → All Unpassed attempts
      → EndsGood (climb fs services self ctx backends rendered idx rungs attempts previous w)
  unfolding climb
  climb-EndsGood rendered idx [] attempts previous w sub e unpassed =
      none_passed _ unpassed (sym (append-nil (labels attempts)) ∙ e) refl
  climb-EndsGood rendered idx (rung ∷ rungs) attempts previous w sub e unpassed =
      continue-EndsGood rung rungs attempts
        (λ a previous' w'.
          climb fs services self ctx backends rendered (suc idx) rungs (attempts ++ (a ∷ []))
            previous' w')
        (climb_rung fs services self ctx backends rendered idx rung attempts previous w)
        (sub rung here) e unpassed
        (climb_rung-StepGood fs services self ctx backends rendered idx rung attempts previous w)
        (λ a previous' w' same none_yet.
          climb-EndsGood rendered (suc idx) rungs (attempts ++ (a ∷ [])) previous' w'
            (λ r p. sub r (there p)) (labels-snoc attempts a rung rungs same ∙ e)
            (All-append Unpassed attempts (a ∷ []) unpassed (none_yet, tt)))

  -- A run of the ladder returns. Either a rung passed, which the hook has said of an output, its
  -- attempt is the last one, no attempt before it passed, the attempts have the tiers and backends
  -- of the rungs up to it, in order, and the status is succeeded; or none passed, there is an
  -- attempt for each rung, and the status is exhausted; or a rung of the ladder has a backend that
  -- is not there; or an output could not be written; or there are no rungs or no backends; or the
  -- template could not be rendered.
  pub execute-Climbed :
      (w : World)
      → (r : Result StrategyOutput StrategyError) × (w' : World) × (execute fs services self ctx
            backends w
          ≡ some (r, w'))
        × Climbed fs services self ctx backends r
  unfolding execute
  execute-Climbed w =
      if_ind Climbs (is_nil self.rungs || is_nil backends) _ _
        (λ nothing. (err no_backends, w, refl, nothing_to_climb nothing))
        (λ h. over (services.render self.prompt_template) refl)
    where
      Climbs : Option (Result StrategyOutput StrategyError × World) → Type 0
      Climbs o =
          (r : Result StrategyOutput StrategyError) × (w' : World) × (o ≡ some (r, w'))
          × Climbed fs services self ctx backends r

      ends : (o : Option (Result StrategyOutput StrategyError × World)) → EndsGood o → Climbs o
      ends none bad = absurd bad
      ends (some (r, w')) good = (r, w', refl, good)

      over :
          (t : Result Text Text)
          → services.render self.prompt_template ≡ t
          → Climbs (rendered_over fs services self ctx backends t w)
      over (err x) e = (err (prompt_render x), w, refl, unrendered x e)
      over (ok rendered) e =
          ends (climb fs services self ctx backends rendered 0 self.rungs [] none w)
            (climb-EndsGood rendered 0 self.rungs [] none w (λ r p. p) refl tt)
