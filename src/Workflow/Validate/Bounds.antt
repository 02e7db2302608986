-- ===== src/Workflow/Validate/Bounds.antt =====
-- `validate`: the bounds that a valid workflow keeps, and the step that breaks one.
use loker.Prelude.{
  ℕ, ◌≤◌, ◌<◌, ◌≡◌, refl, sym, subst, false, Option, none, some, List, [], ◌∷◌, if_ind, ltb, ◌&&◌,
  length, Result, ok, err, In, here, there, inl, inr, ◌⊎◌, arith,
}
use loker.Prelude.Names.{In-cons}
use loker.Workflow.{
  Step, Workflow, WorkflowError, min_deps_success_exceeds_deps, timeout_too_small, step_timeout,
}
use loker.Workflow.Validate.{min_timeout_ms, check_min, check_timeout, validate_steps, validate}

-- The step has both bounds: no minimum above the number of its dependencies, and no timeout
-- between 0 and the least one.
pub record IsBounded (w : Workflow) (s : Step) : Type 0 where
  pub min_bound : (min : ℕ) → s.min_deps_success ≡ some min → min ≤ length s.depends_on
  pub timeout_bound : (t : ℕ) → step_timeout w s ≡ some t → (t ≡ 0) ⊎ (min_timeout_ms ≤ t)

-- What `validate` returns: every step is bounded, or the first that is not is in the error.
pub data Validated (w : Workflow) (todo : List Step)
    : Result (Unit {0}) WorkflowError → Type 0 where
  valid : ((s : Step) → In s todo → IsBounded w s) → Validated w todo (ok tt)
  exceeds :
      (s : Step) (min : ℕ)
      → In s todo
      → s.min_deps_success ≡ some min
      → length s.depends_on < min
      → Validated w todo (err (min_deps_success_exceeds_deps s.name min (length s.depends_on)))
  too_small :
      (s : Step) (t : ℕ)
      → In s todo
      → step_timeout w s ≡ some t
      → 0 < t
      → t < min_timeout_ms
      → Validated w todo (err (timeout_too_small s.name t))

module _ (w : Workflow) where
  later :
      (s : Step) (todo : List Step) (r : Result (Unit {0}) WorkflowError)
      → IsBounded w s
      → Validated w todo r
      → Validated w (s ∷ todo) r
  later s todo r b (valid h) = valid (λ t p. elim (In-cons t s todo p) [
    | inl same ↦ subst (IsBounded w) (sym same) b
    | inr q ↦ h t q
  ])
  later s todo r b (exceeds t min p e lt) = exceeds t min (there p) e lt
  later s todo r b (too_small t k p e pos lt) = too_small t k (there p) e pos lt

  timed :
      (s : Step) (todo : List Step) (r : Result (Unit {0}) WorkflowError) (o : Option ℕ)
      → step_timeout w s ≡ o
      → ((min : ℕ) → s.min_deps_success ≡ some min → min ≤ length s.depends_on)
      → Validated w todo r
      → Validated w (s ∷ todo) (check_timeout o s r)
  timed s todo r none e mins h =
      later s todo r (record { min_bound = mins; timeout_bound = λ t g. cc }) h
  timed s todo r (some t) e mins h =
      if_ind (Validated w (s ∷ todo)) (ltb 0 t && ltb t min_timeout_ms) _ _
        (λ g. too_small s t here e (ground arith) (ground arith))
        (λ g.
          later s todo r
            (record {
              min_bound = mins;
              timeout_bound =
                  λ k f. subst (λ j. (j ≡ 0) ⊎ (min_timeout_ms ≤ j)) (same k f) (allowed g);
            })
            h)
    where
      same : (k : ℕ) → step_timeout w s ≡ some k → t ≡ k
      same k f = cc

      allowed : (ltb 0 t && ltb t min_timeout_ms) ≡ false → (t ≡ 0) ⊎ (min_timeout_ms ≤ t)
      allowed g = ground arith

  validate_steps-Validated : (todo : List Step) → Validated w todo (validate_steps w todo)
  unfolding validate_steps
  validate_steps-Validated [] = valid (λ s p. elim p [ ])
  validate_steps-Validated (s ∷ todo) =
      let rest = validate_steps-Validated todo in
      go s.min_deps_success refl (validate_steps w todo) rest
    where
      go :
          (o : Option ℕ)
          → s.min_deps_success ≡ o
          → (r : Result (Unit {0}) WorkflowError) → Validated w todo r
          → Validated w (s ∷ todo) (check_min o s (check_timeout (step_timeout w s) s r))
      go none e r h = timed s todo r (step_timeout w s) refl (λ min g. cc) h
      go (some min) e r h =
          if_ind (Validated w (s ∷ todo)) (ltb (length s.depends_on) min) _ _
            (λ g. exceeds s min here e (ground arith))
            (λ g. timed s todo r (step_timeout w s) refl (λ k f. bound k g f) h)
        where
          bound :
              (k : ℕ)
              → ltb (length s.depends_on) min ≡ false
              → s.min_deps_success ≡ some k
              → k ≤ length s.depends_on
          bound k g f = subst (λ j. j ≤ length s.depends_on) (same f) (ground arith)
            where
              same : s.min_deps_success ≡ some k → min ≡ k
              same f = cc

pub validate-Validated : (w : Workflow) → Validated w w.steps (validate w)
validate-Validated w = validate_steps-Validated w w.steps

validate_steps_complete :
    (w : Workflow) (todo : List Step)
    → ((s : Step) → In s todo → IsBounded w s)
    → validate_steps w todo ≡ ok tt
validate_steps_complete w todo h = go (validate_steps w todo) (validate_steps-Validated w todo)
  where
    go : (r : Result (Unit {0}) WorkflowError) → Validated w todo r → r ≡ ok tt
    go r (valid g) = refl
    go r (exceeds s min p e lt) = absurd (omega (arith, (h s p).min_bound min e))
    go r (too_small s t p e pos lt) = elim ((h s p).timeout_bound t e) [
      | inl z ↦ absurd (omega arith)
      | inr le ↦ absurd (omega arith)
    ]

pub validate_complete :
    (w : Workflow) → ((s : Step) → In s w.steps → IsBounded w s) → validate w ≡ ok tt
validate_complete w h = validate_steps_complete w w.steps h
