-- ===== src/Workflow/Run/Settled.antt =====
-- What each result of a run rests on.
use loker.Prelude.Assoc.{get, insert, get-insert}
use loker.Prelude.{
  ℕ, ◌≤◌, ◌≡◌, refl, sym, ap, subst, ◌∙◌, Bool, true, false, Option, none, some, List, [], ◌∷◌,
  ◌++◌, if_ind, is_nil, ltb, ok, In, here, there, Bool-cases, inl, inr, arith,
}
use loker.Prelude.Text.{Text, text_eq}
use loker.Prelude.TextOrd.{text_eq-eq}
use loker.Prelude.Names.{text_eq_refl, In-left, In-right, In-cons}
use loker.Workflow.{Step, Workflow, find_step, step_continue_on_error}
use loker.Workflow.Run.{
  StepResult, RunError, Results, Runner, is_failure, had_continue_on_error, is_hard_failure,
  hard_failed_deps, successful_deps, Gate, proceed, skip, bail, skip_or_bail, gate_of,
  condition_met,
}

-- The results of the map are among those, under the names of their steps.
abbrev pub Known : Results → List StepResult → Type 0
Known rs ordered = (n : Text) (x : StepResult) → get n rs ≡ some x → In x ordered × (x.name ≡ n)

-- Every dependency without a condition has its result.
abbrev pub Ready : Workflow → Step → Results → Type 0
Ready w s rs =
    (dep : Text) (d : Step)
    → In dep s.depends_on
    → find_step dep w.steps ≡ some d
    → d.when ≡ none
    → (x : StepResult) × (get dep rs ≡ some x)

-- Without a minimum, each dependency that failed may do so; with one, that many have succeeded.
abbrev pub PermittedBy : Option ℕ → Workflow → List Text → Results → Type 0
PermittedBy none w deps rs =
    (dep : Text)
    → In dep deps
    → is_failure (get dep rs) ≡ true
    → had_continue_on_error w (find_step dep w.steps) ≡ true
PermittedBy (some min) w deps rs = min ≤ successful_deps rs deps

abbrev pub Permitted : Workflow → Step → Results → Type 0
Permitted w s rs = PermittedBy s.min_deps_success w s.depends_on rs

module _ {P : Type 0} (r : Runner P) (w : Workflow) where
  -- What a result rests on, in a run whose results are `ordered`: the step was executed on results
  -- that permit it, or it was left out, with leave to, since they do not.
  pub data Settled (ordered : List StepResult) : StepResult → Type 0 where
    executed :
        (s : Step) (p : P) (rs : Results)
        → In s w.steps
        → Known rs ordered
        → Ready w s rs
        → Permitted w s rs
        → condition_met r w s.when rs ≡ true
        → r.prepare s rs ≡ ok p
        → Settled ordered (r.execute s p)
    left_out :
        (s : Step) (x : StepResult) (rs : Results)
        → In s w.steps
        → Known rs ordered
        → Ready w s rs
        → ¬ Permitted w s rs
        → step_continue_on_error w s ≡ true
        → x.name ≡ s.name
        → x.success ≡ false
        → Settled ordered x

pub Known-more :
    (rs : Results) (ordered more : List StepResult) → Known rs ordered → Known rs (ordered ++ more)
Known-more rs ordered more h n x e = let (p, same) = h n x e in (In-left ordered more p, same)

pub Settled-more :
    {P : Type 0} (r : Runner P) (w : Workflow) (ordered more : List StepResult) (x : StepResult)
    → Settled r w ordered x
    → Settled r w (ordered ++ more) x
Settled-more r w ordered more x (executed s p rs i known ready permitted met prepared) =
    executed s p rs i (Known-more rs ordered more known) ready permitted met prepared
Settled-more r w ordered more x (left_out s y rs i known ready refused leave named failed) =
    left_out s y rs i (Known-more rs ordered more known) ready refused leave named failed

-- What the gate of a step says, and when.
abbrev pub Gated : Workflow → Step → Results → Gate → Type 0
Gated w s rs proceed = Permitted w s rs
Gated w s rs (skip output) = (¬ Permitted w s rs) × (step_continue_on_error w s ≡ true)
Gated w s rs (bail e) = (¬ Permitted w s rs) × (step_continue_on_error w s ≡ false)

module _ (w : Workflow) (rs : Results) where
  hard_failed_deps-none :
      (deps : List Text) → is_nil (hard_failed_deps w rs deps) ≡ true → PermittedBy none w deps rs
  unfolding hard_failed_deps
  hard_failed_deps-none [] h dep p = elim p [ ]
  hard_failed_deps-none (d ∷ deps) h dep p =
      let rest = hard_failed_deps-none deps in
      if_ind
        (λ (l : List Text).
          is_nil l ≡ true
          → is_failure (get dep rs) ≡ true
          → had_continue_on_error w (find_step dep w.steps) ≡ true)
        (is_hard_failure w rs d) (d ∷ hard_failed_deps w rs deps) (hard_failed_deps w rs deps)
        (λ e g. cc)
        (λ e g f. elim (In-cons dep d deps p) [
          | inl same ↦ soft f (subst (λ n. is_hard_failure w rs n ≡ false) (sym same) e)
          | inr q ↦ rest g dep q f
        ])
        h
    where
      soft :
          is_failure (get dep rs) ≡ true
          → is_hard_failure w rs dep ≡ false
          → had_continue_on_error w (find_step dep w.steps) ≡ true
      soft f e = elim (Bool-cases (had_continue_on_error w (find_step dep w.steps))) [
        | inl c ↦ c
        | inr c ↦ cc (f, e, c)
      ]

  hard_failed_deps-some :
      (deps : List Text)
      → is_nil (hard_failed_deps w rs deps) ≡ false
      → ¬ PermittedBy none w deps rs
  unfolding hard_failed_deps
  hard_failed_deps-some [] h ok_deps = cc
  hard_failed_deps-some (d ∷ deps) h permitted =
      let rest = hard_failed_deps-some deps in
      if_ind (λ (l : List Text). is_nil l ≡ false → ⊥) (is_hard_failure w rs d) _ _
        (λ e g. hard (is_failure (get d rs)) refl e)
        (λ e g. rest g (λ dep p. permitted dep (there p))) h
    where
      hard : (b : Bool) → is_failure (get d rs) ≡ b → is_hard_failure w rs d ≡ true → ⊥
      hard true e g = cc (permitted d here e, g, e)
      hard false e g = cc

  pub gate_of-Gated : (s : Step) → Gated w s rs (gate_of s.min_deps_success w s rs)
  gate_of-Gated s = go s.min_deps_success
    where
      Shown : Option ℕ → Gate → Type 0
      Shown o proceed = PermittedBy o w s.depends_on rs
      Shown o (skip output) =
          (¬ PermittedBy o w s.depends_on rs) × (step_continue_on_error w s ≡ true)
      Shown o (bail e) = (¬ PermittedBy o w s.depends_on rs) × (step_continue_on_error w s ≡ false)

      shown :
          (o : Option ℕ) (output : Text) (e : RunError)
          → (¬ PermittedBy o w s.depends_on rs)
          → Shown o (skip_or_bail w s output e)
      shown o output e n =
          if_ind (Shown o) (step_continue_on_error w s) _ _ (λ h. (n, h)) (λ h. (n, h))

      go : (o : Option ℕ) → Shown o (gate_of o w s rs)
      go none =
          if_ind (Shown none) (is_nil (hard_failed_deps w rs s.depends_on)) _ _
            (λ h. hard_failed_deps-none s.depends_on h)
            (λ h. shown none _ _ (hard_failed_deps-some s.depends_on h))
      go (some min) =
          if_ind (Shown (some min)) (ltb (successful_deps rs s.depends_on) min) _ _
            (λ h. shown (some min) _ _ (λ le. ground arith)) (λ h. ground arith)

pub Known-insert :
    (x : StepResult) (rs : Results) (ordered : List StepResult)
    → Known rs ordered
    → Known (insert x.name x rs) (ordered ++ (x ∷ []))
Known-insert x rs ordered h n y e = elim (Bool-cases (text_eq x.name n)) [
  | inl f ↦
      let same : some x ≡ some y = sym (rw f at (get-insert n x.name x rs)) ∙ e in
      (
        subst (λ z. In z (ordered ++ (x ∷ []))) (inner same) (In-right ordered (x ∷ []) here),
        ap (λ (z : StepResult). z.name) (sym (inner same)) ∙ text_eq-eq x.name n f,
      )
  | inr f ↦ Known-more rs ordered (x ∷ []) h n y (sym (rw f at (get-insert n x.name x rs)) ∙ e)
]
  where
    inner : some x ≡ some y → x ≡ y
    inner same = cc

-- A name that has a result keeps one.
pub insert_keeps :
    (x : StepResult) (rs : Results) (n : Text) (y : StepResult)
    → get n rs ≡ some y
    → (z : StepResult) × (get n (insert x.name x rs) ≡ some z)
insert_keeps x rs n y e = elim (Bool-cases (text_eq x.name n)) [
  | inl f ↦ (x, get-insert n x.name x rs ∙ rw f refl)
  | inr f ↦ (y, get-insert n x.name x rs ∙ rw f e)
]

pub insert_own :
    (x : StepResult) (rs : Results) (n : Text) → x.name ≡ n → get n (insert x.name x rs) ≡ some x
insert_own x rs n same = get-insert n x.name x rs ∙ rw same (rw (text_eq_refl n) refl)
