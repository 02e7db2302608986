-- ===== src/Workflow/Merge/Chain.antt =====
-- Loading a workflow ends, and gives up exactly on a chain of more than ten parents.
use loker.Prelude.{
  ℕ, zero, suc, ◌+◌, ◌≡◌, ◌↔◌, refl, sym, subst, ◌∙◌, true, false, Option, none, some, ltb, Result,
  ok, err, ◌>>=◌, bind_ind, In, arith,
}
use loker.Prelude.Text.{Text}
use loker.Workflow.{Step, Workflow, WorkflowError}
use loker.Workflow.Validate.{validate}
use loker.Workflow.Validate.Bounds.{
  IsBounded, Validated, valid, exceeds, too_small, validate-Validated,
}
use loker.Workflow.Merge.{
  merge_workflows, LoadError, depth_exceeded, invalid, Sources, checked, with_parent, extended,
  parsed, load_with_depth, load_workflow,
}

module _ {S : Type 0} (from : Sources S) where
  -- The source has `n` parents, one above the other, at least.
  abbrev pub HasAncestors : ℕ → S → Type 0
  HasAncestors zero s = Unit
  HasAncestors (suc n) s =
      (w : Workflow) × (parent : Text) × (s' : S) × (from.read s ≡ ok w)
      × (w.extends ≡ some parent)
      × (from.find_workflow parent ≡ some s')
      × HasAncestors n s'

  abbrev Load : Type 0
  Load = S → Result Workflow LoadError

  -- The call for the parent is the one that gives up.
  abbrev GivesUp : (n : ℕ) → Load → Type 0
  GivesUp n load = (s : S) → (load s ≡ err depth_exceeded) ↔ HasAncestors n s

  checked-in_bounds :
      (w : Workflow) (r : Result (Unit {0}) WorkflowError) → checked w r ≡ err depth_exceeded → ⊥
  checked-in_bounds w (ok u) h = cc
  checked-in_bounds w (err e) h = cc

  parsed-GivesUp :
      (n : ℕ) (load : Load) (s : S)
      → GivesUp n load
      → parsed from (from.read s) load ≡ err depth_exceeded
      → HasAncestors (suc n) s
  parsed-GivesUp n load s gives = go (from.read s) refl
    where
      loaded :
          (w : Workflow) (parent : Text) (s' : S) (r : Result Workflow LoadError)
          → load s' ≡ r
          → ((do p ← r; ok (merge_workflows p w)) >>= (λ m. checked m (validate m)))
            ≡ err depth_exceeded
          → HasAncestors n s'
      loaded w parent s' (ok p) f h = absurd (checked-in_bounds (merge_workflows p w) _ h)
      loaded w parent s' (err e) f h = (gives s').0 (f ∙ h)

      above :
          (w : Workflow) (parent : Text) (o : Option S)
          → from.read s ≡ ok w
          → w.extends ≡ some parent
          → from.find_workflow parent ≡ o
          → (with_parent from o parent w load >>= (λ m. checked m (validate m)))
            ≡ err depth_exceeded
          → HasAncestors (suc n) s
      above w parent none r x f h = cc
      above w parent (some s') r x f h =
          (w, parent, s', r, x, f, loaded w parent s' (load s') refl h)

      extending :
          (w : Workflow) (o : Option Text)
          → from.read s ≡ ok w
          → w.extends ≡ o
          → (extended from o w load >>= (λ m. checked m (validate m))) ≡ err depth_exceeded
          → HasAncestors (suc n) s
      extending w none r x h = absurd (checked-in_bounds w _ h)
      extending w (some parent) r x h = above w parent (from.find_workflow parent) r x refl h

      go :
          (r : Result Workflow Text)
          → from.read s ≡ r
          → parsed from r load ≡ err depth_exceeded
          → HasAncestors (suc n) s
      go (err reason) e h = absurd (other h)
        where
          other : parsed from (err reason) load ≡ err depth_exceeded → ⊥
          other g = cc
      go (ok w) e h = extending w w.extends e refl h

  GivesUp-parsed :
      (n : ℕ) (load : Load) (s : S)
      → GivesUp n load
      → HasAncestors (suc n) s
      → parsed from (from.read s) load ≡ err depth_exceeded
  GivesUp-parsed n load s gives (w, parent, s', r, x, f, a) =
      rw r (rw x (rw f (rw ((gives s').1 a) refl)))

  load_with_depth-GivesUp :
      (n depth : ℕ) → n + depth ≡ 11 → GivesUp n (load_with_depth from (suc n) depth)
  unfolding load_with_depth
  load_with_depth-GivesUp zero depth e s = (λ h. tt, λ a. rw deep refl)
    where
      deep : ltb 10 depth ≡ true
      deep = ground arith
  load_with_depth-GivesUp (suc n) depth e s =
      let above = load_with_depth-GivesUp n (suc depth) (omega arith) in
      rw shallow (
        parsed-GivesUp n (load_with_depth from (suc n) (suc depth)) s above,
        GivesUp-parsed n (load_with_depth from (suc n) (suc depth)) s above,
      )
    where
      shallow : ltb 10 depth ≡ false
      shallow = ground arith

  -- `load_workflow` reports that the depth is exceeded exactly when the source has eleven parents,
  -- each read, parsed and found above the other.
  pub load_workflow-depth_exceeded :
      (s : S) → (load_workflow from s ≡ err depth_exceeded) ↔ HasAncestors 11 s
  unfolding load_workflow
  load_workflow-depth_exceeded s = load_with_depth-GivesUp 11 0 (omega arith) s

  checked-ok :
      (w v : Workflow)
      → checked w (validate w) ≡ ok v
      → (v ≡ w) × ((s : Step) → In s w.steps → IsBounded w s)
  checked-ok w v h = go (validate w) (validate-Validated w) h
    where
      go :
          (r : Result (Unit {0}) WorkflowError)
          → Validated w w.steps r
          → checked w r ≡ ok v
          → (v ≡ w) × ((s : Step) → In s w.steps → IsBounded w s)
      go r (valid b) h = (cc, b)
      go r (exceeds s min p e lt) h = absurd (refused h)
        where
          refused : {x : WorkflowError} → err (invalid x) ≡ ok v → ⊥
          refused g = cc
      go r (too_small s t p e pos lt) h = absurd (refused h)
        where
          refused : {x : WorkflowError} → err (invalid x) ≡ ok v → ⊥
          refused g = cc

  -- Every step of a workflow that `load_workflow` returns keeps the bounds that `validate` checks,
  -- also where the step or its defaults come from a parent.
  pub load_workflow-IsBounded :
      (source : S) (v : Workflow) (s : Step)
      → load_workflow from source ≡ ok v
      → In s v.steps
      → IsBounded v s
  unfolding load_workflow load_with_depth
  load_workflow-IsBounded source v s h p = go (from.read source) h
    where
      go :
          (r : Result Workflow Text)
          → parsed from r (load_with_depth from 11 1) ≡ ok v
          → IsBounded v s
      go (err reason) e = absurd (unlikely e)
        where
          unlikely : parsed from (err reason) (load_with_depth from 11 1) ≡ ok v → ⊥
          unlikely e = cc
      go (ok w) e =
          bind_ind (λ (o : Result Workflow LoadError). o ≡ ok v → IsBounded v s)
            (extended from w.extends w (load_with_depth from 11 1))
            (λ m f g.
              let (same, bounds) = checked-ok m v g in
              subst (λ x. IsBounded x s) (sym same)
                (bounds s (subst (λ (x : Workflow). In s x.steps) same p)))
            (λ x f g. cc) e
