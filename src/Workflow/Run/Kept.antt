-- ===== src/Workflow/Run/Kept.antt =====
-- What a run records, and why it ends early.
use loker.Prelude.Assoc.{get}
use loker.Prelude.{◌≡◌, sym, subst, false, some, [], ◌∷◌, ◌++◌, err, In, inl, inr}
use loker.Prelude.Text.{Text}
use loker.Prelude.Names.{In-append, In-one}
use loker.Workflow.{Step, Workflow, step_continue_on_error}
use loker.Workflow.Run.{
  StepResult, RunError, not_prepared, Results, Runner, RunState, record_result,
}
use loker.Workflow.Run.Settled.{
  Known, Ready, Permitted, Settled, Settled-more, Known-insert, insert_keeps,
}

module _ {P : Type 0} (r : Runner P) (w : Workflow) where
  -- The map holds what was recorded, and each result is settled.
  pub record Sound (st : RunState) : Type 0 where
    pub known : Known st.results st.ordered
    pub settled : (x : StepResult) → In x st.ordered → Settled r w st.ordered x

  -- Why a run whose steps were grouped ends early: a step could not be prepared, or its
  -- dependencies do not permit it and it has no leave to be left out.
  pub data RunFailed : RunError → Type 0 where
    unprepared :
        (s : Step) (st : RunState) (reason : Text)
        → In s w.steps
        → Sound st
        → r.prepare s st.results ≡ err reason
        → RunFailed (not_prepared s.name reason)
    refused :
        (s : Step) (st : RunState) (e : RunError)
        → In s w.steps
        → Sound st
        → Ready w s st.results
        → ¬ Permitted w s st.results
        → step_continue_on_error w s ≡ false
        → RunFailed e

  abbrev pub Answered : Results → Text → Type 0
  Answered rs n = (x : StepResult) × (get n rs ≡ some x)

  abbrev pub Keeps : Results → Results → Type 0
  Keeps a b = (n : Text) → Answered a n → Answered b n

  pub Sound-record :
      (st : RunState) (x : StepResult)
      → Sound st
      → Settled r w st.ordered x
      → Sound (record_result x st)
  Sound-record st x h settles = record {
    known = Known-insert x st.results st.ordered h.known;
    settled = λ y p. elim (In-append st.ordered (x ∷ []) p) [
      | inl q ↦ Settled-more r w st.ordered (x ∷ []) y (h.settled y q)
      | inr q ↦
          subst (Settled r w (st.ordered ++ (x ∷ []))) (sym (In-one y x q))
            (Settled-more r w st.ordered (x ∷ []) x settles)
    ];
  }

  pub Keeps-record :
      (st : RunState) (x : StepResult) → Keeps st.results (record_result x st).results
  Keeps-record st x n (y, e) = insert_keeps x st.results n y e
