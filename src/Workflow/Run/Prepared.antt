-- ===== src/Workflow/Run/Prepared.antt =====
-- What preparing and executing a level makes of the results.
use loker.Prelude.{
  ◌≡◌, refl, sym, subst, ◌∙◌, true, false, none, some, List, [], ◌∷◌, ◌++◌, if_ind, Result, ok, err,
  bind_ind, append-nil, append_assoc, In, here, there, inl, inr, ◌⊎◌,
}
use loker.Prelude.Text.{Text}
use loker.Prelude.Names.{In-cons}
use loker.Workflow.{Step, Workflow, find_step, step_names}
use loker.Workflow.Depth.Facts.{find_step-name, find_step-In, find_step-some}
use loker.Workflow.Run.{
  StepResult, RunError, Results, Runner, Gate, proceed, skip, bail, gate_of, RunState,
  record_result, condition_met, skip_result, Prep, cons_prepared, prepare_gated, prepare_step,
  prepare_level,
}
use loker.Workflow.Run.Settled.{
  Ready, Settled, executed, left_out, Settled-more, Gated, gate_of-Gated, insert_own,
}
use loker.Workflow.Run.Kept.{
  Sound, RunFailed, Answered, Keeps, Sound-record, Keeps-record, unprepared, refused,
}

module _ {P : Type 0} (r : Runner P) (w : Workflow) where
  -- The names of a level, below which the names `Below` are answered.
  module _ (Below : Text → Type 0) where
    -- What a step of the level needs is below it.
    abbrev pub Placed : List Text → Type 0
    Placed names =
        (n : Text)
        → In n names
        → In n (step_names w.steps)
          × ((s : Step) (dep : Text) (d : Step)
              → find_step n w.steps ≡ some s
              → In dep s.depends_on
              → find_step dep w.steps ≡ some d
              → d.when ≡ none
              → Below dep)

    abbrev pub Served : Results → Type 0
    Served rs = (n : Text) → Below n → Answered r w rs n

    pub record Prepped (names : List Text) (st : RunState) (ps : List (Step × P)) (st' : RunState)
        : Type 0 where
      pub sound : Sound r w st'
      pub keeps : Keeps r w st.results st'.results
      pub grows : (more : List StepResult) × (st'.ordered ≡ st.ordered ++ more)
      pub entries : (q : Step × P) → In q ps → Settled r w st'.ordered (r.execute q.0 q.1)
      pub covered :
          (n : Text) (s : Step)
          → In n names
          → find_step n w.steps ≡ some s
          → s.when ≡ none
          → Answered r w st'.results n ⊎ ((p : P) × In (s, p) ps)

    abbrev pub IsPrepped : List Text → RunState → Result (Prep r w) RunError → Type 0
    IsPrepped names st (err e) = RunFailed r w e
    IsPrepped names st (ok (ps, st')) = Prepped names st ps st'

    -- One name more in front, with what is known of it in the end.
    Prepped-cons :
        (name : Text) (names : List Text) (st st1 : RunState) (ps : List (Step × P))
        (st' : RunState)
        → Keeps r w st.results st1.results
        → ((more : List StepResult) × (st1.ordered ≡ st.ordered ++ more))
        → Prepped names st1 ps st'
        → ((s : Step)
            → find_step name w.steps ≡ some s
            → s.when ≡ none
            → Answered r w st'.results name)
        → Prepped (name ∷ names) st ps st'
    Prepped-cons name names st st1 ps st' keeps (more, e) h head = record {
      sound = h.sound;
      keeps = λ n a. h.keeps n (keeps n a);
      grows =
          let (more', e') = h.grows in
          (more ++ more', e' ∙ rw e (append_assoc st.ordered more more'));
      entries = h.entries;
      covered = λ n s p f g. elim (In-cons n name names p) [
        | inl same ↦ inl (
            subst (Answered r w st'.results) (sym same)
              (head s (subst (λ m. find_step m w.steps ≡ some s) same f) g))
        | inr q ↦ h.covered n s q f g
      ];
    }

    -- The first name is prepared, on top of what prepares the others.
    Prepped-entry :
        (s : Step) (p : P) (name : Text) (names : List Text) (st : RunState) (ps : List (Step × P))
        (st' : RunState)
        → find_step name w.steps ≡ some s
        → Settled r w st.ordered (r.execute s p)
        → Prepped names st ps st'
        → Prepped (name ∷ names) st ((s, p) ∷ ps) st'
    Prepped-entry s p name names st ps st' is settles h = record {
      sound = h.sound;
      keeps = h.keeps;
      grows = h.grows;
      entries = λ q i. elim (In-cons q (s, p) ps i) [
        | inl same ↦
            let (more, e) = h.grows in
            subst (λ (x : Step × P). Settled r w st'.ordered (r.execute x.0 x.1)) (sym same)
              (subst (λ l. Settled r w l (r.execute s p)) (sym e)
                (Settled-more r w st.ordered more (r.execute s p) settles))
        | inr j ↦ h.entries q j
      ];
      covered = λ n t i f g. elim (In-cons n name names i) [
        | inl same ↦ inr (p, subst (λ x. In (x, p) ((s, p) ∷ ps)) (first n t same f) here)
        | inr j ↦ later n t (h.covered n t j f g)
      ];
    }
      where
        first : (n : Text) (t : Step) → n ≡ name → find_step n w.steps ≡ some t → s ≡ t
        first n t same f = cc

        later :
            (n : Text) (t : Step)
            → Answered r w st'.results n ⊎ ((p : P) × In (t, p) ps)
            → Answered r w st'.results n ⊎ ((o : P) × In (t, o) ((s, p) ∷ ps))
        later n t (inl a) = inl a
        later n t (inr (o, i)) = inr (o, there i)

    module _ (name : Text) (names : List Text) (st : RunState)
        (next : RunState → Result (Prep r w) RunError)
        (rest : (st1 : RunState)
          → Keeps r w st.results st1.results
          → Sound r w st1
          → IsPrepped names st1 (next st1))
        (sound : Sound r w st) where
      prepare_gated-IsPrepped :
          (s : Step) (g : Gate)
          → find_step name w.steps ≡ some s
          → Ready w s st.results
          → condition_met r w s.when st.results ≡ true
          → Gated w s st.results g
          → IsPrepped (name ∷ names) st (prepare_gated r w g s next st)
      prepare_gated-IsPrepped s (bail e) is ready met (denied, leave) =
          refused s st e (find_step-In name w.steps s is) sound ready denied leave
      prepare_gated-IsPrepped s (skip output) is ready met (denied, leave) =
          let x = skip_result r w s output in
          let after = rest (record_result x st) (Keeps-record r w st x) (
            Sound-record r w st x sound (
              left_out s x st.results (find_step-In name w.steps s is) sound.known ready denied
                leave refl refl)) in
          skipped (next (record_result x st)) after
        where
          skipped :
              (o : Result (Prep r w) RunError)
              → IsPrepped names (record_result (skip_result r w s output) st) o
              → IsPrepped (name ∷ names) st o
          skipped (err e) h = h
          skipped (ok (ps, st')) h =
              Prepped-cons name names st (record_result (skip_result r w s output) st) ps st'
                (Keeps-record r w st (skip_result r w s output))
                (skip_result r w s output ∷ [], refl) h
                (λ t f g. h.keeps name (
                  skip_result r w s output,
                  insert_own (skip_result r w s output) st.results name
                      (find_step-name name w.steps s is),
                ))
      prepare_gated-IsPrepped s proceed is ready met permitted = go (r.prepare s st.results) refl
        where
          go :
              (o : Result P Text)
              → r.prepare s st.results ≡ o
              → IsPrepped (name ∷ names) st (cons_prepared r w o s (next st))
          go (err e) f = unprepared s st e (find_step-In name w.steps s is) sound f
          go (ok p) f =
              let others = rest st (λ n a. a) sound in
              bind_ind (IsPrepped (name ∷ names) st) (next st)
                (λ q g.
                  Prepped-entry s p name names st q.0 q.1 is
                    (executed s p st.results (find_step-In name w.steps s is) sound.known ready
                      permitted met f)
                    (subst (IsPrepped names st) g others))
                (λ e g. subst (IsPrepped names st) g others)

      prepare_step-IsPrepped :
          (s : Step)
          → find_step name w.steps ≡ some s
          → Ready w s st.results
          → IsPrepped (name ∷ names) st (prepare_step r w (some s) name next st)
      prepare_step-IsPrepped s is ready =
          if_ind (IsPrepped (name ∷ names) st) (condition_met r w s.when st.results) _ _
            (λ met.
              prepare_gated-IsPrepped s (gate_of s.min_deps_success w s st.results) is ready met
                (gate_of-Gated w st.results s))
            (λ unmet. left (next st) unmet (rest st (λ n a. a) sound))
        where
          left :
              (o : Result (Prep r w) RunError)
              → condition_met r w s.when st.results ≡ false
              → IsPrepped names st o
              → IsPrepped (name ∷ names) st o
          left (err e) unmet h = h
          left (ok (ps, st')) unmet h =
              Prepped-cons name names st st ps st' (λ n a. a) ([], sym (append-nil st.ordered)) h
                (λ t f g. absurd (unconditional t f g))
            where
              unconditional : (t : Step) → find_step name w.steps ≡ some t → t.when ≡ none → ⊥
              unconditional t f g =
                  let same : t ≡ s = cc in cc (subst (λ (x : Step). x.when ≡ none) same g, unmet)

    pub prepare_level-IsPrepped :
        (names : List Text) (st : RunState)
        → Placed names
        → Served st.results
        → Sound r w st
        → IsPrepped names st (prepare_level r w names st)
    unfolding prepare_level
    prepare_level-IsPrepped [] st placed served sound = record {
      sound = sound;
      keeps = λ n a. a;
      grows = ([], sym (append-nil st.ordered));
      entries = λ q p. elim p [ ];
      covered = λ n s p. elim p [ ];
    }
    prepare_level-IsPrepped (name ∷ names) st placed served sound =
        let (inside, below) = placed name here in
        let (s, is) = find_step-some name w.steps inside in
        subst
          (λ o.
            IsPrepped (name ∷ names) st
              (prepare_step r w o name (λ st1. prepare_level r w names st1) st))
          (sym is)
          (prepare_step-IsPrepped name names st (λ st1. prepare_level r w names st1)
            (λ st1 keeps h.
              prepare_level-IsPrepped names st1 (λ n p. placed n (there p))
                (λ n b. keeps n (served n b)) h)
            sound s is (λ dep d p f g. served dep (below s dep d is p f g)))
