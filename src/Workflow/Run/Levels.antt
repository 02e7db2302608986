-- ===== src/Workflow/Run/Levels.antt =====
-- All outcomes of `run`.
use loker.Prelude.Assoc.{get}
use loker.Prelude.{
  ℕ, zero, suc, ◌+◌, ◌<◌, ◌≡◌, refl, sym, subst, none, some, List, [], ◌∷◌, Result, ok, err,
  bind_ind, In, here, there, inl, inr, ◌⊎◌, length, get_elem?, arith,
}
use loker.Prelude.Text.{Text}
use loker.Prelude.Names.{In-cons}
use loker.Workflow.{Step, Workflow, WorkflowError, find_step, step_names}
use loker.Workflow.Depth.{group_by_depth}
use loker.Workflow.Depth.Levels.{At, IsLevelled}
use loker.Workflow.Depth.Grouped.{Grouped, grouped, group_by_depth-Grouped}
use loker.Workflow.Depth.Facts.{find_step-name, find_step-In, In-names}
use loker.Workflow.Run.{
  StepResult, RunError, not_grouped, Runner, RunState, record_result, prepare_level, record_all,
  run_levels, run_grouped, run,
}
use loker.Workflow.Run.Settled.{Settled, Settled-more, insert_own}
use loker.Workflow.Run.Kept.{Sound, RunFailed, Answered, Keeps, Sound-record, Keeps-record}
use loker.Workflow.Run.Prepared.{Placed, Served, Prepped, IsPrepped, prepare_level-IsPrepped}

module _ {P : Type 0} (r : Runner P) (w : Workflow) where
  -- What `run` returns: the error of the grouping, an error of a step, or results that are settled,
  -- with one for each step that has no condition.
  pub data Ran : Result (List StepResult) RunError → Type 0 where
    ungrouped : (e : WorkflowError) → Grouped w.steps (err e) → Ran (err (not_grouped e))
    failed : (e : RunError) → RunFailed r w e → Ran (err e)
    finished :
        (ordered : List StepResult)
        → ((x : StepResult) → In x ordered → Settled r w ordered x)
        → ((n : Text) (s : Step)
            → find_step n w.steps ≡ some s
            → s.when ≡ none
            → (x : StepResult) × In x ordered × (x.name ≡ n))
        → Ran (ok ordered)

  record All (qs : List (Step × P)) (st st' : RunState) : Type 0 where
    sound : Sound r w st'
    keeps : Keeps r w st.results st'.results
    answered : (q : Step × P) → In q qs → Answered r w st'.results q.0.name

  record_all-All :
      (qs : List (Step × P)) (st : RunState)
      → Sound r w st
      → ((q : Step × P) → In q qs → Settled r w st.ordered (r.execute q.0 q.1))
      → All qs st (record_all r w qs st)
  unfolding record_all
  record_all-All [] st sound entries = record {
    sound = sound;
    keeps = λ n a. a;
    answered = λ q p. elim p [ ];
  }
  record_all-All (q ∷ qs) st sound entries =
      let x = r.execute q.0 q.1 in
      let rest =
        record_all-All qs (record_result x st) (Sound-record r w st x sound (entries q here))
          (λ e p. Settled-more r w st.ordered (x ∷ []) (r.execute e.0 e.1) (entries e (there p))) in
      record {
        sound = rest.sound;
        keeps = λ n a. rest.keeps n (Keeps-record r w st x n a);
        answered = λ e p. elim (In-cons e q qs p) [
          | inl same ↦
              subst
                (λ (y : Step × P).
                  Answered r w (record_all r w qs (record_result x st)).results y.0.name)
                (sym same)
                (rest.keeps q.0.name (x, insert_own x st.results q.0.name (r.execute_name q.0 q.1)))
          | inr i ↦ rest.answered e i
        ];
      }

  -- The names without a condition in the levels below `d`.
  abbrev Below : List (List Text) → ℕ → Text → Type 0
  Below levels d n =
      (k : ℕ) × (k < d)
      × At k n levels
      × (s : Step) × (find_step n w.steps ≡ some s)
      × (s.when ≡ none)

  abbrev LevelsRan : List (List Text) → ℕ → Result RunState RunError → Type 0
  LevelsRan levels d (err e) = RunFailed r w e
  LevelsRan levels d (ok st) = Sound r w st × Served r w (Below levels d) st.results

  -- What is below the next level has its result when this level has run.
  Served-next :
      (levels : List (List Text)) (d : ℕ) (level : List Text) (st st1 st2 : RunState)
      (ps : List (Step × P))
      → get_elem? levels d ≡ some level
      → Served r w (Below levels d) st.results
      → Prepped r w (Below levels d) level st ps st1
      → All ps st1 st2
      → Served r w (Below levels (suc d)) st2.results
  Served-next levels d level st st1 st2 ps is served h all n (k, lt, (l, e, i), s, f, g) =
      elim (lower k lt) [
        | inl less ↦ all.keeps n (h.keeps n (served n (k, less, (l, e, i), s, f, g)))
        | inr same ↦ elim (h.covered n s (subst (λ x. In n x) (level_is k l same e) i) f g) [
          | inl a ↦ all.keeps n a
          | inr (p, j) ↦
              subst (Answered r w st2.results) (find_step-name n w.steps s f)
                (all.answered (s, p) j)
        ]
      ]
    where
      lower : (k : ℕ) → k < suc d → (k < d) ⊎ (k ≡ d)
      lower k lt = omega arith

      level_is : (k : ℕ) (l : List Text) → k ≡ d → get_elem? levels k ≡ some l → l ≡ level
      level_is k l same e = cc

  -- A level of a sound grouping needs only what is below it.
  Placed-level :
      (levels : List (List Text)) (d : ℕ) (level : List Text)
      → IsLevelled w.steps levels
      → get_elem? levels d ≡ some level
      → Placed r w (Below levels d) level
  Placed-level levels d level h is n p = (
    h.only n d (level, is, p),
    λ s dep t f i g u. let (k, a, lt) = h.above n dep s d f i (level, is, p) in (k, lt, a, t, g, u),
  )

  run_levels-LevelsRan :
      (levels todo : List (List Text)) (d : ℕ) (st : RunState)
      → IsLevelled w.steps levels
      → ((i : ℕ) (level : List Text)
          → get_elem? todo i ≡ some level
          → get_elem? levels (d + i) ≡ some level)
      → Sound r w st
      → Served r w (Below levels d) st.results
      → LevelsRan levels (d + length todo) (run_levels r w todo st)
  unfolding run_levels
  run_levels-LevelsRan levels [] d st h at sound served =
      (sound, subst (λ k. Served r w (Below levels k) st.results) (omega arith) served)
  run_levels-LevelsRan levels (level ∷ todo) d st h at sound served =
      let is : get_elem? levels d ≡ some level =
        subst (λ k. get_elem? levels k ≡ some level) (plus_zero d) (at 0 level refl) in
      let prepped =
        prepare_level-IsPrepped r w (Below levels d) level st (Placed-level levels d level h is)
          served sound in
      bind_ind (LevelsRan levels (d + length (level ∷ todo))) (prepare_level r w level st)
        (λ q e.
          let here_done = subst (IsPrepped r w (Below levels d) level st) e prepped in
          let all = record_all-All q.0 q.1 here_done.sound here_done.entries in
          subst (λ k. LevelsRan levels k (run_levels r w todo (record_all r w q.0 q.1)))
            (plus_suc d (length todo))
            (run_levels-LevelsRan levels todo (suc d) (record_all r w q.0 q.1) h
              (λ i l g. subst (λ k. get_elem? levels k ≡ some l) (plus_suc' d i) (at (suc i) l g))
              all.sound
              (Served-next levels d level st q.1 (record_all r w q.0 q.1) q.0 is served here_done
                all)))
        (λ x e. subst (IsPrepped r w (Below levels d) level st) e prepped)
    where
      plus_zero : (k : ℕ) → k + 0 ≡ k
      plus_zero k = omega arith

      plus_suc : (a b : ℕ) → suc a + b ≡ a + suc b
      plus_suc a b = omega arith

      plus_suc' : (a b : ℕ) → a + suc b ≡ suc a + b
      plus_suc' a b = omega arith

  get_elem-lt :
      (levels : List (List Text)) (k : ℕ) (l : List Text)
      → get_elem? levels k ≡ some l
      → k < length levels
  get_elem-lt [] k l h = cc
  get_elem-lt (x ∷ levels) zero l h = omega arith
  get_elem-lt (x ∷ levels) (suc k) l h = omega (arith, get_elem-lt levels k l h)

  -- `run` returns the error of the grouping; or the error of a step that could not be prepared, or
  -- whose dependencies do not permit it while it may not be left out; or its results. Each of them
  -- then is of a step that was executed on results that permit it (without a minimum, each
  -- dependency that failed had leave to; with one, that many dependencies have succeeded) and on
  -- which its condition holds, or of a step that was left out, with leave, since they do not. Every
  -- dependency without a condition had its result by then, the results that a step is judged on are
  -- among those of the run, and every step without a condition has a result.
  pub run-Ran : Ran (run r w)
  unfolding run get
  run-Ran = go (group_by_depth w.steps) (group_by_depth-Grouped w.steps)
    where
      nothing : (x : StepResult) → none ≡ some x → ⊥
      nothing x e = cc

      go :
          (g : Result (List (List Text)) WorkflowError)
          → Grouped w.steps g
          → Ran (run_grouped r w g)
      go (err e) h = ungrouped e h
      go (ok levels) (grouped l unique h) =
          let start : RunState = record { results = []; ordered = [] } in
          let ran =
            run_levels-LevelsRan levels levels 0 start h
              (λ i level e. subst (λ k. get_elem? levels k ≡ some level) (omega arith) e)
              (record { known = λ n x e. absurd (nothing x e); settled = λ x p. elim p [ ] })
              (λ n b. absurd (omega (arith, b.1))) in
          bind_ind Ran (run_levels r w levels start)
            (λ st e.
              let (sound, served) = subst (LevelsRan levels (0 + length levels)) e ran in
              finished st.ordered sound.settled (λ n s f g.
                let (k, (lvl, i, p)) = h.placed n (
                  subst (λ m. In m (step_names w.steps)) (find_step-name n w.steps s f)
                    (In-names s w.steps (find_step-In n w.steps s f))) in
                let (x, known) =
                  served n (k, omega (arith, get_elem-lt levels k lvl i), (lvl, i, p), s, f, g) in
                let (q, same) = sound.known n x known in (x, q, same)))
            (λ x e. failed x (subst (LevelsRan levels (0 + length levels)) e ran))
