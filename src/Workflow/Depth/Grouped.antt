-- ===== src/Workflow/Depth/Grouped.antt =====
-- All outcomes of `group_by_depth`.
use loker.Workflow.Depth.Checks.{
  duplicates-none, duplicates-some, first_missing-none, first_missing-some,
}
use loker.Prelude.Assoc.{get}
use loker.Prelude.{
  ℕ, suc, ◌≡◌, refl, sym, subst, true, Option, none, some, List, [], ◌∷◌, if_ind, is_nil, ◌&&◌,
  Result, ok, err, bind_ind, length, In, here, there, inl, inr, ◌⊎◌, arith,
}
use loker.Prelude.Text.{Text}
use loker.Prelude.Names.{In-cons, NoDup}
use loker.Workflow.{
  Step, WorkflowError, missing_dependency, circular_dependency, duplicate_step_names,
  min_deps_success_without_deps, step_names,
}
use loker.Workflow.Depth.{
  Depths, duplicates, first_missing, cons_missing, check_deps, wants_deps, check_min_deps,
  calc_depth, calc_all, levels_of, group_unique, group_by_depth,
}
use loker.Workflow.Depth.Facts.{find_step-name, find_step-In, In-names}
use loker.Workflow.Depth.Path.{IsCycle, IsSound, Extends, After, Found, Cyclic, IsComplete}
use loker.Workflow.Depth.Search.{calc_depth-Found}
use loker.Workflow.Depth.Levels.{At, IsLevelled, At-depth, depth-At}

pub data Grouped (steps : List Step) : Result (List (List Text)) WorkflowError → Type 0 where
  twice :
      (ns : List Text) → ¬ NoDup (step_names steps) → Grouped steps (err (duplicate_step_names ns))
  missing :
      (s : Step) (dep : Text)
      → In s steps
      → In dep s.depends_on
      → ¬ In dep (step_names steps)
      → Grouped steps (err (missing_dependency s.name dep))
  without_deps :
      (s : Step)
      → In s steps
      → wants_deps s.min_deps_success ≡ true
      → is_nil s.depends_on ≡ true
      → Grouped steps (err (min_deps_success_without_deps s.name))
  circular :
      (chain : List Text) → IsCycle steps chain → Grouped steps (err (circular_dependency chain))
  grouped :
      (levels : List (List Text))
      → NoDup (step_names steps)
      → IsLevelled steps levels
      → Grouped steps (ok levels)

module _ (steps : List Step) where
  abbrev Checked : List Step → Result (Unit {0}) WorkflowError → Type 0
  Checked todo (ok u) =
      (s : Step) → In s todo → (dep : Text) → In dep s.depends_on → In dep (step_names steps)
  Checked todo (err e) = Grouped steps (err e)

  check_deps-Checked :
      (todo : List Step)
      → ((s : Step) → In s todo → In s steps)
      → Checked todo (check_deps (step_names steps) todo)
  unfolding check_deps
  check_deps-Checked [] sub = λ s p. elim p [ ]
  check_deps-Checked (s ∷ todo) sub =
      go (first_missing (step_names steps) s.depends_on) refl (check_deps (step_names steps) todo)
        (check_deps-Checked todo (λ t p. sub t (there p)))
    where
      go :
          (o : Option Text)
          → first_missing (step_names steps) s.depends_on ≡ o
          → (r : Result (Unit {0}) WorkflowError) → Checked todo r
          → Checked (s ∷ todo) (cons_missing o s r)
      go (some dep) e r h =
          let (p, n) = first_missing-some (step_names steps) s.depends_on dep e in
          missing s dep (sub s here) p n
      go none e (err x) h = h
      go none e (ok u) h = λ t p dep q. both t dep (in_two t p) q
        where
          in_two : (t : Step) → In t (s ∷ todo) → (t ≡ s) ⊎ In t todo
          in_two t p = In-cons t s todo p

          both :
              (t : Step) (dep : Text)
              → (t ≡ s) ⊎ In t todo
              → In dep t.depends_on
              → In dep (step_names steps)
          both t dep (inl same) q =
              first_missing-none (step_names steps) s.depends_on e dep
                (subst (λ (x : Step). In dep x.depends_on) same q)
          both t dep (inr p) q = h t p dep q

  abbrev Enough : Result (Unit {0}) WorkflowError → Type 0
  Enough (ok u) = Unit
  Enough (err e) = Grouped steps (err e)

  check_min_deps-Enough :
      (todo : List Step) → ((s : Step) → In s todo → In s steps) → Enough (check_min_deps todo)
  unfolding check_min_deps
  check_min_deps-Enough [] sub = tt
  check_min_deps-Enough (s ∷ todo) sub =
      let rest = check_min_deps-Enough todo (λ t p. sub t (there p)) in
      if_ind Enough (wants_deps s.min_deps_success && is_nil s.depends_on) _ _
        (λ h. without_deps s (sub s here) (ground arith) (ground arith)) (λ h. rest)

  abbrev Placed : Depths → List Step → Result Depths WorkflowError → Type 0
  Placed ds todo (err e) = Cyclic steps e
  Placed ds todo (ok ds') =
      IsSound steps ds'
      × Extends steps ds ds'
      × ((s : Step) → In s todo → (d : ℕ) × (get s.name ds' ≡ some d))

  calc_all-Placed :
      (complete : IsComplete steps) (todo : List Step) (ds : Depths)
      → ((s : Step) → In s todo → In s steps)
      → IsSound steps ds
      → Placed ds todo (calc_all steps todo ds)
  unfolding calc_all
  calc_all-Placed complete [] ds sub sound =
      (sound, record { kept = λ n d e. e }, λ s p. elim p [ ])
  calc_all-Placed complete (s ∷ todo) ds sub sound =
      let first =
        calc_depth-Found steps complete (suc (length steps)) [] s.name ds (omega arith)
          (record { different = tt; in_turn = tt; steps_only = λ v p. elim p [ ] })
          (In-names s steps (sub s here)) sound (record { none_of = λ v p. elim p [ ] }) in
      bind_ind (Placed ds (s ∷ todo)) (calc_depth (suc (length steps)) steps [] s.name ds)
        (λ r e.
          let (after, known) = subst (Found steps [] s.name ds) e first in
          joined r.0 r.1 after known (calc_all steps todo r.1)
            (calc_all-Placed complete todo r.1 (λ t p. sub t (there p)) after.is_sound))
        (λ x e. subst (Found steps [] s.name ds) e first)
    where
      joined :
          (d : ℕ) (ds' : Depths)
          → After steps [] ds ds'
          → get s.name ds' ≡ some d
          → (r : Result Depths WorkflowError) → Placed ds' todo r
          → Placed ds (s ∷ todo) r
      joined d ds' after known (err x) h = h
      joined d ds' after known (ok ds'') (sound', grows, others) = (
        sound',
        record { kept = λ n k e. grows.kept n k (after.extends.kept n k e) },
        λ t p. elim (In-cons t s todo p) [
          | inl same ↦ (
            d,
            subst (λ (x : Step). get x.name ds'' ≡ some d) (sym same) (grows.kept s.name d known),
          )
          | inr q ↦ others t q
        ],
      )

  In-find : (n : Text) → In n (step_names steps) → (s : Step) × In s steps × (s.name ≡ n)
  In-find n p = go steps p
    where
      go : (todo : List Step) → In n (step_names todo) → (s : Step) × In s todo × (s.name ≡ n)
      go [] q = elim q [ ]
      go (t ∷ todo) q = elim (In-cons n t.name (step_names todo) q) [
        | inl same ↦ (t, here, sym same)
        | inr r ↦ let (s, i, e) = go todo r in (s, there i, e)
      ]

  levels_of-IsLevelled :
      (ds : Depths)
      → IsSound steps ds
      → ((s : Step) → In s steps → (d : ℕ) × (get s.name ds ≡ some d))
      → IsLevelled steps (levels_of ds)
  levels_of-IsLevelled ds sound all = record {
    placed = λ n p.
        let (s, i, same) = In-find n p in
        let (d, e) = all s i in
        (d, subst (λ x. At d x (levels_of ds)) same (At-depth s.name d ds e));
    once = λ n d k a b. cc (depth-At n d ds sound.keys a, depth-At n k ds sound.keys b);
    only = λ n d a.
        let (s, f, i) = sound.sound n d (depth-At n d ds sound.keys a) in
        subst (λ x. In x (step_names steps)) (find_step-name n steps s f)
          (In-names s steps (find_step-In n steps s f));
    above = λ n dep s d f p a.
        let (t, g, i) = sound.sound n d (depth-At n d ds sound.keys a) in
        let same : s ≡ t = cc in
        let (k, e, lt) = i.above dep (subst (λ (x : Step). In dep x.depends_on) same p) in
        (k, At-depth dep k ds e, lt);
    tight = λ n s d f a.
        let (t, g, i) = sound.sound n (suc d) (depth-At n (suc d) ds sound.keys a) in
        let same : t ≡ s = cc in
        let (dep, p, e) = i.reached d refl in
        (dep, subst (λ (x : Step). In dep x.depends_on) same p, At-depth dep d ds e);
  }

  group_unique-Grouped : NoDup (step_names steps) → Grouped steps (group_unique steps)
  unfolding group_unique get
  group_unique-Grouped unique =
      let deps = check_deps-Checked steps (λ s p. p) in
      bind_ind (Grouped steps) (check_deps (step_names steps) steps)
        (λ u e.
          let complete : IsComplete steps = record {
            complete =
                λ n s dep f p. subst (Checked steps) e deps s (find_step-In n steps s f) dep p;
          } in
          bind_ind (Grouped steps) (check_min_deps steps)
            (λ v g.
              let all =
                calc_all-Placed complete steps [] (λ s p. p)
                  (record { keys = tt; sound = λ n d h. cc }) in
              bind_ind (Grouped steps) (calc_all steps steps [])
                (λ ds h.
                  let (sound, grows, placed) = subst (Placed [] steps) h all in
                  grouped (levels_of ds) unique (levels_of-IsLevelled ds sound placed))
                (λ x h. cyclic x (subst (Placed [] steps) h all)))
            (λ x g. subst Enough g (check_min_deps-Enough steps (λ s p. p))))
        (λ x e. subst (Checked steps) e deps)
    where
      cyclic : (x : WorkflowError) → Cyclic steps x → Grouped steps (err x)
      cyclic (circular_dependency chain) h = circular chain h
      cyclic _ h = absurd h

  -- `group_by_depth` always ends in one of five ways: names that are twice among the steps; a
  -- dependency that no step is named; a minimum of a step without dependencies; a chain of names of
  -- which each depends on the next one and the last is the first; or levels such that every step
  -- stands in exactly one, nothing else stands in one, every dependency stands in a lower level,
  -- and a step above the lowest level has a dependency in the level just below its own.
  pub group_by_depth-Grouped : Grouped steps (group_by_depth steps)
  unfolding group_by_depth
  group_by_depth-Grouped =
      if_ind (Grouped steps) (is_nil (duplicates (step_names steps))) _ _
        (λ h. group_unique-Grouped (duplicates-none (step_names steps) h))
        (λ h. twice (duplicates (step_names steps)) (duplicates-some (step_names steps) h))
