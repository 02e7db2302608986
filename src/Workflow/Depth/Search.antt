-- ===== src/Workflow/Depth/Search.antt =====
-- What the search for a depth returns: a depth above those of the dependencies, or a cycle.
use loker.Prelude.Assoc.{get}
use loker.Prelude.{
  ℕ, zero, suc, ◌+◌, ◌<◌, ◌≡◌, refl, sym, subst, false, Option, none, some, List, [], ◌∷◌, ◌++◌,
  if_ind, Result, bind_ind, length, length-append, In, here, there, arith,
}
use loker.Prelude.Text.{Text}
use loker.Prelude.Names.{mem, pigeonhole}
use loker.Workflow.{Step, WorkflowError, find_step, step_names}
use loker.Workflow.Depth.{Depths, Calc, calc_deps, depth_over, calc_step, calc_unknown, calc_depth}
use loker.Workflow.Depth.Facts.{find_step-some}
use loker.Workflow.Depth.Path.{
  IsSound, Extends, Absent, After, Found, Aligned, FoundAll, IsComplete, Visits,
}
use loker.Workflow.Depth.Insert.{depth_over-IsDepth, After-insert}
use loker.Workflow.Depth.Visit.{drop_until-IsCycle, length_names, Visits-snoc, Absent-snoc}

module _ (steps : List Step) where
  Aligned-Extends :
      (deps : List Text) (found : List ℕ) (ds ds' : Depths)
      → Extends steps ds ds'
      → Aligned steps deps found ds
      → Aligned steps deps found ds'
  Aligned-Extends [] [] ds ds' h a = tt
  Aligned-Extends (dep ∷ deps) (d ∷ found) ds ds' h a =
      (h.kept dep d a.0, Aligned-Extends deps found ds ds' h a.1)
  Aligned-Extends [] (d ∷ found) ds ds' h a = a
  Aligned-Extends (dep ∷ deps) [] ds ds' h a = a

  After-trans :
      (visiting : List Text) (a b c : Depths)
      → Extends steps a b
      → After steps visiting b c
      → After steps visiting a c
  After-trans visiting a b c h k = record {
    is_sound = k.is_sound;
    extends = record { kept = λ n d e. k.extends.kept n d (h.kept n d e) };
    absent = k.absent;
  }

  calc_deps-FoundAll :
      (calc : Calc) (visiting : List Text) (Allowed : Text → Type 0)
      → ((dep : Text) (ds : Depths)
          → Allowed dep
          → IsSound steps ds
          → Absent steps visiting ds
          → Found steps visiting dep ds (calc dep ds))
      → (deps : List Text) (ds : Depths) → ((dep : Text) → In dep deps → Allowed dep)
      → IsSound steps ds
      → Absent steps visiting ds
      → FoundAll steps visiting deps ds (calc_deps calc deps ds)
  unfolding calc_deps
  calc_deps-FoundAll calc visiting Allowed spec [] ds ok_deps s a =
      (record { is_sound = s; extends = record { kept = λ n d e. e }; absent = a }, tt)
  calc_deps-FoundAll calc visiting Allowed spec (dep ∷ deps) ds ok_deps s a =
      let first = spec dep ds (ok_deps dep here) s a in
      bind_ind (FoundAll steps visiting (dep ∷ deps) ds) (calc dep ds)
        (λ r e.
          let (after, known) = subst (Found steps visiting dep ds) e first in
          let others =
            calc_deps-FoundAll calc visiting Allowed spec deps r.1 (λ x p. ok_deps x (there p))
              after.is_sound after.absent in
          bind_ind (FoundAll steps visiting (dep ∷ deps) ds) (calc_deps calc deps r.1)
            (λ q g.
              let (after', aligned) = subst (FoundAll steps visiting deps r.1) g others in
              (
                After-trans visiting ds r.1 q.1 after.extends after',
                (after'.extends.kept dep r.0 known, aligned),
              ))
            (λ x g. subst (FoundAll steps visiting deps r.1) g others))
        (λ x e. subst (Found steps visiting dep ds) e first)

  calc_step-Found :
      (visiting : List Text) (name : Text) (ds : Depths) (calc : Calc) (s : Step)
      → find_step name steps ≡ some s
      → mem name visiting ≡ false
      → FoundAll steps (visiting ++ (name ∷ [])) s.depends_on ds (calc_deps calc s.depends_on ds)
      → Found steps visiting name ds
          (calc_step (find_step name steps) name (λ deps ds'. calc_deps calc deps ds') ds)
  calc_step-Found visiting name ds calc s is fresh all_found =
      subst
        (λ o.
          Found steps visiting name ds (calc_step o name (λ deps ds'. calc_deps calc deps ds') ds))
        (sym is)
        (bind_ind (Found steps visiting name ds) (calc_deps calc s.depends_on ds)
          (λ r e.
            let (after, aligned) =
              subst (FoundAll steps (visiting ++ (name ∷ [])) s.depends_on ds) e all_found in
            After-insert steps visiting name s (depth_over s.depends_on r.0) ds r.1 is
              (depth_over-IsDepth steps s r.0 r.1 aligned) fresh after)
          (λ x e. subst (FoundAll steps (visiting ++ (name ∷ [])) s.depends_on ds) e all_found))

  pub calc_depth-Found :
      (complete : IsComplete steps) (fuel : ℕ) (visiting : List Text) (name : Text) (ds : Depths)
      → length steps < fuel + length visiting
      → Visits steps visiting name
      → In name (step_names steps)
      → IsSound steps ds
      → Absent steps visiting ds
      → Found steps visiting name ds (calc_depth fuel steps visiting name ds)
  unfolding calc_depth
  calc_depth-Found complete zero visiting name ds enough v p s a = absurd (
      omega (
        arith,
        pigeonhole visiting (step_names steps) v.different v.steps_only,
        length_names steps steps,
      ))
  calc_depth-Found complete (suc fuel) visiting name ds enough v p s a =
      known (get name ds) _ refl (λ unknown.
        if_ind (Found steps visiting name ds) (mem name visiting) _ _
          (λ h. drop_until-IsCycle steps name visiting h v.in_turn)
          (λ fresh.
            let (t, is) = find_step-some name steps p in
            let absent = Absent-snoc steps visiting name ds a unknown in
            calc_step-Found visiting name ds (calc_depth fuel steps (visiting ++ (name ∷ []))) t is
              fresh
              (calc_deps-FoundAll (calc_depth fuel steps (visiting ++ (name ∷ [])))
                (visiting ++ (name ∷ [])) (λ dep. In dep t.depends_on)
                (λ dep ds' q s' a'.
                  calc_depth-Found complete fuel (visiting ++ (name ∷ [])) dep ds'
                    (omega (arith, length-append visiting (name ∷ [])))
                    (Visits-snoc steps visiting name dep v fresh p (t, is, q))
                    (complete.complete name t dep is q) s' a')
                t.depends_on ds (λ dep q. q) s absent)))
    where
      known :
          (o : Option ℕ) (r : Result (ℕ × Depths) WorkflowError)
          → get name ds ≡ o
          → (get name ds ≡ none → Found steps visiting name ds r)
          → Found steps visiting name ds (calc_unknown o ds r)
      known (some d) r e h =
          (record { is_sound = s; extends = record { kept = λ n k g. g }; absent = a }, e)
      known none r e h = h e
