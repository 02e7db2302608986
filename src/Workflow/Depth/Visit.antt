-- ===== src/Workflow/Depth/Visit.antt =====
-- The names that the search visits: one more of them, and the cycle that they make.
use loker.Prelude.Assoc.{get}
use loker.Prelude.{
  ◌≡◌, refl, sym, ap, subst, true, false, none, List, [], ◌∷◌, ◌++◌, length, In, Bool-cases, inl,
  inr, arith,
}
use loker.Prelude.Text.{Text, text_eq}
use loker.Prelude.TextOrd.{text_eq-eq}
use loker.Prelude.Names.{mem, In-mem, In-append, In-one, NoDup-snoc}
use loker.Workflow.{Step, step_names}
use loker.Workflow.Depth.{Depths, drop_until}
use loker.Workflow.Depth.Path.{Depends, DependsInTurn, IsCycle, Absent, Visits}

module _ (steps : List Step) where
  DependsInTurn-snoc :
      (vs : List Text) (n m : Text)
      → DependsInTurn steps vs n
      → Depends steps n m
      → DependsInTurn steps (vs ++ (n ∷ [])) m
  DependsInTurn-snoc [] n m h d = (d, tt)
  DependsInTurn-snoc (v ∷ []) n m h d = (h.0, (d, tt))
  DependsInTurn-snoc (v ∷ w ∷ vs) n m h d = (h.0, DependsInTurn-snoc (w ∷ vs) n m h.1 d)

  -- What is visited from the first place of a name on, and back to it.
  pub drop_until-IsCycle :
      (name : Text) (visiting : List Text)
      → mem name visiting ≡ true
      → DependsInTurn steps visiting name
      → IsCycle steps (drop_until name visiting ++ (name ∷ []))
  unfolding drop_until
  drop_until-IsCycle name [] h path = cc
  drop_until-IsCycle name (v ∷ vs) h path = elim (Bool-cases (text_eq v name)) [
    | inl e ↦ rw e (
      name,
      vs,
      ap (λ x. x ∷ (vs ++ (name ∷ []))) (text_eq-eq v name e),
      subst (λ x. DependsInTurn steps (x ∷ vs) name) (text_eq-eq v name e) path,
    )
    | inr e ↦ rw e (drop_until-IsCycle name vs (ground arith) path.1)
  ]

  pub length_names : (ss : List Step) → length (step_names ss) ≡ length ss
  length_names [] = refl
  length_names (s ∷ ss) = omega (arith, length_names ss)

  pub Visits-snoc :
      (visiting : List Text) (name dep : Text)
      → Visits steps visiting name
      → mem name visiting ≡ false
      → In name (step_names steps)
      → Depends steps name dep
      → Visits steps (visiting ++ (name ∷ [])) dep
  Visits-snoc visiting name dep v fresh in_steps d = record {
    different = NoDup-snoc visiting name v.different (λ p. cc (In-mem name visiting p));
    in_turn = DependsInTurn-snoc visiting name dep v.in_turn d;
    steps_only = λ x p. elim (In-append visiting (name ∷ []) p) [
      | inl q ↦ v.steps_only x q
      | inr q ↦ subst (λ y. In y (step_names steps)) (sym (In-one x name q)) in_steps
    ];
  }

  pub Absent-snoc :
      (visiting : List Text) (name : Text) (ds : Depths)
      → Absent steps visiting ds
      → get name ds ≡ none
      → Absent steps (visiting ++ (name ∷ [])) ds
  Absent-snoc visiting name ds a unknown = record {
    none_of = λ v p. elim (In-append visiting (name ∷ []) p) [
      | inl q ↦ a.none_of v q
      | inr q ↦ subst (λ x. get x ds ≡ none) (sym (In-one v name q)) unknown
    ];
  }
