-- ===== src/Aggregator/Concat/Folded.antt =====
-- All outcomes of `aggregate`.
use loker.Aggregator.Concat.Sits.{
  Sits, Sits-left, Sits-right, Sits-trans, join-Sits, In-map, In-failures_of, failures_of-In,
  In-sections_of, counts, render_each-Sits, render_success-Sits,
}
use loker.Prelude.{
  ℕ, suc, ◌+◌, ◌≡◌, refl, sym, ap, subst, ◌∙◌, true, false, List, [], ◌∷◌, ◌++◌, map, if_ind,
  is_nil, length, In, here, inl, inr, ◌⊎◌, Result, ok, err, arith,
}
use loker.Prelude.Text.{Text, str, trim}
use loker.Prelude.Names.{In-left, In-right}
use loker.Aggregator.{
  BranchOutcome, BranchSuccess, BranchFailure, success, failure, AggregatedArtifact,
}
use loker.Aggregator.Concat.{
  Aggregator, first, concat, any_fail, all_pass, llm_judge, vote, AggregatorError, unsupported,
  no_successful_branches, branch_failures, empty_concat_sentinel, first_from, join, outputs_of,
  failure_text, failures_of, aggregate_all_pass, render_heading, render_success, render_error,
  render_each, render_errors, sections_of, parts_of, aggregate,
}

-- Every branch is counted and stands in the text: its heading and output, or its failure.
pub record IsFolded (template : Text) (branches : List BranchOutcome) (a : AggregatedArtifact)
    : Type 0 where
  pub counted : a.successful + a.failed ≡ length branches
  pub headed :
      (s : BranchSuccess)
      → In (success s) branches
      → Sits (render_heading template s.backend_id s.family s.index) a.text
  pub shown : (s : BranchSuccess) → In (success s) branches → Sits (trim s.output) a.text
  pub reported : (f : BranchFailure) → In (failure f) branches → Sits (render_error f) a.text

-- The aggregators that `aggregate` leaves to its callers.
abbrev pub IsElsewhere : Aggregator → Type 0
IsElsewhere any_fail = Unit
IsElsewhere (llm_judge b p r) = Unit
IsElsewhere (vote c) = Unit
IsElsewhere first = ⊥
IsElsewhere (concat t) = ⊥
IsElsewhere all_pass = ⊥

pub data Aggregated (branches : List BranchOutcome)
    : Aggregator → Result AggregatedArtifact AggregatorError → Type 0 where
  first_chosen :
      (fs : List BranchFailure) (s : BranchSuccess) (rest : List BranchOutcome)
      → branches ≡ map failure fs ++ (success s ∷ rest)
      → Aggregated branches first
          (ok (record { text = s.output; successful = 1; failed = length fs }))
  none_chosen :
      (fs : List BranchFailure)
      → branches ≡ map failure fs
      → Aggregated branches first (err no_successful_branches)
  nothing_to_fold :
      (template : Text)
      → branches ≡ []
      → Aggregated branches
          (concat template)
          (ok (record { text = empty_concat_sentinel; successful = 0; failed = 0 }))
  folded :
      (template : Text) (a : AggregatedArtifact)
      → is_nil branches ≡ false
      → IsFolded template branches a
      → Aggregated branches (concat template) (ok a)
  all_passed :
      (ss : List BranchSuccess)
      → branches ≡ map success ss
      → Aggregated branches all_pass (
          ok (record {
            text = join (str "\n\n") (map (λ (s : BranchSuccess). s.output) ss);
            successful = length ss;
            failed = 0;
          }))
  some_failed :
      (f : BranchFailure) (t : Text)
      → In (failure f) branches
      → ((g : BranchFailure) → In (failure g) branches → Sits (failure_text g) t)
      → Aggregated branches all_pass (err (branch_failures t))
  elsewhere :
      (kind : Aggregator) (t : Text)
      → IsElsewhere kind
      → Aggregated branches kind (err (unsupported t))

module _ (template : Text) (branches : List BranchOutcome) where
  -- A section, or the report of the failures, is a part.
  part-In :
      (t : Text)
      → In t (sections_of template branches)
        ⊎ ((t ≡ render_errors (failures_of branches)) × (is_nil (failures_of branches) ≡ false))
      → In t (parts_of template branches)
  part-In t (inl p) =
      if_ind (λ (l : List Text). In t l) (is_nil (failures_of branches)) _ _ (λ e. p)
        (λ e. In-left _ _ p)
  part-In t (inr (same, some_of)) =
      if_ind (λ (l : List Text). In t l) (is_nil (failures_of branches)) _ _ (λ e. cc)
        (λ e.
          In-right (sections_of template branches) _
            (subst (λ x. In x (render_errors (failures_of branches) ∷ [])) (sym same) here))

  -- What sits in a part sits in the text.
  part-Sits :
      (s t : Text)
      → Sits s t
      → In t (parts_of template branches)
      → Sits s (join (str "\n\n") (parts_of template branches) ++ str "\n")
  part-Sits s t h p =
      Sits-left s _ (str "\n")
        (Sits-trans s t _ h (join-Sits (str "\n\n") t (parts_of template branches) p))

  concat-IsFolded : IsFolded template branches (record {
    text = join (str "\n\n") (parts_of template branches) ++ str "\n";
    successful = length (sections_of template branches);
    failed = length (failures_of branches);
  })
  concat-IsFolded = record {
    counted = counts template branches;
    headed = λ s p.
        part-Sits _ (render_success template s) (render_success-Sits template s).0
          (part-In _ (inl (In-sections_of template s branches p)));
    shown = λ s p.
        part-Sits _ (render_success template s) (render_success-Sits template s).1
          (part-In _ (inl (In-sections_of template s branches p)));
    reported = λ f p.
        part-Sits (render_error f) (render_errors (failures_of branches))
          (Sits-right (render_error f) (str "## Errors") (render_each (failures_of branches))
            (render_each-Sits f (failures_of branches) (In-failures_of f branches p)))
          (part-In _ (inr (refl, not_nil f (failures_of branches) (In-failures_of f branches p))));
  }
    where
      not_nil : (f : BranchFailure) (fs : List BranchFailure) → In f fs → is_nil fs ≡ false
      not_nil f [] p = elim p [ ]
      not_nil f (g ∷ fs) p = refl

-- The first success of the rest, or none.
abbrev Split : ℕ → List BranchOutcome → Type 0
Split n todo =
    ((fs : List BranchFailure) × (s : BranchSuccess) × (rest : List BranchOutcome) × (todo
        ≡ map failure fs ++ (success s ∷ rest))
      × (first_from n todo
          ≡ ok (record { text = s.output; successful = 1; failed = n + length fs })))
    ⊎ ((fs : List BranchFailure) × (todo ≡ map failure fs)
        × (first_from n todo ≡ err no_successful_branches))

first_from-Split : (n : ℕ) (todo : List BranchOutcome) → Split n todo
unfolding first_from
first_from-Split n [] = inr ([], refl, refl)
first_from-Split n (success s ∷ todo) = inl (
  [],
  s,
  todo,
  refl,
  ap (λ k. ok (record { text = s.output; successful = 1; failed = k })) (omega arith),
)
first_from-Split n (failure f ∷ todo) = elim (first_from-Split (suc n) todo) [
  | inl (fs, s, rest, e, is) ↦ inl (
    f ∷ fs,
    s,
    rest,
    ap (λ l. failure f ∷ l) e,
    is ∙ ap (λ k. ok (record { text = s.output; successful = 1; failed = k })) (omega arith),
  )
  | inr (fs, e, is) ↦ inr (f ∷ fs, ap (λ l. failure f ∷ l) e, is)
]

only_successes :
    (branches : List BranchOutcome)
    → is_nil (failures_of branches) ≡ true
    → (ss : List BranchSuccess) × (branches ≡ map success ss)
      × (outputs_of branches ≡ map (λ (s : BranchSuccess). s.output) ss)
unfolding failures_of outputs_of
only_successes [] h = ([], refl, refl)
only_successes (failure f ∷ branches) h = cc
only_successes (success s ∷ branches) h =
    let (ss, e, o) = only_successes branches h in
    (s ∷ ss, ap (λ l. success s ∷ l) e, ap (λ l. s.output ∷ l) o)

all_pass-Aggregated :
    (branches : List BranchOutcome) → Aggregated branches all_pass (aggregate_all_pass branches)
all_pass-Aggregated branches =
    if_ind (Aggregated branches all_pass) (is_nil (failures_of branches)) _ _
      (λ h.
        let (ss, e, o) = only_successes branches h in
        subst
          (λ l.
            Aggregated branches all_pass
              (ok (record { text = join (str "\n\n") l; successful = length l; failed = 0 })))
          (sym o)
          (subst
            (λ k. Aggregated branches all_pass (
              ok (record {
                text = join (str "\n\n") (map (λ (s : BranchSuccess). s.output) ss);
                successful = k;
                failed = 0;
              })))
            (sym (length-outputs ss)) (all_passed ss e)))
      (λ h.
        let (f, p) = some_failure (failures_of branches) h in
        some_failed f _ (failures_of-In f branches p) (λ g q.
          join-Sits (str "; ") (failure_text g) _
            (In-map failure_text g (failures_of branches) (In-failures_of g branches q))))
  where
    length-outputs :
        (ss : List BranchSuccess) → length (map (λ (s : BranchSuccess). s.output) ss) ≡ length ss
    length-outputs [] = refl
    length-outputs (s ∷ ss) = omega (arith, length-outputs ss)

    some_failure : (fs : List BranchFailure) → is_nil fs ≡ false → (f : BranchFailure) × In f fs
    some_failure [] h = cc
    some_failure (f ∷ fs) h = (f, here)

-- `aggregate` by the first success returns the output of the first success with the number of
-- failures before it, and an error where all branches are failures. By concatenation it returns the
-- sentinel for no branches, and otherwise a text in which the heading and the trimmed output of
-- every success and the report of every failure stand, with counts that add up to the number of
-- branches. Where all have to pass it returns the outputs when no branch is a failure, and
-- otherwise an error whose text has every failure. These three never return the error of an
-- aggregator that is not supported, and the three others always do.
pub aggregate-Aggregated :
    (kind : Aggregator) (branches : List BranchOutcome)
    → Aggregated branches kind (aggregate kind branches)
unfolding aggregate
aggregate-Aggregated first branches = elim (first_from-Split 0 branches) [
  | inl (fs, s, rest, e, is) ↦ subst (Aggregated branches first) (sym is) (
      subst
        (λ k.
          Aggregated branches first (ok (record { text = s.output; successful = 1; failed = k })))
        (omega arith) (first_chosen fs s rest e))
  | inr (fs, e, is) ↦ subst (Aggregated branches first) (sym is) (none_chosen fs e)
]
aggregate-Aggregated (concat template) branches =
    if_ind (Aggregated branches (concat template)) (is_nil branches) _ _
      (λ h. nothing_to_fold template (empty branches h))
      (λ h. folded template _ h (concat-IsFolded template branches))
  where
    empty : (l : List BranchOutcome) → is_nil l ≡ true → l ≡ []
    empty [] h = refl
    empty (x ∷ l) h = cc
aggregate-Aggregated all_pass branches = all_pass-Aggregated branches
aggregate-Aggregated any_fail branches = elsewhere any_fail _ tt
aggregate-Aggregated (llm_judge b p r) branches = elsewhere (llm_judge b p r) _ tt
aggregate-Aggregated (vote c) branches = elsewhere (vote c) _ tt
