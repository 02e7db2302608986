-- ===== src/Aggregator/Judge/Choice.antt =====
-- What the judge's choice comes to.
use loker.Prelude.{
  ◌≡◌, refl, sym, subst, Bool, true, Option, none, some, List, [], ◌∷◌, ◌++◌, map, length,
  get_elem?, In, Result, ok, err, ◌>>=◌, bind_ind, match_result_ind,
}
use loker.Prelude.Text.{Text}
use loker.Family.{family_of, as_str}
use loker.Strategy.{QueryOutput}
use loker.Strategy.Escalating.{Backend}
use loker.Aggregator.{BranchSuccess, AggregatedArtifact}
use loker.Aggregator.Verdict.{Json}
use loker.Aggregator.Judge.{
  Ballot, LlmJudgeError, family_overlap, backend_not_found, judge_call, overlapping,
  check_candidates, clamp_chosen_index, parse_ballot, Render, render_ballot_prompt, overlap_warning,
  chosen_text, at_index, find_backend, chosen, ask, with_prompt, with_families, out_of_range,
  rendered, from_branch_success, aggregate_llm_judge,
}
use loker.Aggregator.Judge.Checks.{
  IsOther, Overlaps, clamp-some, parse_ballot-contract, Differ, Compared, check_candidates-Compared,
}

module _ {V W : Type 0} (json : Json V) (render : Render) (candidates : List BranchSuccess)
    (judge : Text) (require_different : Bool) (backends : List (Backend W)) (w : W) where
  -- What comes of a judgement: the judge shares a family where it may not, and nobody was asked; or
  -- another error, which is no index out of range, and a missing backend only if it is the judge's; or the choice of the judge among the candidates.
  pub data Judged : Result AggregatedArtifact LlmJudgeError × W → Type 0 where
    overlapped :
        (c : BranchSuccess)
        → In c candidates
        → Overlaps judge c
        → require_different ≡ true
        → Judged (err (family_overlap judge c.backend_id (as_str (family_of judge))), w)
    stopped :
        (e : LlmJudgeError) (w' : W)
        → Differ judge require_different candidates
        → ¬ (e ≡ out_of_range)
        → ((n : Text)
            → e ≡ backend_not_found n
            → (n ≡ judge) × (find_backend judge backends ≡ none))
        → Judged (err e, w')
    decided :
        (b : Backend W) (prompt : Text) (answer : QueryOutput) (ballot : Ballot) (c : BranchSuccess)
        (w' : W)
        → Differ judge require_different candidates
        → find_backend judge backends ≡ some b
        → b.query prompt none w ≡ (ok answer, w')
        → parse_ballot json answer.stdout ≡ ok ballot
        → In c candidates
        → get_elem? candidates (clamp_chosen_index ballot.chosen_index (length candidates)) ≡ some c
        → Judged (
          ok (record {
            text =
                chosen_text c ballot.reason
                ++ overlap_warning judge require_different
                    (overlapping (family_of judge) candidates);
            successful = length candidates;
            failed = 0;
          }),
          w',
        )

  stopped_other :
      (e : LlmJudgeError) (w' : W)
      → Differ judge require_different candidates
      → IsOther e
      → Judged (err e, w')
  stopped_other e w' differ (no_index, no_backend) =
      stopped e w' differ no_index (λ n q. absurd (no_backend n q))

  chosen-Judged :
      (c : BranchSuccess) (rest : List BranchSuccess) (b : Backend W) (prompt : Text)
      (answer : QueryOutput) (w' : W)
      → candidates ≡ c ∷ rest
      → Differ judge require_different candidates
      → find_backend judge backends ≡ some b
      → b.query prompt none w ≡ (ok answer, w')
      → Judged (chosen json judge require_different candidates answer, w')
  chosen-Judged c rest b prompt answer w' is differ found asked =
      bind_ind (λ r. Judged (r, w')) (parse_ballot json answer.stdout)
        (λ ballot e.
          let (d, at, p) = clamp-some c rest ballot.chosen_index in
          let at' =
            subst (λ l. get_elem? l (clamp_chosen_index ballot.chosen_index (length l)) ≡ some d)
              (sym is) at in
          subst
            (λ o. Judged (
              (at_index o >>= (λ x. ok (record {
                text =
                    chosen_text x ballot.reason
                    ++ overlap_warning judge require_different
                        (overlapping (family_of judge) candidates);
                successful = length candidates;
                failed = 0;
              }))),
              w',
            ))
            (sym at')
            (decided b prompt answer ballot d w' differ found asked e
              (subst (λ l. In d l) (sym is) p) at'))
        (λ e f. stopped_other e w' differ (parse_ballot-contract json answer.stdout e f))

  ask-Judged :
      (c : BranchSuccess) (rest : List BranchSuccess) (prompt : Text) (o : Option (Backend W))
      → candidates ≡ c ∷ rest
      → find_backend judge backends ≡ o
      → Differ judge require_different candidates
      → Judged (ask o judge prompt (chosen json judge require_different candidates) w)
  ask-Judged c rest prompt none is found differ =
      stopped (backend_not_found judge) w differ (λ e. cc) (λ n e. (cc, found))
  ask-Judged c rest prompt (some b) is found differ =
      match_result_ind Judged (b.query prompt none w)
        (λ answer w' e. chosen-Judged c rest b prompt answer w' is differ found e)
        (λ e w' f. stopped_other (judge_call e) w' differ ((λ g. cc), λ n g. cc))

-- `aggregate_llm_judge` returns the error of an overlap, with nothing asked, where families have to
-- differ and a candidate has the judge's; or another error, which is no index out of range, and
-- that of a missing backend only where no backend has the judge's name; or the text of the
-- candidate at the clamped index of the ballot that the backend of the judge's name answered. In
-- the two last cases no candidate has the judge's family where families have to differ.
pub aggregate_llm_judge-Judged :
    {V W : Type 0} (json : Json V) (render : Render) (candidates : List BranchSuccess)
    (judge template : Text) (require_different : Bool) (backends : List (Backend W)) (w : W)
    → Judged json render candidates judge require_different backends w
        (aggregate_llm_judge json render candidates judge template require_different backends w)
unfolding aggregate_llm_judge
aggregate_llm_judge-Judged json render [] judge template require_different backends w =
    stopped _ w (λ d p. elim p [ ]) (λ e. cc) (λ n e. cc)
aggregate_llm_judge-Judged json render (c ∷ candidates) judge template require_different backends
      w =
    families (check_candidates judge require_different (c ∷ candidates))
      (check_candidates-Compared judge require_different (c ∷ candidates))
  where
    prompted :
        (r : Result Text Text)
        → Differ judge require_different (c ∷ candidates)
        → Judged json render (c ∷ candidates) judge require_different backends w (
            with_prompt
              (rendered r)
              (λ prompt w2.
                ask
                  (find_backend judge backends)
                  judge
                  prompt
                  (chosen json judge require_different (c ∷ candidates))
                  w2)
              w)
    prompted (err e) differ = stopped _ w differ (λ f. cc) (λ n f. cc)
    prompted (ok prompt) differ =
        ask-Judged json render (c ∷ candidates) judge require_different backends w c candidates
          prompt (find_backend judge backends) refl refl differ

    families :
        (r : Result (Unit {0}) LlmJudgeError)
        → Compared judge require_different (c ∷ candidates) r
        → Judged json render (c ∷ candidates) judge require_different backends w (
            with_families r
              (λ w1.
                with_prompt
                  (render_ballot_prompt render template (c ∷ candidates))
                  (λ prompt w2.
                    ask
                      (find_backend judge backends)
                      judge
                      prompt
                      (chosen json judge require_different (c ∷ candidates))
                      w2)
                  w1)
              w)
    families (err e) (d, p, o, q, is) =
        subst
          (λ x. Judged json render (c ∷ candidates) judge require_different backends w (err x, w))
          (sym is) (overlapped d p o q)
    families (ok u) differ =
        prompted (render template (map from_branch_success (c ∷ candidates))) differ
