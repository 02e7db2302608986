-- ===== src/Strategy/FanOut/Concluded.antt =====
-- What the floor on the answers and the aggregator make of what was collected.
use loker.Prelude.{
  ℕ, ◌<◌, ◌≤◌, ◌≡◌, refl, sym, ap, subst, ◌∙◌, true, Option, none, some, List, [], ◌++◌, append-nil,
  if_ind, length, ltb, In, inl, inr, Result, ok, err, match_result_ind, arith,
}
use loker.Prelude.Text.{Text, str}
use loker.ApplyVerify.Files.{FileSystem, join}
use loker.Strategy.{StrategyError, outcome_skipped}
use loker.Strategy.Escalating.{Backend, PhaseContext}
use loker.Aggregator.Concat.{Aggregator, first, concat, any_fail, all_pass, llm_judge, vote}
use loker.Aggregator.Verdict.{Json}
use loker.Aggregator.Judge.{Render, aggregate_llm_judge}
use loker.Aggregator.Judge.Choice.{Judged, aggregate_llm_judge-Judged}
use loker.Aggregator.Vote.{Deps}
use loker.Aggregator.Vote.{VoteConfig}
use loker.Aggregator.Vote.Ties.{InRange}
use loker.Aggregator.Vote.Elects.{ballots, Decided, aggregate_vote-Decided}
use loker.Aggregator.Vote.Tally.{Tallied, aggregate_vote}
use loker.Strategy.FanOut.{
  ParallelFanOut, FanOutput, FanError, floor_violation, Arrival, Collected, is_any_fail,
  stops_early, FanTexts, write_in_dir, aggregated_path, output_of,
}
use loker.Strategy.FanOut.Conclude.{write_aggregate, voted, aggregated, conclude}
use loker.Strategy.FanOut.Fanned.{
  judge_failed, vote_failed, Says, write_in_dir-Says, count_answers, Fanned, passed_all,
  below_floor, met_floor, failed,
}
use loker.Strategy.FanOut.Gathered.{Gathered}

any_fail_is_late : (k : Aggregator) → is_any_fail k ≡ true → stops_early k ≡ true → ⊥
any_fail_is_late first h g = cc
any_fail_is_late (concat t) h g = cc
any_fail_is_late any_fail h g = cc
any_fail_is_late all_pass h g = cc
any_fail_is_late (llm_judge b t r) h g = cc
any_fail_is_late (vote c) h g = cc

Decided-some : {bs : List Text} {total threshold : ℕ} → Decided bs total threshold none → ⊥
Decided-some d = elim d [ ]

module _ (fs : FileSystem) {V : Type 0} (json : Json V) (render_ballot : Render) (deps : Deps)
    (texts : FanTexts) (self : ParallelFanOut) (ctx : PhaseContext)
    (backends : List (Backend fs.World)) (range : InRange deps) where
  open fs use {World}

  module _ (arrivals : List Arrival) (c : Collected)
      (met : (out : FanOutput)
        → length out.output.attempts ≡ length c.attempts
        → Fanned fs json render_ballot deps texts self ctx backends arrivals (ok out)) where
    written :
        (hook text : Text) (w : World)
        → Fanned fs json render_ballot deps texts self ctx backends arrivals
            (write_aggregate fs json render_ballot deps texts self ctx backends hook text c w).0
    written hook text w =
        match_result_ind
          (λ (r : Result FanOutput FanError × World).
            Fanned fs json render_ballot deps texts self ctx backends arrivals r.0)
          (write_in_dir fs json texts self ctx
            (join ctx.cwd (aggregated_path fs json texts self ctx)) text w)
          (λ u w' e. met _ refl)
          (λ e w' f. failed e (
            subst
              (λ (r : Result (Unit {0}) StrategyError × World).
                Says fs json render_ballot deps texts self ctx backends r.0)
              f
              (write_in_dir-Says fs json render_ballot deps texts self ctx backends
                (join ctx.cwd (aggregated_path fs json texts self ctx)) text w)))

    voted-Fanned :
        (config : VoteConfig) (o : Option Tallied) (w : World)
        → self.aggregator ≡ vote config
        → Decided (ballots deps c.vote_branches) (length c.vote_branches) config.abstain_threshold o
        → Fanned fs json render_ballot deps texts self ctx backends arrivals
            (voted fs json render_ballot deps texts self ctx backends o c w).0
    voted-Fanned config (some (err e)) w h d = vote_failed config c.vote_branches e h d
    voted-Fanned config (some (ok (a, r))) w h d = written (str "Vote") a.text w
    voted-Fanned config none w h d = absurd (Decided-some d)

    aggregated-Fanned :
        (k : Aggregator) (w : World)
        → self.aggregator ≡ k
        → Fanned fs json render_ballot deps texts self ctx backends arrivals
            (aggregated fs json render_ballot deps texts self ctx backends k c w).0
    aggregated-Fanned first w h = met _ refl
    aggregated-Fanned (concat t) w h = met _ refl
    aggregated-Fanned any_fail w h = met _ refl
    aggregated-Fanned all_pass w h = met _ refl
    aggregated-Fanned (vote config) w h =
        voted-Fanned config (aggregate_vote deps c.vote_branches config) w h
          (aggregate_vote-Decided deps range c.vote_branches config)
    aggregated-Fanned (llm_judge judge template require_different) w h =
        let judgement =
          aggregate_llm_judge json render_ballot c.successful_candidates judge template
            require_different backends w in
        match_result_ind
          (λ (r : Result FanOutput FanError × World).
            Fanned fs json render_ballot deps texts self ctx backends arrivals r.0)
          judgement (λ a w' e. written (str "LLMJudge") a.text w')
          (λ e w' f.
            judge_failed judge template require_different c.successful_candidates e w w' h (
              subst
                (Judged json render_ballot c.successful_candidates judge require_different backends
                  w)
                f
                (aggregate_llm_judge-Judged json render_ballot c.successful_candidates judge
                  template require_different backends w)))

  pub conclude-Fanned :
      (arrivals : List Arrival) (c : Collected) (w : World)
      → Gathered fs json render_ballot deps texts self ctx backends arrivals (ok c)
      → Fanned fs json render_ballot deps texts self ctx backends arrivals
          (conclude fs json render_ballot deps texts self ctx backends c w).0
  unfolding conclude
  conclude-Fanned arrivals c w (seen, rest, split, h, ended_by) =
      if_ind
        (λ (r : Result FanOutput FanError × World).
          Fanned fs json render_ballot deps texts self ctx backends arrivals r.0)
        (is_any_fail self.aggregator) _ _
        (λ f.
          let same = whole (elim ended_by [
            | inl e ↦ e
            | inr (early, enough) ↦ absurd (any_fail_is_late self.aggregator f early)
          ]) in
          passed_all _ f (λ a p. h.accepted f a (subst (In a) same p))
            (h.attempted ∙ ap length (sym same)))
        (λ f.
          if_ind
            (λ (r : Result FanOutput FanError × World).
              Fanned fs json render_ballot deps texts self ctx backends arrivals r.0)
            (ltb c.successes self.min_responses) _ _
            (λ g.
              let same =
                whole (elim ended_by [ inl e ↦ e | inr (early, enough) ↦ absurd (ground arith) ]) in
              let count : c.successes ≡ count_answers arrivals =
                h.answers ∙ ap count_answers (sym same) in
              subst
                (λ n. Fanned fs json render_ballot deps texts self ctx backends arrivals (
                  err (
                    floor_violation n self.min_responses
                      (output_of fs json texts self ctx c.attempts outcome_skipped))))
                (sym count)
                (below_floor _ f (subst (λ n. n < self.min_responses) count (ground arith))
                  (h.attempted ∙ ap length (sym same))))
            (λ g.
              aggregated-Fanned arrivals c
                (λ out e.
                  met_floor seen rest out f split
                    (elim ended_by [ inl e ↦ inl e | inr (early, enough) ↦ inr early ])
                    (subst (λ n. self.min_responses ≤ n) h.answers (ground arith))
                    (e ∙ h.attempted))
                self.aggregator w refl))
    where
      whole : rest ≡ [] → arrivals ≡ seen
      whole e = split ∙ ap (λ l. seen ++ l) e ∙ append-nil seen
