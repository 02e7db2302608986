-- ===== src/Strategy/FanOut/Gathered.antt =====
-- What the loop of a fan-out collects, and the first rejected verdict.
use loker.Prelude.{
  ℕ, suc, ◌+◌, ◌≤◌, ◌≡◌, refl, sym, ap, subst, ◌∙◌, true, false, ◌&&◌, List, [], ◌∷◌, ◌++◌,
  append_assoc, if◌then◌else◌, if_ind, length, length-append, leb, is_ok, In, inl, inr, ◌⊎◌, Result,
  ok, err, match_result_ind, Bool-cases, arith,
}
use loker.Prelude.Names.{In-append, In-one}
use loker.ApplyVerify.Files.{FileSystem}
use loker.Strategy.{BackendError, QueryOutput, Attempt, StrategyError}
use loker.Strategy.Escalating.{PhaseContext}
use loker.Aggregator.Verdict.{Json, AnyFailReason, any_fail_evaluate}
use loker.Aggregator.Judge.{Render}
use loker.Aggregator.Vote.{Deps}
use loker.Strategy.Escalating.{Backend}
use loker.Strategy.FanOut.{
  ParallelFanOut, FanError, Arrival, Collected, is_any_fail, stops_early, FanTexts, LoopStep, go_on,
  break_off, ended, write_branch_output, output_path_of, answered, with_success, with_failure,
  judged, verdict, arrive, next, collect,
}
use loker.Strategy.FanOut.Fanned.{
  count_answers, Accepted, Fanned, rejected, failed, Says, write_branch_output-Says,
}

module _ (fs : FileSystem) {V : Type 0} (json : Json V) (render_ballot : Render) (deps : Deps)
    (texts : FanTexts) (self : ParallelFanOut) (ctx : PhaseContext)
    (backends : List (Backend fs.World)) where
  open fs use {World}

  -- What is collected, after the arrivals seen so far.
  pub record Tallies (seen : List Arrival) (c : Collected) : Type 0 where
    pub attempted : length c.attempts ≡ length seen
    pub answers : c.successes ≡ count_answers seen
    pub accepted :
        is_any_fail self.aggregator ≡ true
        → (a : Arrival) → In a seen
        → Accepted fs json render_ballot deps texts self ctx backends a

  one_answer : (a : Arrival) (q r : QueryOutput) → a.result ≡ ok q → a.result ≡ ok r → q ≡ r
  one_answer a q r e f = cc

  count_answers-snoc :
      (seen : List Arrival) (a : Arrival)
      → count_answers (seen ++ (a ∷ [])) ≡ count_answers seen + (if is_ok a.result then 1 else 0)
  unfolding count_answers
  count_answers-snoc [] a = elim (Bool-cases (is_ok a.result)) [
    | inl e ↦ rw e refl
    | inr e ↦ rw e refl
  ]
  count_answers-snoc (x ∷ seen) a = elim (Bool-cases (is_ok x.result)) [
    | inl e ↦ rw e (omega (arith, count_answers-snoc seen a))
    | inr e ↦ rw e (count_answers-snoc seen a)
  ]

  abbrev Stepped : List Arrival → Arrival → LoopStep World → Type 0
  Stepped seen a (go_on c w) = Tallies (seen ++ (a ∷ [])) c
  Stepped seen a (break_off c w) =
      Tallies (seen ++ (a ∷ [])) c
      × (stops_early self.aggregator ≡ true)
      × (self.min_responses ≤ c.successes)
  Stepped seen a (ended e w) =
      (after : List Arrival)
      → Fanned fs json render_ballot deps texts self ctx backends (seen ++ (a ∷ after)) (err e)

  Tallies-snoc :
      (seen : List Arrival) (a : Arrival) (c c' : Collected)
      → Tallies seen c
      → length c'.attempts ≡ length c.attempts + 1
      → c'.successes ≡ c.successes + (if is_ok a.result then 1 else 0)
      → (is_any_fail self.aggregator ≡ true
          → Accepted fs json render_ballot deps texts self ctx backends a)
      → Tallies (seen ++ (a ∷ [])) c'
  Tallies-snoc seen a c c' h n s ok_a = record {
    attempted = omega (arith, h.attempted, n, length-append seen (a ∷ []));
    answers =
        s
        ∙ ap (λ k. k + (if is_ok a.result then 1 else 0)) h.answers
        ∙ sym (count_answers-snoc seen a);
    accepted = λ f x p. elim (In-append seen (a ∷ []) p) [
      | inl q ↦ h.accepted f x q
      | inr q ↦
          subst (Accepted fs json render_ballot deps texts self ctx backends) (sym (In-one x a q))
            (ok_a f)
    ];
  }

  no_reason : {reason : AnyFailReason} → ok tt ≡ err reason → ⊥
  no_reason g = cc

  one_more :
      (l : List Attempt) (x : Attempt) (n : ℕ) → length l ≡ n → length (l ++ (x ∷ [])) ≡ suc n
  one_more l x n e = omega (arith, length-append l (x ∷ []))

  not-Accepted :
      (a : Arrival) (query : QueryOutput) (reason : AnyFailReason)
      → a.result ≡ ok query
      → any_fail_evaluate json query.stdout ≡ err reason
      → ¬ Accepted fs json render_ballot deps texts self ctx backends a
  not-Accepted a query reason e v (q, e', v') = cc (one_answer a query q e e', v, v')

  no_answer :
      (a : Arrival) (x : BackendError)
      → a.result ≡ err x
      → ¬ Accepted fs json render_ballot deps texts self ctx backends a
  no_answer a x e (q, e', v) = cc

  module _ (seen : List Arrival) (a : Arrival) (c : Collected) (h : Tallies seen c) where
    Tallies-success :
        (query : QueryOutput)
        → a.result ≡ ok query
        → verdict fs json texts self ctx query ≡ ok tt
        → Tallies (seen ++ (a ∷ [])) (with_success fs json texts self ctx a query c)
    Tallies-success query e v =
        Tallies-snoc seen a c (with_success fs json texts self ctx a query c) h
          (length-append c.attempts _)
          (subst
            (λ (r : Result QueryOutput BackendError).
              suc c.successes ≡ c.successes + (if is_ok r then 1 else 0))
            (sym e) (omega arith))
          (λ f. (query, e, sym (rw f refl) ∙ v))

    Tallies-failure :
        (x : BackendError)
        → a.result ≡ err x
        → is_any_fail self.aggregator ≡ false
        → Tallies (seen ++ (a ∷ [])) (with_failure fs json texts self ctx a x c)
    Tallies-failure x e f =
        Tallies-snoc seen a c (with_failure fs json texts self ctx a x c) h
          (length-append c.attempts _)
          (subst
            (λ (r : Result QueryOutput BackendError).
              c.successes ≡ c.successes + (if is_ok r then 1 else 0))
            (sym e) (omega arith))
          (λ g. cc)

    judged-Stepped :
        (query : QueryOutput) (v : Result (Unit {0}) AnyFailReason) (w : World)
        → a.result ≡ ok query
        → verdict fs json texts self ctx query ≡ v
        → Stepped seen a (judged fs json texts self ctx v a query c w)
    judged-Stepped query (ok u) w e v =
        let tallies = Tallies-success query e v in
        if_ind (Stepped seen a)
          (stops_early self.aggregator && leb self.min_responses (suc c.successes)) _ _
          (λ g. (tallies, ground arith, ground arith)) (λ g. tallies)
    judged-Stepped query (err reason) w e v = λ after.
        elim (Bool-cases (is_any_fail self.aggregator)) [
          | inl f ↦
              rejected seen after a reason (answered fs json texts self ctx a query) _ refl f
                (h.accepted f) (not-Accepted a query reason e (sym (rw f refl) ∙ v))
                (one_more c.attempts _ _ h.attempted)
          | inr f ↦ absurd (no_reason (sym (rw f refl) ∙ v))
        ]

    arrive-Stepped :
        (r : Result QueryOutput BackendError) (w : World)
        → a.result ≡ r
        → Stepped seen a (arrive fs json texts self ctx r a c w)
    arrive-Stepped (ok query) w e =
        match_result_ind (Stepped seen a)
          (write_branch_output fs json texts self ctx (output_path_of fs json texts self ctx a.idx)
            query.stdout w)
          (λ u w' f. judged-Stepped query (verdict fs json texts self ctx query) w' e refl)
          (λ x w' f. λ after. failed x (
            subst
              (λ (r : Result (Unit {0}) StrategyError × World).
                Says fs json render_ballot deps texts self ctx backends r.0)
              f
              (write_branch_output-Says fs json render_ballot deps texts self ctx backends
                (output_path_of fs json texts self ctx a.idx) query.stdout w)))
    arrive-Stepped (err x) w e =
        if_ind (Stepped seen a) (is_any_fail self.aggregator) _ _
          (λ f. λ after.
            rejected seen after a _ _ _ refl f (h.accepted f) (no_answer a x e)
              (one_more c.attempts _ _ h.attempted))
          (λ f. Tallies-failure x e f)

  abbrev pub Gathered : List Arrival → Result Collected FanError → Type 0
  Gathered arrivals (err e) =
      Fanned fs json render_ballot deps texts self ctx backends arrivals (err e)
  Gathered arrivals (ok c) =
      (seen : List Arrival) × (rest : List Arrival) × (arrivals ≡ seen ++ rest)
      × Tallies seen c
      × ((rest ≡ []) ⊎ ((stops_early self.aggregator ≡ true) × (self.min_responses ≤ c.successes)))

  pub collect-Gathered :
      (seen todo : List Arrival) (c : Collected) (w : World)
      → Tallies seen c
      → Gathered (seen ++ todo) (collect fs json texts self ctx todo c w).0
  unfolding collect
  collect-Gathered seen [] c w h = (seen, [], refl, h, inl refl)
  collect-Gathered seen (a ∷ todo) c w h =
      go (arrive fs json texts self ctx a.result a c w) (arrive-Stepped seen a c h a.result w refl)
        (λ c' w' h'. collect-Gathered (seen ++ (a ∷ [])) todo c' w' h')
    where
      go :
          (s : LoopStep World)
          → Stepped seen a s
          → ((c' : Collected) (w' : World)
              → Tallies (seen ++ (a ∷ [])) c'
              → Gathered ((seen ++ (a ∷ [])) ++ todo) (collect fs json texts self ctx todo c' w').0)
          → Gathered
              (seen ++ (a ∷ todo))
              (next fs json texts self ctx s (λ c' w'. collect fs json texts self ctx todo c' w')).0
      go (ended e w') g later = g todo
      go (break_off c' w') (t, early, enough) later =
          (seen ++ (a ∷ []), todo, sym (append_assoc seen (a ∷ []) todo), t, inr (early, enough))
      go (go_on c' w') t later =
          subst (λ l. Gathered l (collect fs json texts self ctx todo c' w').0)
            (append_assoc seen (a ∷ []) todo) (later c' w' t)
