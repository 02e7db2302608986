-- ===== src/Aggregator/Vote/Elects.antt =====
-- What `aggregate_vote` decides.
use loker.Aggregator.Vote.Ties.{InRange, resolve_tie-In}
use loker.Prelude.{
  ℕ, suc, ◌+◌, ◌*◌, ◌≤◌, ◌<◌, ◌≡◌, refl, sym, subst, ◌∙◌, Bool, true, false, Option, some, List, [],
  ◌∷◌, ltb, if◌then◌else◌, if_ind, is_nil, length, get_elem?, arith, In, here, ok, err,
}
use loker.Prelude.Text.{Text, str}
use loker.Prelude.Sorted.{IsSorted}
use loker.Prelude.TextOrd.{text_ord}
use loker.Aggregator.{BranchOutcome, success, failure, AggregatedArtifact}
use loker.Aggregator.Vote.{
  Deps, VoteConfig, VoteCandidate, VoteResult, quorum_lost, no_candidates, Buckets,
  normalise_ballot, collect, fill, max_votes, winners_of, resolve_tie,
}
use loker.Aggregator.Vote.Tally.{
  Tallied, announce, settle, format_tie_break_rule, elect, aggregate_vote,
}
use loker.Aggregator.Vote.Count.{
  votes, texts, fill-IsSorted, filled-votes, max_votes-size, winners_of-size, winners_of-max_votes,
}

-- The generator draws from its range.
-- The texts of the branches that vote: successful, with an output that is not blank.
abbrev pub ballots : Deps → List BranchOutcome → List Text
ballots deps [] = []
ballots deps (failure f ∷ branches) = ballots deps branches
ballots deps (success s ∷ branches) =
    let text = normalise_ballot deps s.output in
    let rest = ballots deps branches in if is_nil text then rest else text ∷ rest

collect-ballots :
    (deps : Deps) (n : ℕ) (branches : List BranchOutcome)
    → texts (collect deps n branches).1 ≡ ballots deps branches
unfolding collect
collect-ballots deps n [] = refl
collect-ballots deps n (failure f ∷ branches) = collect-ballots deps (suc n) branches
collect-ballots deps n (success s ∷ branches) =
    ground (arith, collect-ballots deps (suc n) branches)

collect-all :
    (deps : Deps) (n : ℕ) (branches : List BranchOutcome)
    → (collect deps n branches).0 + length (collect deps n branches).1 ≡ length branches
unfolding collect
collect-all deps n [] = omega arith
collect-all deps n (failure f ∷ branches) = omega (arith, collect-all deps (suc n) branches)
collect-all deps n (success s ∷ branches) =
    let rest = collect-all deps (suc n) branches in
    if_ind (λ (r : ℕ × List VoteCandidate). r.0 + length r.1 ≡ suc (length branches))
      (is_nil (normalise_ballot deps s.output)) _ _ (λ h. omega arith) (λ h. omega arith)

-- An elected text, among the ballots `bs` of `total` branches.
pub record IsElected (bs : List Text) (total threshold : ℕ) (a : AggregatedArtifact)
    (r : VoteResult) : Type 0 where
  pub voted : 0 < votes r.winner bs
  pub most : (q : Text) → votes q bs ≤ votes r.winner bs
  pub majority : r.tie_broken ≡ (if ltb (length bs) (votes r.winner bs * 2) then false else true)
  pub counted : a.successful ≡ length bs
  pub everyone : a.successful + a.failed ≡ total
  pub quorum : a.failed ≤ threshold

pub data Decided (bs : List Text) (total threshold : ℕ) : Option Tallied → Type 0 where
  lost :
      (abstains : ℕ)
      → abstains + length bs ≡ total
      → threshold < abstains
      → Decided bs total threshold (some (err (quorum_lost abstains threshold)))
  nobody : bs ≡ [] → total ≤ threshold → Decided bs total threshold (some (err no_candidates))
  elected :
      (a : AggregatedArtifact) (r : VoteResult)
      → IsElected bs total threshold a r
      → Decided bs total threshold (some (ok (a, r)))

length-texts : (cs : List VoteCandidate) → length (texts cs) ≡ length cs
length-texts [] = refl
length-texts (c ∷ cs) = omega (arith, length-texts cs)

some_votes : (c : VoteCandidate) (cs : List VoteCandidate) → 0 < votes c.normalised (texts (c ∷ cs))
unfolding votes
some_votes c cs = rw (text_ord.compare_refl c.normalised) (omega arith)

module _ (deps : Deps) (range : InRange deps) (config : VoteConfig) (abstains total : ℕ)
    (c : VoteCandidate) (cs : List VoteCandidate) where
  abbrev candidates : List VoteCandidate
  candidates = c ∷ cs

  abbrev filled : Buckets
  filled = fill 0 candidates []

  filled-IsSorted : IsSorted text_ord filled
  filled-IsSorted = fill-IsSorted candidates 0 [] tt

  max_votes-votes : (q : Text) → votes q (texts candidates) ≤ max_votes filled
  max_votes-votes q =
      subst (λ n. n ≤ max_votes filled) (filled-votes q candidates) (max_votes-size q filled)

  some_filled : is_nil filled ≡ false
  unfolding max_votes
  some_filled = not_nil filled (max_votes-votes c.normalised)
    where
      not_nil :
          (m : Buckets) → votes c.normalised (texts candidates) ≤ max_votes m → is_nil m ≡ false
      not_nil [] h = absurd (omega (arith, some_votes c cs))
      not_nil (x ∷ m) h = refl

  winner-votes :
      (w : Text)
      → In w (winners_of (max_votes filled) filled)
      → votes w (texts candidates) ≡ max_votes filled
  winner-votes w p =
      sym (filled-votes w candidates)
      ∙ winners_of-size w (max_votes filled) filled filled-IsSorted p

  winner-IsElected :
      (w rule : Text)
      → abstains + length candidates ≡ total
      → abstains ≤ config.abstain_threshold
      → In w (winners_of (max_votes filled) filled)
      → Decided (texts candidates) total config.abstain_threshold (
          some (
            ok (
              announce w rule
                (if ltb (length candidates) (max_votes filled * 2) then false else true)
                abstains
                total
                candidates
                filled)))
  unfolding announce
  winner-IsElected w rule all enough p =
      let e = winner-votes w p in
      elected _ _ (record {
        voted = omega (arith, some_votes c cs, max_votes-votes c.normalised);
        most = λ q. subst (λ n. votes q (texts candidates) ≤ n) (sym e) (max_votes-votes q);
        majority = rw e (rw (length-texts candidates) refl);
        counted = sym (length-texts candidates);
        everyone = omega arith;
        quorum = enough;
      })

  elect-Decided :
      abstains + length candidates ≡ total
      → abstains ≤ config.abstain_threshold
      → Decided
          (texts candidates)
          total
          config.abstain_threshold
          (elect deps config abstains total candidates filled)
  unfolding elect
  elect-Decided all enough =
      let tied = winners_of (max_votes filled) filled in
      let someone : is_nil tied ≡ false = winners_of-max_votes filled some_filled in
      let (w, e, p) = chosen-In tied someone (ltb (length candidates) (max_votes filled * 2)) in
      subst
        (λ o. Decided (texts candidates) total config.abstain_threshold (
          settle o λ winner.
            announce winner
              (if ltb (length candidates) (max_votes filled * 2)
                then str "none (strict majority)"
                else format_tie_break_rule config.tie_break)
              (if ltb (length candidates) (max_votes filled * 2) then false else true) abstains
              total candidates filled))
        (sym e) (winner-IsElected w _ all enough p)
    where
      chosen-In :
          (tied : List Text)
          → is_nil tied ≡ false
          → (strict : Bool)
          → (w : Text) × ((if strict
                then get_elem? tied 0
                else resolve_tie deps tied candidates filled config.tie_break)
              ≡ some w)
            × In w tied
      chosen-In [] h strict = cc
      chosen-In (t ∷ ts) h true = (t, refl, here)
      chosen-In (t ∷ ts) h false =
          resolve_tie-In deps range (t ∷ ts) candidates filled config.tie_break h

-- If the generator draws from its range, a vote never panics. It loses its quorum when more
-- branches abstain than the threshold allows, has no candidates when no branch votes, and else
-- elects a text that a branch voted for and no text has more votes than. A tie is broken just when
-- half of the ballots or fewer are for it, and the artifact counts the ballots and the abstentions,
-- which are all the branches.
pub aggregate_vote-Decided :
    (deps : Deps)
    → InRange deps
    → (branches : List BranchOutcome) (config : VoteConfig)
    → Decided
        (ballots deps branches)
        (length branches)
        config.abstain_threshold
        (aggregate_vote deps branches config)
unfolding aggregate_vote
aggregate_vote-Decided deps range branches config =
    subst
      (λ bs.
        Decided bs (length branches) config.abstain_threshold (aggregate_vote deps branches config))
      (collect-ballots deps 0 branches)
      (decide (collect deps 0 branches).0 (collect deps 0 branches).1 (collect-all deps 0 branches))
  where
    decide :
        (abstains : ℕ) (cs : List VoteCandidate)
        → abstains + length cs ≡ length branches
        → Decided (texts cs) (length branches) config.abstain_threshold (
            if ltb config.abstain_threshold abstains
            then some (err (quorum_lost abstains config.abstain_threshold))
            else if is_nil cs
            then some (err no_candidates)
            else elect deps config abstains (length branches) cs (fill 0 cs []))
    decide abstains [] all =
        if_ind (Decided [] (length branches) config.abstain_threshold)
          (ltb config.abstain_threshold abstains) _ _ (λ h. lost abstains all (ground arith))
          (λ h. nobody refl (ground arith))
    decide abstains (c ∷ cs) all =
        if_ind (Decided (texts (c ∷ cs)) (length branches) config.abstain_threshold)
          (ltb config.abstain_threshold abstains) _ _
          (λ h. lost abstains (omega (arith, length-texts cs)) (ground arith))
          (λ h. elect-Decided deps range config abstains (length branches) c cs all (ground arith))
