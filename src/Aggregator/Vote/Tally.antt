-- ===== src/Aggregator/Vote/Tally.antt =====
-- The text that src/aggregator/vote.rs writes for a result, and `aggregate_vote`.
use loker.Prelude.{
  ℕ, ◌*◌, Bool, true, false, Option, none, some, List, [], ◌∷◌, ◌++◌, map, ltb, if◌then◌else◌,
  is_nil, length, get_elem?, Result, ok, err,
}
use loker.Prelude.Decimal.{decimal}
use loker.Prelude.Text.{Text, str, replace}
use loker.Family.{as_str}
use loker.Aggregator.{BranchOutcome, AggregatedArtifact}
use loker.Aggregator.Vote.{
  Deps, TieBreak, closest_to_family, random, first_responder, VoteConfig, VoteCandidate, VoteResult,
  VoteError, quorum_lost, no_candidates, Buckets, collect, fill, max_votes, winners_of, resolve_tie,
  counts_of, bucket_of,
}

unfoldable pub format_tie_break_rule : TieBreak → Text
unfolding as_str decimal
format_tie_break_rule (closest_to_family f) = str "closest_to_family(" ++ as_str f ++ str ")"
format_tie_break_rule (random seed) = str "random(seed=" ++ decimal seed ++ str ")"
format_tie_break_rule first_responder = str "first_responder"

unfoldable pub sanitize_comment : Text → Text
unfolding replace
sanitize_comment text = replace text (str "-->") (str "-- >")

abbrev pub show_bool : Bool → Text
show_bool true = str "true"
show_bool false = str "false"

-- `lines.join("\n")`
unfoldable pub join_with_newlines : List Text → Text
join_with_newlines [] = []
join_with_newlines (l ∷ []) = l
join_with_newlines (l ∷ m ∷ ls) = l ++ 10 ∷ join_with_newlines (m ∷ ls)

-- The original text of the first candidate in the winning bucket.
unfoldable pub winner_original : Text → List VoteCandidate → List ℕ → Text
winner_original winner candidates [] = winner
winner_original winner candidates (i ∷ is) = elim (get_elem? candidates i) [
  | some c ↦ c.original
  | none ↦ winner
]

unfoldable pub build_aggregated_text : VoteResult → List VoteCandidate → Buckets → Text
unfolding winner_original sanitize_comment decimal join_with_newlines
build_aggregated_text result candidates buckets = join_with_newlines (
    winner_original result.winner candidates (bucket_of buckets result.winner)
    ∷ []
    ∷ str "<!-- loker: Vote aggregator metadata"
    ∷ (str "  winner: " ++ sanitize_comment result.winner)
    ∷ (str "  total_branches: " ++ decimal result.total_branches)
    ∷ str "  vote_counts:"
    ∷ (map (λ (e : Text × ℕ). str "    " ++ sanitize_comment e.0 ++ str ": " ++ decimal e.1)
          result.vote_counts
        ++ ((str "  abstain_count: " ++ decimal result.abstain_count)
            ∷ (str "  tie_broken: " ++ show_bool result.tie_broken)
            ∷ (str "  tie_break_rule: " ++ sanitize_comment result.tie_break_rule)
            ∷ str "-->"
            ∷ []
            ∷ [])))

-- `sort_by_key(|b| Reverse(b.1))`: a stable sort, the largest count first.
unfoldable pub insert_count : Text × ℕ → List (Text × ℕ) → List (Text × ℕ)
insert_count e [] = e ∷ []
insert_count e (f ∷ fs) =
    let rest = insert_count e fs in if ltb e.1 f.1 then f ∷ rest else e ∷ f ∷ fs

unfoldable pub sort_counts : List (Text × ℕ) → List (Text × ℕ)
unfolding insert_count
sort_counts [] = []
sort_counts (e ∷ es) = insert_count e (sort_counts es)

abbrev pub Tallied : Type 0
Tallied = Result (AggregatedArtifact × VoteResult) VoteError

-- The end of `aggregate_vote`, once the winner is known.
unfoldable pub announce :
    (winner rule : Text) (tie_broken : Bool) (abstains total : ℕ) (candidates : List VoteCandidate)
    (buckets : Buckets)
    → AggregatedArtifact × VoteResult
announce winner rule tie_broken abstains total candidates buckets =
    let result : VoteResult = record {
      winner = winner;
      vote_counts = sort_counts (counts_of buckets);
      abstain_count = abstains;
      total_branches = total;
      tie_broken = tie_broken;
      tie_break_rule = rule;
    } in
    (
      record {
        text = build_aggregated_text result candidates buckets;
        successful = length candidates;
        failed = abstains;
      },
      result,
    )

abbrev pub settle : Option Text → (Text → AggregatedArtifact × VoteResult) → Option Tallied
settle none result = none
settle (some winner) result = some (ok (result winner))

-- The election among candidates: `none` is a panic of the source.
unfoldable pub elect :
    Deps → VoteConfig → (abstains total : ℕ) → List VoteCandidate → Buckets → Option Tallied
elect deps config abstains total candidates buckets =
    let most = max_votes buckets in
    let winners = winners_of most buckets in
    let strict_majority = ltb (length candidates) (most * 2) in
    let chosen =
      if strict_majority
      then get_elem? winners 0
      else resolve_tie deps winners candidates buckets config.tie_break in
    let rule =
      if strict_majority
      then str "none (strict majority)"
      else format_tie_break_rule config.tie_break in
    settle chosen (λ winner.
      announce winner rule (if strict_majority then false else true) abstains total candidates
        buckets)

unfoldable pub aggregate_vote : Deps → List BranchOutcome → VoteConfig → Option Tallied
aggregate_vote deps branches config =
    let (abstains, candidates) = collect deps 0 branches in
    if ltb config.abstain_threshold abstains
    then some (err (quorum_lost abstains config.abstain_threshold))
    else if is_nil candidates
    then some (err no_candidates)
    else elect deps config abstains (length branches) candidates (fill 0 candidates [])
