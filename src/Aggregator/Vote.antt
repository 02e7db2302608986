-- ===== src/Aggregator/Vote.antt =====
-- src/aggregator/vote.rs: counting the ballots of the branches.
-- `str::to_lowercase` and the seeded generator of the `rand` crate are in the record `Deps`.
pub mod Ties
pub mod Tally
pub mod Count
pub mod Elects
use loker.Prelude.{
  ℕ, zero, suc, ◌+◌, ◌*◌, Bool, true, false, ◌||◌, Option, none, some, List, [], ◌∷◌, ◌++◌, map,
  leb, ltb, if◌then◌else◌, unwrap_or, is_nil, length, get_elem?, Result, ok, err, ◌==◌, usize_max,
}
use loker.Prelude.Text.{Text, str, trim}
use loker.Prelude.Sorted.{by_ordering, update, lookup}
use loker.Prelude.TextOrd.{text_ord}
use loker.Family.{Family, family_of, compare_family}
use loker.Aggregator.{BranchOutcome, success, failure, AggregatedArtifact}

pub record Deps : Type 0 where
  pub to_lowercase : Text → Text
  -- `StdRng::seed_from_u64(seed).random_range(0..n)`
  pub random_range : (seed n : ℕ) → ℕ

pub data TieBreak : Type 0 where
  closest_to_family : Family → TieBreak
  random : (seed : ℕ) → TieBreak
  first_responder : TieBreak

-- `ballot_schema` has one variant and is left out.
pub record VoteConfig : Type 0 where
  pub tie_break : TieBreak
  pub abstain_threshold : ℕ

pub record VoteCandidate : Type 0 where
  pub backend_id : Text
  pub family : Text
  pub normalised : Text
  pub original : Text
  pub arrival_order : ℕ

pub record VoteResult : Type 0 where
  pub winner : Text
  pub vote_counts : List (Text × ℕ)
  pub abstain_count : ℕ
  pub total_branches : ℕ
  pub tie_broken : Bool
  pub tie_break_rule : Text

pub data VoteError : Type 0 where
  quorum_lost : (abstains threshold : ℕ) → VoteError
  no_candidates : VoteError

-- The indices of the candidates, by their text.
abbrev pub Buckets : Type 0
Buckets = List (Text × List ℕ)

module _ (deps : Deps) where
  unfoldable pub normalise_ballot : Text → Text
  normalise_ballot text = deps.to_lowercase (trim text)

  -- The loop over the branches, from the arrival order `n` on: the abstentions and the candidates.
  unfoldable pub collect : ℕ → List BranchOutcome → ℕ × List VoteCandidate
  collect n [] = (0, [])
  collect n (failure f ∷ branches) =
      let (abstains, candidates) = collect (suc n) branches in (suc abstains, candidates)
  collect n (success s ∷ branches) =
      let (abstains, candidates) = collect (suc n) branches in
      let normalised = normalise_ballot s.output in
      let candidate : VoteCandidate = record {
        backend_id = s.backend_id;
        family = s.family;
        normalised = normalised;
        original = s.output;
        arrival_order = n;
      } in
      if is_nil normalised then (suc abstains, candidates) else (abstains, candidate ∷ candidates)

abbrev pub push_index : ℕ → Option (List ℕ) → List ℕ
push_index i o = unwrap_or o [] ++ (i ∷ [])

-- The loop that fills the buckets, from the candidate index `i` on.
unfoldable pub fill : ℕ → List VoteCandidate → Buckets → Buckets
fill i [] buckets = buckets
fill i (c ∷ candidates) buckets =
    fill (suc i) candidates (update text_ord c.normalised (push_index i) buckets)

abbrev pub larger : ℕ → ℕ → ℕ
larger a b = if ltb a b then b else a

-- `buckets.values().map(|v| v.len()).max().unwrap_or(0)`
unfoldable pub max_votes : Buckets → ℕ
max_votes [] = 0
max_votes (e ∷ buckets) = larger (length e.1) (max_votes buckets)

-- The texts of the buckets of a given size.
unfoldable pub winners_of : ℕ → Buckets → List Text
winners_of n [] = []
winners_of n (e ∷ buckets) =
    let rest = winners_of n buckets in if length e.1 == n then e.0 ∷ rest else rest

abbrev pub arrival : List VoteCandidate → ℕ → ℕ
arrival candidates i = elim (get_elem? candidates i) [ some c ↦ c.arrival_order | none ↦ usize_max ]

-- The earliest arrival in a bucket, `usize::MAX` for an empty one.
unfoldable pub earliest : List VoteCandidate → List ℕ → ℕ
earliest candidates [] = usize_max
earliest candidates (i ∷ is) =
    let rest = earliest candidates is in
    if is_nil is
    then arrival candidates i
    else if ltb rest (arrival candidates i)
    then rest
    else arrival candidates i

abbrev pub bucket_of : Buckets → Text → List ℕ
bucket_of buckets text = unwrap_or (lookup text_ord text buckets) []

-- `min_by_key`: the first of the least keys, behind the best text so far.
unfoldable pub min_by_key : (Text → ℕ) → Text → List Text → Text
min_by_key key best [] = best
min_by_key key best (t ∷ ts) = min_by_key key (if ltb (key t) (key best) then t else best) ts

-- The arm `FirstResponder` of `resolve_tie`; with nothing tied the source panics, which is `none`.
unfoldable pub first_of : List VoteCandidate → Buckets → List Text → Option Text
first_of candidates buckets [] = none
first_of candidates buckets (t ∷ ts) =
    some (min_by_key (λ b. earliest candidates (bucket_of buckets b)) t ts)

abbrev pub is_family : Family → List VoteCandidate → ℕ → Bool
is_family target candidates i = elim (get_elem? candidates i) [
  | some c ↦ by_ordering (compare_family (family_of c.backend_id) target) false true false
  | none ↦ false
]

abbrev pub any_of : (ℕ → Bool) → List ℕ → Bool
any_of p [] = false
any_of p (i ∷ is) = p i || any_of p is

unfoldable pub matching : Family → List VoteCandidate → Buckets → List Text → List Text
matching target candidates buckets [] = []
matching target candidates buckets (t ∷ ts) =
    let rest = matching target candidates buckets ts in
    if any_of (is_family target candidates) (bucket_of buckets t) then t ∷ rest else rest

-- What `resolve_tie` does with the texts that match the family, or else with all.
abbrev pub among : (first : List Text → Option Text) → (tied matches : List Text) → Option Text
among first tied [] = first tied
among first tied (t ∷ []) = some t
among first tied (t ∷ u ∷ ts) = first (t ∷ u ∷ ts)

unfoldable pub resolve_tie :
    Deps → List Text → List VoteCandidate → Buckets → TieBreak → Option Text
resolve_tie deps tied candidates buckets first_responder = first_of candidates buckets tied
resolve_tie deps tied candidates buckets (closest_to_family target) =
    among (first_of candidates buckets) tied (matching target candidates buckets tied)
resolve_tie deps tied candidates buckets (random seed) =
    get_elem? tied (deps.random_range seed (length tied))

abbrev pub counts_of : Buckets → List (Text × ℕ)
counts_of buckets = map (λ (e : Text × List ℕ). (e.0, length e.1)) buckets
