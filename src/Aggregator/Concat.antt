-- ===== src/Aggregator/Concat.antt =====
-- src/aggregator/concat.rs: folding the outputs into one text, by the first success, by all of them,
-- or under a heading each.
pub mod Sits
pub mod Heading
pub mod Folded
use loker.Prelude.{
  ℕ, zero, suc, ◌+◌, Bool, true, false, Option, none, some, List, [], ◌∷◌, ◌++◌, map, if◌then◌else◌,
  is_nil, length, take, drop, Result, ok, err,
}
use loker.Prelude.Text.{Text, str, find, strip_prefix, trim, replace}
use loker.Prelude.Decimal.{decimal}
use loker.Aggregator.{
  BranchOutcome, BranchSuccess, BranchFailure, success, failure, AggregatedArtifact,
}
use loker.Aggregator.Vote.{VoteConfig}

abbrev pub empty_concat_sentinel : Text
empty_concat_sentinel = str "<!-- loker: concat aggregator received no target outputs -->"

pub data Aggregator : Type 0 where
  first : Aggregator
  concat : (heading_template : Text) → Aggregator
  any_fail : Aggregator
  all_pass : Aggregator
  llm_judge :
      (judge_backend prompt_template : Text) → (require_judge_different_family : Bool) → Aggregator
  vote : VoteConfig → Aggregator

pub data AggregatorError : Type 0 where
  unsupported : Text → AggregatorError
  no_successful_branches : AggregatorError
  branch_failures : Text → AggregatorError

-- The loop of `aggregate_first`, after `failed` failures.
unfoldable pub first_from :
    (failed : ℕ) → List BranchOutcome → Result AggregatedArtifact AggregatorError
first_from failed [] = err no_successful_branches
first_from failed (success s ∷ branches) =
    ok (record { text = s.output; successful = 1; failed = failed })
first_from failed (failure f ∷ branches) = first_from (suc failed) branches

abbrev pub aggregate_first : List BranchOutcome → Result AggregatedArtifact AggregatorError
aggregate_first branches = first_from 0 branches

unfoldable pub join : Text → List Text → Text
join by [] = []
join by (t ∷ []) = t
join by (t ∷ u ∷ ts) = t ++ (by ++ join by (u ∷ ts))

-- `outputs` and `failures` of `aggregate_all_pass`.
unfoldable pub outputs_of : List BranchOutcome → List Text
outputs_of [] = []
outputs_of (success s ∷ branches) = s.output ∷ outputs_of branches
outputs_of (failure f ∷ branches) = outputs_of branches

abbrev pub failure_text : BranchFailure → Text
failure_text f =
    str "#" ++ (decimal f.index ++ (str " " ++ (f.backend_id ++ (str ": " ++ f.reason))))

unfoldable pub failures_of : List BranchOutcome → List BranchFailure
failures_of [] = []
failures_of (success s ∷ branches) = failures_of branches
failures_of (failure f ∷ branches) = f ∷ failures_of branches

abbrev pub aggregate_all_pass : List BranchOutcome → Result AggregatedArtifact AggregatorError
aggregate_all_pass branches =
    if is_nil (failures_of branches)
    then ok (record {
      text = join (str "\n\n") (outputs_of branches);
      successful = length (outputs_of branches);
      failed = 0;
    })
    else err (branch_failures (join (str "; ") (map failure_text (failures_of branches))))

-- What stands for a placeholder at the start of the rest, and the rest after it.
abbrev pub placed : Option Text → Text → (Text → Text) → Text → Text
placed none value heading otherwise = otherwise
placed (some rest) value heading otherwise = value ++ heading rest

abbrev pub closed : Option ℕ → Text → (Text → Text) → Text
closed none rest heading = rest
closed (some i) rest heading = take (suc i) rest ++ heading (drop (suc i) rest)

-- The body of the loop at a brace.
abbrev pub at_brace : (backend_id family : Text) → (index : ℕ) → (Text → Text) → Text → Text
at_brace backend_id family index heading rest =
    placed (strip_prefix rest (str "{backend_id}")) backend_id heading (
      placed (strip_prefix rest (str "{family}")) family heading (
        placed (strip_prefix rest (str "{index}")) (decimal index) heading
          (closed (find rest (str "}")) rest heading)))

abbrev pub up_to_brace : Option ℕ → Text → (Text → Text) → Text
up_to_brace none rest go = rest
up_to_brace (some i) rest go = take i rest ++ go (drop i rest)

-- The loop of `render_heading`, on fuel.
unfoldable pub heading_from : (fuel : ℕ) → (backend_id family : Text) → (index : ℕ) → Text → Text
heading_from zero backend_id family index rest = rest
heading_from (suc fuel) backend_id family index rest =
    up_to_brace (find rest (str "{")) rest
      (λ at. at_brace backend_id family index (heading_from fuel backend_id family index) at)

-- `render_heading`: each round takes a character off at least.
unfoldable pub render_heading : (template backend_id family : Text) → (index : ℕ) → Text
render_heading template backend_id family index =
    heading_from (suc (length template)) backend_id family index template

unfoldable pub render_success : Text → BranchSuccess → Text
render_success template s =
    let heading = render_heading template s.backend_id s.family s.index in
    if is_nil (trim s.output) then heading else heading ++ (str "\n\n" ++ trim s.output)

unfoldable pub render_reason : Text → Text
render_reason reason =
    let unix = replace (trim reason) (str "\r\n") (str "\n") in
    replace (replace unix (str "\r") (str "\n")) (str "\n") (str "\\n")

abbrev pub render_error : BranchFailure → Text
render_error f =
    str "- backend_id: "
    ++ (f.backend_id
        ++ (str "\n  family: "
            ++ (f.family
                ++ (str "\n  index: "
                    ++ (decimal f.index ++ (str "\n  reason: " ++ render_reason f.reason))))))

-- The loop of `render_errors`.
unfoldable pub render_each : List BranchFailure → Text
render_each [] = []
render_each (f ∷ failures) = str "\n\n" ++ (render_error f ++ render_each failures)

abbrev pub render_errors : List BranchFailure → Text
render_errors failures = str "## Errors" ++ render_each failures

unfoldable pub sections_of : Text → List BranchOutcome → List Text
sections_of template [] = []
sections_of template (success s ∷ branches) =
    render_success template s ∷ sections_of template branches
sections_of template (failure f ∷ branches) = sections_of template branches

-- `parts`: the sections, and the errors where there are any.
abbrev pub parts_of : Text → List BranchOutcome → List Text
parts_of template branches =
    if is_nil (failures_of branches)
    then sections_of template branches
    else sections_of template branches ++ (render_errors (failures_of branches) ∷ [])

abbrev pub aggregate_concat : Text → List BranchOutcome → Result AggregatedArtifact AggregatorError
aggregate_concat template branches =
    if is_nil branches
    then ok (record { text = empty_concat_sentinel; successful = 0; failed = 0 })
    else ok (record {
      text = join (str "\n\n") (parts_of template branches) ++ str "\n";
      successful = length (sections_of template branches);
      failed = length (failures_of branches);
    })

-- `Aggregator::aggregate`
unfoldable pub aggregate :
    Aggregator → List BranchOutcome → Result AggregatedArtifact AggregatorError
aggregate first branches = aggregate_first branches
aggregate (concat template) branches = aggregate_concat template branches
aggregate any_fail branches =
    err (unsupported (str "AnyFail is evaluated inline by ParallelFanOut, not via aggregate()"))
aggregate all_pass branches = aggregate_all_pass branches
aggregate (llm_judge backend prompt require) branches =
    err (unsupported (str "LLMJudge requires async backend access; use aggregate_llm_judge()"))
aggregate (vote config) branches =
    err (unsupported (str "Vote is evaluated inline by ParallelFanOut, not via aggregate()"))
