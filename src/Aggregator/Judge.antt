-- ===== src/Aggregator/Judge.antt =====
-- src/aggregator/llm_judge.rs: another model chooses among the candidates.
pub mod Checks
pub mod Choice
use loker.Prelude.{
  ℕ, suc, ◌-◌, ◌==◌, Bool, true, false, ◌&&◌, Option, none, some, List, [], ◌∷◌, ◌++◌, map,
  if◌then◌else◌, is_nil, length, take, drop, ltb, get_elem?, Result, ok, err, ◌>>=◌, match_result,
}
use loker.Prelude.Text.{Text, str, trim, find, text_eq}
use loker.Prelude.Decimal.{decimal}
use loker.Family.{Family, family_of, same_family, as_str}
use loker.Strategy.{BackendError, QueryOutput}
use loker.Strategy.Escalating.{Backend}
use loker.Aggregator.{BranchSuccess, AggregatedArtifact}
use loker.Aggregator.Verdict.{Json, strip_markdown_fences}

pub record Candidate : Type 0 where
  pub index : ℕ
  pub backend_id : Text
  pub family : Text
  pub output : Text

-- `Candidate::from_branch_success`
abbrev pub from_branch_success : BranchSuccess → Candidate
from_branch_success s = record {
  index = s.index;
  backend_id = s.backend_id;
  family = s.family;
  output = s.output;
}

pub record Ballot : Type 0 where
  pub chosen_index : ℕ
  pub reason : Text

pub data LlmJudgeError : Type 0 where
  family_overlap : (judge candidate family : Text) → LlmJudgeError
  backend_not_found : Text → LlmJudgeError
  judge_call : BackendError → LlmJudgeError
  contract : (message : Text) → LlmJudgeError
  -- The panic of an index out of range.
  out_of_range : LlmJudgeError

-- `candidates.iter().find(|candidate| family_of(&candidate.backend_id) == judge_family)`
unfoldable pub overlapping : Family → List BranchSuccess → Option BranchSuccess
overlapping judge [] = none
overlapping judge (c ∷ candidates) =
    let rest = overlapping judge candidates in
    if same_family (family_of c.backend_id) judge then some c else rest

-- The loop of `check_cross_family`, whose first overlap is an error where families have to differ.
unfoldable pub check_candidates : Text → Bool → List BranchSuccess → Result (Unit {0}) LlmJudgeError
check_candidates judge require_different [] = ok tt
check_candidates judge require_different (c ∷ candidates) =
    let rest = check_candidates judge require_different candidates in
    if same_family (family_of c.backend_id) (family_of judge) && require_different
    then err (family_overlap judge c.backend_id (as_str (family_of judge)))
    else rest

abbrev pub check_cross_family : Text → List BranchSuccess → Bool → Result (Unit {0}) LlmJudgeError
check_cross_family judge candidates require_different =
    check_candidates judge require_different candidates

-- `s.rfind(c)`, from the position `i` on.
unfoldable pub rfind_from : ℕ → ℕ → Text → Option ℕ
rfind_from i c [] = none
rfind_from i c (d ∷ s) =
    let later = rfind_from (suc i) c s in
    elim later [ none ↦ if d == c then some i else none | some k ↦ some k ]

-- `&stripped[start..=end]` where both braces are there and in order.
abbrev pub braced : Option ℕ → Option ℕ → Text → Option Text
braced (some start) (some end) s =
    if ltb start end then some (drop start (take (suc end) s)) else none
braced _ _ s = none

abbrev pub clamp_chosen_index : (chosen_index candidate_count : ℕ) → ℕ
clamp_chosen_index chosen count =
    if count == 0 then 0 else if ltb (count - 1) chosen then count - 1 else chosen

module _ {V : Type 0} (json : Json V) where
  -- The value of the whole text, else of what is between the outer braces.
  abbrev pub braced_value : Option Text → Result V Text
  braced_value none = err (str "invalid JSON payload")
  braced_value (some t) = json.from_str t

  abbrev pub value_of : Result V Text → Text → Result V Text
  value_of (ok v) stripped = ok v
  value_of (err e) stripped =
      braced_value (braced (find stripped (str "{")) (rfind_from 0 125 stripped) stripped)

  abbrev pub and_then : Option V → {A : Type 0} → (V → Option A) → Option A
  and_then none f = none
  and_then (some v) f = f v

  abbrev pub ballot_of : Option ℕ → Option Text → Result Ballot LlmJudgeError
  ballot_of none reason = err (contract (str "missing or non-integer 'chosen_index'"))
  ballot_of (some i) none = err (contract (str "missing or non-string 'reason'"))
  ballot_of (some i) (some reason) = ok (record { chosen_index = i; reason = reason })

  abbrev pub ballot_in : Result V Text → Result Ballot LlmJudgeError
  ballot_in (err e) = err (contract (str "JSON parse error: " ++ e))
  ballot_in (ok v) =
      ballot_of (and_then (json.get v (str "chosen_index")) json.as_u64)
        (and_then (json.get v (str "reason")) json.as_str)

  unfoldable pub parse_ballot : Text → Result Ballot LlmJudgeError
  parse_ballot text =
      let stripped = strip_markdown_fences (trim text) in
      ballot_in (value_of (json.from_str stripped) stripped)

-- The template engine on the ballot, which may fail with its message.
abbrev pub Render : Type 0
Render = Text → List Candidate → Result Text Text

abbrev pub rendered : Result Text Text → Result Text LlmJudgeError
rendered (ok t) = ok t
rendered (err e) = err (contract (str "template render failed: " ++ e))

abbrev pub render_ballot_prompt : Render → Text → List BranchSuccess → Result Text LlmJudgeError
render_ballot_prompt render template candidates =
    rendered (render template (map from_branch_success candidates))

-- The warning at the end of the text, where the families may be the same.
abbrev pub overlap_warning : (judge : Text) → Bool → Option BranchSuccess → Text
overlap_warning judge require_different none = []
overlap_warning judge require_different (some c) =
    if require_different
    then []
    else str "\n<!-- loker: warning judge family '"
      ++ (as_str (family_of judge)
          ++ (str "' shares family with candidate '"
              ++ (c.backend_id ++ str "' but require_judge_different_family=false -->")))

abbrev pub chosen_text : BranchSuccess → (reason : Text) → Text
chosen_text c reason =
    c.output
    ++ (str "\n\n<!-- loker: LLMJudge chose candidate "
        ++ (decimal c.index ++ (str " (" ++ (c.backend_id ++ (str ") -->\n" ++ reason)))))

-- `&candidates[index]`
abbrev pub at_index : Option BranchSuccess → Result BranchSuccess LlmJudgeError
at_index (some c) = ok c
at_index none = err out_of_range

module _ {V : Type 0} (json : Json V) where
  -- What is made of the judge's answer.
  abbrev pub chosen :
      (judge : Text)
      → Bool
      → List BranchSuccess
      → QueryOutput
      → Result AggregatedArtifact LlmJudgeError
  chosen judge require_different candidates answer = do
    ballot ← parse_ballot json answer.stdout
    c ← at_index (get_elem? candidates (clamp_chosen_index ballot.chosen_index (length candidates)))
    ok (record {
      text =
          chosen_text c ballot.reason
          ++ overlap_warning judge require_different (overlapping (family_of judge) candidates);
      successful = length candidates;
      failed = 0;
    })

module _ {W : Type 0} where
  unfoldable pub find_backend : Text → List (Backend W) → Option (Backend W)
  find_backend name [] = none
  find_backend name (b ∷ bs) =
      let rest = find_backend name bs in if text_eq b.name name then some b else rest

  abbrev pub ask :
      Option (Backend W)
      → (judge prompt : Text) → (QueryOutput → Result AggregatedArtifact LlmJudgeError)
      → W
      → Result AggregatedArtifact LlmJudgeError × W
  ask none judge prompt use_answer w = (err (backend_not_found judge), w)
  ask (some b) judge prompt use_answer w =
      match_result (b.query prompt none w) (λ answer w'. (use_answer answer, w'))
        (λ e w'. (err (judge_call e), w'))

  abbrev pub with_prompt :
      Result Text LlmJudgeError
      → (Text → W → Result AggregatedArtifact LlmJudgeError × W)
      → W
      → Result AggregatedArtifact LlmJudgeError × W
  with_prompt (err e) next w = (err e, w)
  with_prompt (ok prompt) next w = next prompt w

  abbrev pub with_families :
      Result (Unit {0}) LlmJudgeError
      → (W → Result AggregatedArtifact LlmJudgeError × W)
      → W
      → Result AggregatedArtifact LlmJudgeError × W
  with_families (err e) next w = (err e, w)
  with_families (ok u) next w = next w

module _ {V W : Type 0} (json : Json V) (render : Render) where
  unfoldable pub aggregate_llm_judge :
      (candidates : List BranchSuccess) (judge template : Text) (require_different : Bool)
      (backends : List (Backend W))
      → W
      → Result AggregatedArtifact LlmJudgeError × W
  aggregate_llm_judge [] judge template require_different backends w =
      (err (contract (str "no candidates available for judge decision")), w)
  aggregate_llm_judge (c ∷ candidates) judge template require_different backends w =
      with_families (check_cross_family judge (c ∷ candidates) require_different)
        (λ w1.
          with_prompt (render_ballot_prompt render template (c ∷ candidates))
            (λ prompt w2.
              ask (find_backend judge backends) judge prompt
                (chosen json judge require_different (c ∷ candidates)) w2)
            w1)
        w
