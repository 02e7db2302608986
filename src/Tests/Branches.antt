-- ===== src/Tests/Branches.antt =====
-- Branches at hand: headings, folding, a judge and a fan-out.
use loker.Prelude.{ℕ, ◌≡◌, refl, true, none, some, List, [], ◌∷◌, ok, err}
use loker.Prelude.Text.{Text, str}
use loker.Prelude.Decimal.{decimal, digits}
use loker.ApplyVerify.Files.{cur_dir}
use loker.Strategy.{QueryOutput, timeout}
use loker.Strategy.Escalating.{Backend, PhaseContext}
use loker.Aggregator.{BranchSuccess, BranchFailure, success, failure}
use loker.Aggregator.Concat.{first, aggregate, first_from, render_heading}
use loker.Aggregator.Concat.Heading.{
  Piece, literal, backend_id, index, other, print_pieces, fill_pieces, render_heading-print,
}
use loker.Aggregator.Concat.Folded.{Aggregated, aggregate-Aggregated}
use loker.Aggregator.Verdict.{Json}
use loker.Aggregator.Judge.{aggregate_llm_judge}
use loker.Aggregator.Judge.Choice.{Judged, aggregate_llm_judge-Judged}
use loker.Aggregator.Vote.{Deps}
use loker.Strategy.FanOut.{ParallelFanOut, FanTexts, Arrival}
use loker.Tests.Disk.{Disk}

abbrev pieces : List Piece
pieces = literal (str "## ") ∷ index ∷ literal (str " ") ∷ backend_id ∷ other (str "x") ∷ []

render_heading-print_example :
    render_heading (str "## {index} {backend_id}{x}") (str "codex") (str "openai") 2
    ≡ str "## 2 codex{x}"
unfolding print_pieces fill_pieces decimal digits
render_heading-print_example = render_heading-print (str "codex") (str "openai") 2 pieces (
  (refl, (refl, (refl, tt))),
  (tt, ((refl, tt), (tt, (((refl, tt), (λ e. cc), (λ e. cc), (λ e. cc)), tt)))),
)

abbrev yes : BranchSuccess
yes = record { backend_id = str "codex"; family = str "openai"; index = 1; output = str "yes" }

abbrev late : BranchFailure
late = record {
  backend_id = str "claude";
  family = str "anthropic";
  index = 2;
  reason = str "timed out";
}

aggregate-Aggregated_example :
    Aggregated
      (failure late ∷ success yes ∷ [])
      first
      (ok (record { text = str "yes"; successful = 1; failed = 1 }))
unfolding aggregate first_from
aggregate-Aggregated_example = aggregate-Aggregated first (failure late ∷ success yes ∷ [])

-- A value is a number, and every text is the number 1.
abbrev json : Json ℕ
json = record {
  from_str = λ t. ok 1;
  get = λ v t. some v;
  as_bool = λ v. some true;
  as_u64 = λ v. some v;
  as_str = λ v. some (str "best");
  display = λ v. str "1";
}

abbrev answer : Text → QueryOutput
answer t = record { stdout = t; model = none; duration = 5; usage = none }

abbrev claude : Backend Disk
claude = record { name = str "claude"; query = λ prompt model w. (ok (answer (str "{}")), w) }

abbrev codex : Backend Disk
codex = record { name = str "codex"; query = λ prompt model w. (ok (answer (str "yes")), w) }

abbrev empty : Disk
empty p = none

aggregate_llm_judge-Judged_example :
    Judged json
      (λ t cs. ok t)
      (yes ∷ [])
      (str "claude")
      true
      (claude ∷ [])
      empty
      (aggregate_llm_judge json
        (λ t cs. ok t)
        (yes ∷ [])
        (str "claude")
        (str "choose")
        true
        (claude ∷ [])
        empty)
aggregate_llm_judge-Judged_example =
    aggregate_llm_judge-Judged json (λ t cs. ok t) (yes ∷ []) (str "claude") (str "choose") true
      (claude ∷ []) empty

abbrev fan : ParallelFanOut
fan = record {
  targets =
      record { backend = str "codex"; model = none }
      ∷ record { backend = str "claude"; model = none }
      ∷ [];
  min_responses = 2;
  prompt_template = str "go";
  aggregator = first;
}

abbrev ctx : PhaseContext
ctx = record { phase_name = str "draft"; run_id = 7; cwd = cur_dir ∷ []; model = none }

abbrev texts : FanTexts
texts = record {
  create_failed = λ p e. str "create";
  write_failed = λ p e. str "write";
  display = λ e. str "error";
}

abbrev vote_deps : Deps
vote_deps = record { to_lowercase = λ t. t; random_range = λ seed n. 0 }

-- One answer and one error, below the floor of two.
abbrev arrivals : List Arrival
arrivals =
    record {
      idx = 1;
      target = record { backend = str "claude"; model = none };
      result = err (timeout (str "late"));
    }
    ∷ record {
      idx = 0;
      target = record { backend = str "codex"; model = none };
      result = ok (answer (str "yes"));
    }
    ∷ []
