-- ===== src/Tests/Phases.antt =====
-- Runs of src/family.rs, src/aggregator/vote.rs and src/run_state/order.rs on concrete inputs.
use loker.Prelude.{
  ℕ, ◌+◌, ◌≡◌, refl, false, some, List, [], ◌∷◌, err, map, leb, ◌&&◌, if◌then◌else◌, take,
}
use loker.Prelude.Text.{Text, str, trim, strip_prefix}
use loker.Prelude.Sorted.{update}
use loker.Family.{
  compare_family, family_of_name, family_of_suffix, open_ai, anthropic, family_from, family_of,
  family_overlap, enforce_cross_family,
}
use loker.Family.Distinct.{Checked, enforce_cross_family-Checked}
use loker.Aggregator.{BranchOutcome, success}
use loker.Aggregator.Vote.{Deps, VoteConfig, first_responder, normalise_ballot}
use loker.Aggregator.Vote.Tally.{aggregate_vote}
use loker.Aggregator.Vote.Ties.{InRange}
use loker.Aggregator.Vote.Elects.{ballots, Decided, aggregate_vote-Decided}
use loker.RunState.Order.{
  PhaseOrderGuard, new_guard, rank, manifest_appended, Call, call_started, call_artefact_written,
  call_manifest_appended, run_calls, mark_started, mark_artefact_written, mark_manifest_appended,
}
use loker.RunState.Order.Lifecycle.{lifecycle, Within, run_calls-order, run_calls-Within}

abbrev lower : ℕ → ℕ
lower c = if leb 65 c && leb c 90 then c + 32 else c

abbrev deps : Deps
deps = record { to_lowercase = map lower; random_range = λ seed n. 0 }

deps-InRange : InRange deps
deps-InRange = record { below = λ seed n h. h }

abbrev said : Text → ℕ → Text → BranchOutcome
said backend i output =
    success (record { backend_id = backend; family = []; index = i; output = output })

abbrev branches : List BranchOutcome
branches =
    said (str "claude") 1 (str "Yes")
    ∷ said (str "codex") 2 (str " yes\n")
    ∷ said (str "ollama") 3 (str "no")
    ∷ []

abbrev config : VoteConfig
config = record { tie_break = first_responder; abstain_threshold = 1 }

aggregate_vote-Decided_example :
    Decided (ballots deps branches) 3 1 (aggregate_vote deps branches config)
aggregate_vote-Decided_example = aggregate_vote-Decided deps deps-InRange branches config

ballots_run : ballots deps branches ≡ str "yes" ∷ str "yes" ∷ str "no" ∷ []
unfolding trim normalise_ballot
ballots_run = refl

abbrev backends : List Text
backends = str "codex" ∷ str "claude" ∷ str "tensorzero/openai" ∷ []

enforce_cross_family-Checked_example :
    Checked (map family_of backends) (enforce_cross_family backends)
enforce_cross_family-Checked_example = enforce_cross_family-Checked backends

enforce_cross_family_run : enforce_cross_family backends ≡ err (family_overlap open_ai 2)
unfolding enforce_cross_family update family_from strip_prefix compare_family family_of_name
enforce_cross_family_run = refl

family_of_run : family_of (str "tensorzero/loker_review_anthropic") ≡ anthropic
unfolding family_of family_from strip_prefix family_of_suffix
family_of_run = refl

abbrev three_calls : List Call
three_calls = call_started ∷ call_artefact_written ∷ call_manifest_appended ∷ []

abbrev appended : PhaseOrderGuard
appended = record { state = manifest_appended; phase = str "spec"; attempt = 1 }

run_calls-order_example : three_calls ≡ take 3 lifecycle
unfolding run_calls mark_started mark_artefact_written mark_manifest_appended
run_calls-order_example = run_calls-order three_calls (str "spec") 1 appended refl

run_calls-Within_example :
    (k : PhaseOrderGuard) × (run_calls false
        (call_artefact_written ∷ three_calls)
        (new_guard (str "spec") 1)
      ≡ some k)
    × Within (take (rank k.state) lifecycle) (call_artefact_written ∷ three_calls)
run_calls-Within_example = run_calls-Within (call_artefact_written ∷ three_calls) (str "spec") 1
