-- ===== src/Tests/Markers.antt =====
-- Markers at hand: their statuses in two orders, and plans of a resumption.
use loker.Prelude.{◌≡◌, refl, none, some, List, [], ◌∷◌, In, here, there, ok}
use loker.Prelude.Text.{Text, str, text_eq, strip_suffix, find, contains, starts_with}
use loker.Prelude.Assoc.{get, insert}
use loker.RunState.Load.{
  MarkerFile, status_rank, marker_phase, marker_status, update_phase_status, scan,
}
use loker.RunState.Load.Highest.{scan-order}
use loker.RunState.Resume.{
  PhaseAction, skip, resume, run_fresh, highest_started, highest_dir, next_attempt, plan,
}

abbrev started_twice : MarkerFile
started_twice = record {
  name = str "draft.started.1";
  manifest_entry_sha256 = none;
  attempt = some 1;
}

abbrev failed_once : MarkerFile
failed_once = record { name = str "draft.failed"; manifest_entry_sha256 = none; attempt = none }

abbrev done : MarkerFile
done = record {
  name = str "plan.completed";
  manifest_entry_sha256 = some (str "ab");
  attempt = none;
}

swap : (m a b : MarkerFile) → In m (a ∷ b ∷ []) → In m (b ∷ a ∷ [])
swap m a b here = there here
swap m a b (there here) = here
swap m a b (there (there p)) = elim p [ ]

scan-order_example :
    get (str "draft") (scan (started_twice ∷ failed_once ∷ []) [])
    ≡ get (str "draft") (scan (failed_once ∷ started_twice ∷ []) [])
scan-order_example =
    scan-order (started_twice ∷ failed_once ∷ []) (failed_once ∷ started_twice ∷ []) (str "draft")
      (λ m. (swap m started_twice failed_once, swap m failed_once started_twice))

abbrev markers : List MarkerFile
markers = failed_once ∷ done ∷ started_twice ∷ []

abbrev actions : List (Text × PhaseAction)
actions = (str "plan", skip) ∷ (str "draft", resume 2) ∷ (str "review", run_fresh) ∷ []

-- A started marker without an attempt in its name is resumed at attempt 0.
resumed_at_zero :
    plan
      (scan
        (record { name = str "draft.started"; manifest_entry_sha256 = none; attempt = some 0 } ∷ [])
        [])
      (record { name = str "draft.started"; manifest_entry_sha256 = none; attempt = some 0 } ∷ [])
      (λ p. [])
      (str "draft" ∷ [])
    ≡ ok ((str "draft", resume 0) ∷ [])
unfolding plan next_attempt highest_started highest_dir scan update_phase_status marker_phase
    marker_status status_rank get insert text_eq strip_suffix find contains starts_with
resumed_at_zero = refl
