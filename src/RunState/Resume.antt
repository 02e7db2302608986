-- ===== src/RunState/Resume.antt =====
-- src/resume.rs and `next_attempt` of src/run_state/markers.rs: which phases run again, and at which
-- attempt.
pub mod Above
pub mod Planned
use loker.Prelude.{
  ℕ, ◌+◌, ◌%◌, ◌^◌, Option, none, some, List, [], ◌∷◌, ◌++◌, if◌then◌else◌, ltb, Result, ok, err,
  ◌>>=◌,
}
use loker.Prelude.Text.{Text, str, starts_with}
use loker.Prelude.Assoc.{get}
use loker.RunState.Load.{PhaseStatus, started, completed, failed, no_status, MarkerFile, Statuses}

-- `map_or(true, |m| n > m)` and the assignment under it.
abbrev pub raise : Option ℕ → ℕ → Option ℕ
raise none n = some n
raise (some m) n = if ltb m n then some n else some m

-- A started marker that does not parse.
pub data MarkerError : Type 0 where
  unparsed : (name : Text) → MarkerError

abbrev pub with_attempt : Option ℕ → Text → Option ℕ → Result (Option ℕ) MarkerError
with_attempt none name highest = err (unparsed name)
with_attempt (some n) name highest = ok (raise highest n)

abbrev pub started_prefix : Text → Text
started_prefix phase = phase ++ str ".started."

-- The loop of `next_attempt_from_markers`.
unfoldable pub highest_started : Text → Option ℕ → List MarkerFile → Result (Option ℕ) MarkerError
highest_started phase highest [] = ok highest
highest_started phase highest (m ∷ markers) = do
  next ←
      if starts_with m.name (started_prefix phase)
      then with_attempt m.attempt m.name highest
      else ok highest
  highest_started phase next markers

-- The loop of `next_attempt_from_dirs`, over the directories whose name is a number.
unfoldable pub highest_dir : Option ℕ → List ℕ → Option ℕ
highest_dir highest [] = highest
highest_dir highest (n ∷ dirs) = highest_dir (raise highest n) dirs

-- `m + 1` on `u32`, as a release build computes it. A debug build panics where it wraps.
abbrev pub after_highest : Option ℕ → ℕ
after_highest none = 0
after_highest (some m) = (m + 1) % 2 ^ 32

abbrev pub max : ℕ → ℕ → ℕ
max a b = if ltb a b then b else a

-- `next_attempt`, on the markers and the numbers of the archived attempts.
unfoldable pub next_attempt : Text → List MarkerFile → (dirs : List ℕ) → Result ℕ MarkerError
next_attempt phase markers dirs = do
  highest ← highest_started phase none markers
  ok (max (after_highest highest) (after_highest (highest_dir none dirs)))

pub data PhaseAction : Type 0 where
  skip : PhaseAction
  resume : (next_attempt : ℕ) → PhaseAction
  run_fresh : PhaseAction

abbrev pub resumed : Result ℕ MarkerError → Result PhaseAction MarkerError
resumed (err e) = err e
resumed (ok n) = ok (resume n)

abbrev pub action_of : Option PhaseStatus → Result ℕ MarkerError → Result PhaseAction MarkerError
action_of none next = ok run_fresh
action_of (some completed) next = ok skip
action_of (some failed) next = resumed next
action_of (some started) next = resumed next
action_of (some no_status) next = ok run_fresh

-- The actions of `ResumePlanner::plan`, in the order of the phases.
unfoldable pub plan :
    Statuses
    → List MarkerFile
    → (dirs_of : Text → List ℕ) → List Text
    → Result (List (Text × PhaseAction)) MarkerError
plan statuses markers dirs_of [] = ok []
plan statuses markers dirs_of (phase ∷ phases) = do
  action ← action_of (get phase statuses) (next_attempt phase markers (dirs_of phase))
  rest ← plan statuses markers dirs_of phases
  ok ((phase, action) ∷ rest)
