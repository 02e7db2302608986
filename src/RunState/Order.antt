-- ===== src/RunState/Order.antt =====
-- src/run_state/order.rs: the guard on the life cycle of a phase.
pub mod Lifecycle
use loker.Prelude.{ℕ, Bool, true, false, Option, none, some, List, [], ◌∷◌, ◌==◌, if◌then◌else◌}
use loker.Prelude.Text.{Text}

pub data PhaseState : Type 0 where
  idle started artefact_written manifest_appended completed : PhaseState

pub record PhaseOrderGuard : Type 0 where
  pub state : PhaseState
  pub phase : Text
  pub attempt : ℕ

abbrev pub new_guard : Text → ℕ → PhaseOrderGuard
new_guard phase attempt = record { state = idle; phase = phase; attempt = attempt }

-- The place of a state in the life cycle, by which two states are compared.
abbrev pub rank : PhaseState → ℕ
rank idle = 0
rank started = 1
rank artefact_written = 2
rank manifest_appended = 3
rank completed = 4

-- `transition`. A debug build panics at a call out of order, which is `none`; a release build
-- returns without a change. The message is left out.
unfoldable pub transition :
    (debug : Bool)
    → (target expected_current : PhaseState) → PhaseOrderGuard
    → Option PhaseOrderGuard
transition debug target expected_current guard =
    if rank guard.state == rank expected_current
    then some (record guard { state = target })
    else if debug
    then none
    else some guard

unfoldable pub mark_started : Bool → PhaseOrderGuard → Option PhaseOrderGuard
unfolding transition
mark_started debug guard = transition debug started idle guard

unfoldable pub mark_artefact_written : Bool → PhaseOrderGuard → Option PhaseOrderGuard
unfolding transition
mark_artefact_written debug guard = transition debug artefact_written started guard

unfoldable pub mark_manifest_appended : Bool → PhaseOrderGuard → Option PhaseOrderGuard
unfolding transition
mark_manifest_appended debug guard = transition debug manifest_appended artefact_written guard

unfoldable pub mark_completed : Bool → PhaseOrderGuard → Option PhaseOrderGuard
unfolding transition
mark_completed debug guard = transition debug completed manifest_appended guard

-- The calls of the guard that a phase makes, one after the other.
pub data Call : Type 0 where
  call_started call_artefact_written call_manifest_appended call_completed : Call

abbrev pub perform : Bool → Call → PhaseOrderGuard → Option PhaseOrderGuard
perform debug call_started guard = mark_started debug guard
perform debug call_artefact_written guard = mark_artefact_written debug guard
perform debug call_manifest_appended guard = mark_manifest_appended debug guard
perform debug call_completed guard = mark_completed debug guard

abbrev pub and_then :
    Option PhaseOrderGuard → (PhaseOrderGuard → Option PhaseOrderGuard) → Option PhaseOrderGuard
and_then none next = none
and_then (some guard) next = next guard

unfoldable pub run_calls : Bool → List Call → PhaseOrderGuard → Option PhaseOrderGuard
run_calls debug [] guard = some guard
run_calls debug (call ∷ calls) guard =
    and_then (perform debug call guard) (λ guard'. run_calls debug calls guard')
