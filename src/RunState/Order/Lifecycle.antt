-- ===== src/RunState/Order/Lifecycle.antt =====
-- Which calls bring the guard where.
use loker.Prelude.{
  ℕ, suc, ◌-◌, ◌≤◌, ◌≡◌, refl, sym, ap, subst, ◌∙◌, Bool, true, false, Option, none, some, List, [],
  ◌∷◌, take, drop, ◌==◌, if_ind, arith,
}
use loker.Prelude.Text.{Text}
use loker.RunState.Order.{
  PhaseState, idle, started, artefact_written, manifest_appended, completed, PhaseOrderGuard,
  new_guard, rank, transition, mark_started, mark_artefact_written, mark_manifest_appended,
  mark_completed, Call, call_started, call_artefact_written, call_manifest_appended, call_completed,
  perform, and_then, run_calls,
}

-- The canonical order.
abbrev pub lifecycle : List Call
lifecycle = call_started ∷ call_artefact_written ∷ call_manifest_appended ∷ call_completed ∷ []

-- The place of a call in it.
abbrev place : Call → ℕ
place call_started = 0
place call_artefact_written = 1
place call_manifest_appended = 2
place call_completed = 3

lifecycle-drop : (c : Call) → drop (place c) lifecycle ≡ c ∷ drop (suc (place c)) lifecycle
lifecycle-drop call_started = refl
lifecycle-drop call_artefact_written = refl
lifecycle-drop call_manifest_appended = refl
lifecycle-drop call_completed = refl

-- The canonical calls from one state to a later one.
abbrev between : PhaseOrderGuard → PhaseOrderGuard → List Call
between g h = take (rank h.state - rank g.state) (drop (rank g.state) lifecycle)

-- A call in its place brings the guard on by one.
data Move (c : Call) (debug : Bool) (g : PhaseOrderGuard) : Option PhaseOrderGuard → Type 0 where
  moved :
      (h : PhaseOrderGuard)
      → rank g.state ≡ place c
      → rank h.state ≡ suc (place c)
      → Move c debug g (some h)
  refused : debug ≡ true → Move c debug g none
  ignored : debug ≡ false → Move c debug g (some g)

transition-Move :
    (c : Call) (debug : Bool) (target expected : PhaseState) (g : PhaseOrderGuard)
    → rank expected ≡ place c
    → rank target ≡ suc (place c)
    → Move c debug g (transition debug target expected g)
unfolding transition
transition-Move c debug target expected g e t =
    if_ind (Move c debug g) (rank g.state == rank expected) _ _
      (λ h. moved (record g { state = target }) (ground arith) t)
      (λ h. if_ind (Move c debug g) debug _ _ (λ d. refused d) (λ d. ignored d))

perform-Move : (c : Call) (debug : Bool) (g : PhaseOrderGuard) → Move c debug g (perform debug c g)
unfolding mark_started mark_artefact_written mark_manifest_appended mark_completed
perform-Move call_started debug g = transition-Move call_started debug started idle g refl refl
perform-Move call_artefact_written debug g =
    transition-Move call_artefact_written debug artefact_written started g refl refl
perform-Move call_manifest_appended debug g =
    transition-Move call_manifest_appended debug manifest_appended artefact_written g refl refl
perform-Move call_completed debug g =
    transition-Move call_completed debug completed manifest_appended g refl refl

-- `xs` are calls of `ys`, in their order.
pub data Within : List Call → List Call → Type 0 where
  done : Within [] []
  skip : {xs ys : List Call} (y : Call) → Within xs ys → Within xs (y ∷ ys)
  keep : {xs ys : List Call} (y : Call) → Within xs ys → Within (y ∷ xs) (y ∷ ys)

-- One step ahead of the calls between two states.
between-step :
    (c : Call) (g h k : PhaseOrderGuard)
    → rank g.state ≡ place c
    → rank h.state ≡ suc (place c)
    → rank h.state ≤ rank k.state
    → between g k ≡ c ∷ between h k
between-step c g h k e f le = rw e (
    rw f (
      ap (λ n. take n (drop (place c) lifecycle)) count
      ∙ ap (λ cs. take (suc (rank k.state - suc (place c))) cs) (lifecycle-drop c)))
  where
    count : rank k.state - place c ≡ suc (rank k.state - suc (place c))
    count = omega arith

between-same : (g : PhaseOrderGuard) → between g g ≡ []
between-same g = ap (λ n. take n (drop (rank g.state) lifecycle)) none_left
  where
    none_left : rank g.state - rank g.state ≡ 0
    none_left = omega arith

abbrev Reaches : List Call → PhaseOrderGuard → Option PhaseOrderGuard → Type 0
Reaches calls g none = ⊥
Reaches calls g (some k) = (rank g.state ≤ rank k.state) × Within (between g k) calls

-- In a release build.
run_calls-Reaches :
    (calls : List Call) (g : PhaseOrderGuard) → Reaches calls g (run_calls false calls g)
unfolding run_calls
run_calls-Reaches [] g = (omega arith, subst (λ cs. Within cs []) (sym (between-same g)) done)
run_calls-Reaches (c ∷ calls) g =
    step (perform false c g) (perform-Move c false g) (λ h. run_calls-Reaches calls h)
  where
    after :
        (h : PhaseOrderGuard) (o : Option PhaseOrderGuard)
        → rank g.state ≡ place c
        → rank h.state ≡ suc (place c)
        → Reaches calls h o
        → Reaches (c ∷ calls) g o
    after h none e f r = r
    after h (some k) e f r = (
      omega (arith, r.0),
      subst (λ cs. Within cs (c ∷ calls)) (sym (between-step c g h k e f r.0)) (keep c r.1),
    )

    later : (o : Option PhaseOrderGuard) → Reaches calls g o → Reaches (c ∷ calls) g o
    later none r = r
    later (some k) r = (r.0, skip c r.1)

    step :
        (m : Option PhaseOrderGuard)
        → Move c false g m
        → ((h : PhaseOrderGuard) → Reaches calls h (run_calls false calls h))
        → Reaches (c ∷ calls) g (and_then m (λ h. run_calls false calls h))
    step _ (moved h e f) rest = after h (run_calls false calls h) e f (rest h)
    step _ (refused d) rest = cc
    step _ (ignored d) rest = later (run_calls false calls g) (rest g)

abbrev Exactly : List Call → PhaseOrderGuard → Option PhaseOrderGuard → Type 0
Exactly calls g none = Unit
Exactly calls g (some k) = (rank g.state ≤ rank k.state) × (between g k ≡ calls)

-- In a debug build.
run_calls-Exactly :
    (calls : List Call) (g : PhaseOrderGuard) → Exactly calls g (run_calls true calls g)
unfolding run_calls
run_calls-Exactly [] g = (omega arith, between-same g)
run_calls-Exactly (c ∷ calls) g =
    step (perform true c g) (perform-Move c true g) (λ h. run_calls-Exactly calls h)
  where
    after :
        (h : PhaseOrderGuard) (o : Option PhaseOrderGuard)
        → rank g.state ≡ place c
        → rank h.state ≡ suc (place c)
        → Exactly calls h o
        → Exactly (c ∷ calls) g o
    after h none e f r = tt
    after h (some k) e f r =
        (omega (arith, r.0), between-step c g h k e f r.0 ∙ ap (λ cs. c ∷ cs) r.1)

    step :
        (m : Option PhaseOrderGuard)
        → Move c true g m
        → ((h : PhaseOrderGuard) → Exactly calls h (run_calls true calls h))
        → Exactly (c ∷ calls) g (and_then m (λ h. run_calls true calls h))
    step _ (moved h e f) rest = after h (run_calls true calls h) e f (rest h)
    step _ (refused d) rest = tt
    step _ (ignored d) rest = cc

between-new :
    (phase : Text) (attempt : ℕ) (k : PhaseOrderGuard)
    → between (new_guard phase attempt) k ≡ take (rank k.state) lifecycle
between-new phase attempt k = ap (λ n. take n lifecycle) all_of_it
  where
    all_of_it : rank k.state - 0 ≡ rank k.state
    all_of_it = omega arith

-- In a debug build, calls that leave a new guard in a state without a panic are the calls of the
-- life cycle up to that state, in its order, none left out and none repeated.
pub run_calls-order :
    (calls : List Call) (phase : Text) (attempt : ℕ) (k : PhaseOrderGuard)
    → run_calls true calls (new_guard phase attempt) ≡ some k
    → calls ≡ take (rank k.state) lifecycle
run_calls-order calls phase attempt k e =
    sym
      (subst (Exactly calls (new_guard phase attempt)) e
        (run_calls-Exactly calls (new_guard phase attempt))).1
    ∙ between-new phase attempt k

-- In a release build any calls on a new guard leave it in a state, and the calls of the life cycle
-- up to that state stand among them in its order.
pub run_calls-Within :
    (calls : List Call) (phase : Text) (attempt : ℕ)
    → (k : PhaseOrderGuard) × (run_calls false calls (new_guard phase attempt) ≡ some k)
      × Within (take (rank k.state) lifecycle) calls
run_calls-Within calls phase attempt =
    go (run_calls false calls (new_guard phase attempt))
      (run_calls-Reaches calls (new_guard phase attempt))
  where
    go :
        (o : Option PhaseOrderGuard)
        → Reaches calls (new_guard phase attempt) o
        → (k : PhaseOrderGuard) × (o ≡ some k) × Within (take (rank k.state) lifecycle) calls
    go none r = absurd r
    go (some k) r = (k, refl, subst (λ cs. Within cs calls) (between-new phase attempt k) r.1)
