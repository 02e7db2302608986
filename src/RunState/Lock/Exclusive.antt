-- ===== src/RunState/Lock/Exclusive.antt =====
-- src/run_state/phase_lock.rs: at most one caller has the lock of a phase, however the callers'
-- steps are interleaved.
use loker.Prelude.{
  ℕ, Option, none, some, ap, inl, inr, List, [], ◌∷◌, ◌≡◌, refl, sym, subst, ◌∙◌, if◌then◌else◌,
  ◌==◌, ==_iff, Bool-cases, if_ind, Result, ok, err,
}
use loker.Prelude.Text.{Text}
use loker.RunState.Lock.{
  Content, body, blank, corrupt, PhaseLockError, io_error, is_lock_body_live, in_use,
  validate_phase_name, Caller, Env, Stage, idle, checked, opened, locked, truncated, written,
  holding, cleared, unlocked, dropping, done, refused, State, Act, go, release, drop, crash, put,
  closed, look, begin, blocked, try_lock, advance, let_go, act_on, run, start,
}

-- From the lock being given to the caller until it is given back.
abbrev pub IsInside : Stage → Type 0
IsInside locked = Unit
IsInside truncated = Unit
IsInside written = Unit
IsInside holding = Unit
IsInside cleared = Unit
IsInside dropping = Unit
IsInside idle = ⊥
IsInside checked = ⊥
IsInside opened = ⊥
IsInside unlocked = ⊥
IsInside done = ⊥
IsInside (refused e) = ⊥

-- Who is inside has the operating system's lock.
pub record IsOwned (s : State) : Type 0 where
  pub owned : (q : ℕ) → IsInside (s.stages q) → s.owner ≡ some q

-- A caller that stays inside, or stays outside.
keeps :
    (who : ℕ) (stage : Stage) (s : State) (content : Option Content)
    → (IsInside stage → IsInside (s.stages who))
    → IsOwned s
    → IsOwned (record s { stages = put who stage s.stages; content = content })
keeps who stage s content inside h = record {
  owned = λ q i. elim (Bool-cases (q == who)) [
    | inl e ↦
        let same : q ≡ who = (==_iff q who).0 e in
        subst (λ x. s.owner ≡ some x) (sym same) (h.owned who (inside (rw e at i)))
    | inr e ↦ h.owned q (rw e at i)
  ];
}

-- A caller that leaves, and closes its file.
leaves :
    (who : ℕ) (stage : Stage) (s : State) (content : Option Content)
    → ¬ IsInside stage
    → IsOwned s
    → IsOwned
        (record { stages = put who stage s.stages; content = content; owner = closed who s.owner })
leaves who stage s content outside h = record {
  owned = λ q i. elim (Bool-cases (q == who)) [
    | inl e ↦ absurd (outside (rw e at i))
    | inr e ↦ let own : s.owner ≡ some q = h.owned q (rw e at i) in rw own (rw e refl)
  ];
}

-- A caller that enters, where nobody has the lock.
enters :
    (who : ℕ) (s : State)
    → s.owner ≡ none
    → IsOwned s
    → IsOwned (record s { stages = put who locked s.stages; owner = some who })
enters who s free h = record {
  owned = λ q i. elim (Bool-cases (q == who)) [
    | inl e ↦ ap some (sym ((==_iff q who).0 e))
    | inr e ↦
        (let own : s.owner ≡ some q = h.owned q (rw e at i) in
          absurd (let no : none ≡ some q = sym free ∙ own in cc))
  ];
}

module _ (phase : Text) (callers : ℕ → Caller) where
  look-outside :
      (env : Env) (content : Option Content) → ¬ IsInside (look phase callers env content)
  look-outside env none = λ i. i
  look-outside env (some blank) = λ i. i
  look-outside env (some corrupt) = λ i. i
  look-outside env (some (body b)) =
      if_ind (λ x. ¬ IsInside x) (is_lock_body_live env.now env.gone b) (refused (in_use phase b))
        checked (λ e i. i) (λ e i. i)

  pub begin-outside :
      (env : Env) (content : Option Content) → ¬ IsInside (begin phase callers env content)
  begin-outside env content = by_name (validate_phase_name phase)
    where
      by_name :
          (r : Result (Unit {0}) PhaseLockError)
          → ¬ IsInside (elim r [
            | err e ↦ refused e
            | ok valid ↦ if env.fails then refused io_error else look phase callers env content
          ])
      by_name (err e) = λ i. i
      by_name (ok valid) =
          if_ind (λ x. ¬ IsInside x) env.fails _ _ (λ e i. i) (λ e. look-outside env content)

  pub blocked-outside :
      (env : Env) (content : Option Content) → ¬ IsInside (blocked phase callers env content)
  blocked-outside env none = λ i. i
  blocked-outside env (some blank) = λ i. i
  blocked-outside env (some corrupt) = λ i. i
  blocked-outside env (some (body b)) = λ i. i

  try_lock-IsOwned :
      (env : Env) (who : ℕ) (owner : Option ℕ) (s : State)
      → s.owner ≡ owner
      → IsOwned s
      → IsOwned (try_lock phase callers env who owner s)
  try_lock-IsOwned env who none s e h =
      if_ind IsOwned env.fails _ _ (λ f. keeps who (refused io_error) s s.content (λ i. absurd i) h)
        (λ f. enters who s e h)
  try_lock-IsOwned env who (some q) s e h =
      keeps who _ s s.content (λ i. absurd (blocked-outside env s.content i)) h

  advance-IsOwned :
      (env : Env) (who : ℕ) (stage : Stage) (s : State)
      → s.stages who ≡ stage
      → IsOwned s
      → IsOwned (advance phase callers env who stage s)
  advance-IsOwned env who idle s at h =
      keeps who _ s s.content (λ i. absurd (begin-outside env s.content i)) h
  advance-IsOwned env who checked s at h =
      if_ind IsOwned env.fails _ _ (λ f. keeps who (refused io_error) s s.content (λ i. absurd i) h)
        (λ f. keeps who opened s _ (λ i. absurd i) h)
  advance-IsOwned env who opened s at h = try_lock-IsOwned env who s.owner s refl h
  advance-IsOwned env who locked s at h =
      if_ind IsOwned env.fails _ _ (λ f. leaves who (refused io_error) s s.content (λ i. i) h)
        (λ f. keeps who truncated s _ (λ i. subst IsInside (sym at) tt) h)
  advance-IsOwned env who truncated s at h =
      if_ind IsOwned env.fails _ _ (λ f. leaves who (refused io_error) s _ (λ i. i) h)
        (λ f. keeps who written s _ (λ i. subst IsInside (sym at) tt) h)
  advance-IsOwned env who written s at h =
      if_ind IsOwned env.fails _ _ (λ f. leaves who (refused io_error) s s.content (λ i. i) h)
        (λ f. keeps who holding s s.content (λ i. subst IsInside (sym at) tt) h)
  advance-IsOwned env who cleared s at h = leaves who unlocked s s.content (λ i. i) h
  advance-IsOwned env who unlocked s at h = keeps who done s _ (λ i. absurd i) h
  advance-IsOwned env who dropping s at h = leaves who done s s.content (λ i. i) h
  advance-IsOwned env who holding s at h = h
  advance-IsOwned env who done s at h = h
  advance-IsOwned env who (refused e) s at h = h

  let_go-IsOwned :
      (env : Env) (who : ℕ) (next stage : Stage) (s : State)
      → s.stages who ≡ stage
      → IsOwned s
      → IsOwned (let_go phase callers env who next stage s)
  let_go-IsOwned env who next holding s at h =
      keeps who next s _ (λ i. subst IsInside (sym at) tt) h
  let_go-IsOwned env who next _ s at h = h

  pub act_on-IsOwned :
      (act : Act) (who : ℕ) (s : State) → IsOwned s → IsOwned (act_on phase callers act who s)
  act_on-IsOwned (go env) who s h = advance-IsOwned env who (s.stages who) s refl h
  act_on-IsOwned (release env) who s h = let_go-IsOwned env who cleared (s.stages who) s refl h
  act_on-IsOwned (drop env) who s h = let_go-IsOwned env who dropping (s.stages who) s refl h
  act_on-IsOwned crash who s h = leaves who done s s.content (λ i. i) h

  pub run-IsOwned :
      (events : List (ℕ × Act)) (s : State) → IsOwned s → IsOwned (run phase callers events s)
  unfolding run
  run-IsOwned [] s h = h
  run-IsOwned (e ∷ events) s h =
      run-IsOwned events (act_on phase callers e.1 e.0 s) (act_on-IsOwned e.1 e.0 s h)

  pub start-IsOwned : (content : Option Content) → IsOwned (start content)
  start-IsOwned content = record { owned = λ q i. absurd i }

  -- However the steps of the callers are interleaved, with crashes and failures of calls among
  -- them, and whatever the lock file held before, two callers that hold the lock are one.
  pub run-exclusive :
      (events : List (ℕ × Act)) (content : Option Content) (p q : ℕ)
      → (run phase callers events (start content)).stages p ≡ holding
      → (run phase callers events (start content)).stages q ≡ holding
      → p ≡ q
  run-exclusive events content p q hp hq =
      let h = run-IsOwned events (start content) (start-IsOwned content) in
      let own_p = h.owned p (subst IsInside (sym hp) tt) in
      let own_q = h.owned q (subst IsInside (sym hq) tt) in
      let same : some p ≡ some q = sym own_p ∙ own_q in cc
