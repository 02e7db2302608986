-- ===== src/RunState/Lock/Recorded.antt =====
-- src/run_state/phase_lock.rs: what the lock file says of the caller that has the lock.
use loker.Prelude.{
  ℕ, true, false, Option, none, some, inl, inr, List, [], ◌∷◌, ◌≡◌, refl, sym, subst, ◌∙◌, ◌==◌,
  ==_iff, Bool-cases, if_ind, Result, ok, err,
}
use loker.Prelude.Text.{Text}
use loker.RunState.Lock.{
  Content, body, PhaseLockError, PhaseLockBody, io_error, validate_phase_name, Caller, Env, Stage,
  idle, checked, opened, locked, truncated, written, holding, cleared, unlocked, dropping, done,
  refused, State, Act, go, release, drop, crash, put, try_lock, advance, let_go, act_on, run, start,
}
use loker.RunState.Lock.{body_of, created, inspect}
use loker.RunState.Lock.Exclusive.{
  IsInside, IsOwned, begin-outside, blocked-outside, start-IsOwned, act_on-IsOwned,
}

-- The caller has written its body, and has the lock still.
abbrev IsWritten : Stage → Type 0
IsWritten written = Unit
IsWritten holding = Unit
IsWritten idle = ⊥
IsWritten checked = ⊥
IsWritten opened = ⊥
IsWritten locked = ⊥
IsWritten truncated = ⊥
IsWritten cleared = ⊥
IsWritten unlocked = ⊥
IsWritten dropping = ⊥
IsWritten done = ⊥
IsWritten (refused e) = ⊥

IsWritten-IsInside : (stage : Stage) → IsWritten stage → IsInside stage
IsWritten-IsInside written h = tt
IsWritten-IsInside holding h = tt
IsWritten-IsInside _ h = absurd h

module _ (phase : Text) (callers : ℕ → Caller) where
  -- The file says that `q` has the lock.
  abbrev Says : ℕ → Option Content → Type 0
  Says q content = (t : ℕ) × (content ≡ some (body (body_of phase callers q t)))

  record IsRecorded (s : State) : Type 0 where
    pub recorded : (q : ℕ) → IsWritten (s.stages q) → Says q s.content

  -- The file is as before for all but the caller, which was not inside or has a body of its own.
  changes :
      (who : ℕ) (stage : Stage) (s : State) (content : Option Content) (owner : Option ℕ)
      → (IsWritten stage → Says who content)
      → ((q : ℕ) → (q == who) ≡ false → IsWritten (s.stages q) → Says q content)
      → IsRecorded (record { stages = put who stage s.stages; content = content; owner = owner })
  changes who stage s content owner own others = record {
    recorded = λ q w. elim (Bool-cases (q == who)) [
      | inl e ↦ subst (λ x. Says x content) (sym ((==_iff q who).0 e)) (own (rw e at w))
      | inr e ↦ others q e (rw e at w)
    ];
  }

  -- A caller that is inside may change the file: no other has written a body that still holds.
  inside-changes :
      (who : ℕ) (stage : Stage) (s : State) (content : Option Content) (owner : Option ℕ)
      → IsInside (s.stages who)
      → (IsWritten stage → Says who content)
      → IsOwned s
      → IsRecorded (record { stages = put who stage s.stages; content = content; owner = owner })
  inside-changes who stage s content owner inside own h =
      changes who stage s content owner own (λ q e w.
        let a : s.owner ≡ some q = h.owned q (IsWritten-IsInside (s.stages q) w) in
        let b : s.owner ≡ some who = h.owned who inside in
        let same : some q ≡ some who = sym a ∙ b in
        let eq : q ≡ who = cc in
        let no : (q == who) ≡ true = (==_iff q who).1 eq in
        absurd (let off : true ≡ false = sym no ∙ e in cc))

  -- A step that leaves the file alone.
  stays :
      (who : ℕ) (stage : Stage) (s : State) (owner : Option ℕ)
      → (IsWritten stage → IsWritten (s.stages who))
      → IsRecorded s
      → IsRecorded (record { stages = put who stage s.stages; content = s.content; owner = owner })
  stays who stage s owner before r =
      changes who stage s s.content owner (λ w. r.recorded who (before w)) (λ q e w. r.recorded q w)

  created-Says :
      (q : ℕ) (content : Option Content) → Says q content → Says q (created phase callers content)
  created-Says q none h = absurd (let (t, e) = h in cc)
  created-Says q (some c) h = h

  try_lock-IsRecorded :
      (env : Env) (who : ℕ) (owner : Option ℕ) (s : State)
      → IsRecorded s
      → IsRecorded (try_lock phase callers env who owner s)
  try_lock-IsRecorded env who none s r =
      if_ind IsRecorded env.fails _ _
        (λ f. stays who (refused io_error) s s.owner (λ w. absurd w) r)
        (λ f. stays who locked s (some who) (λ w. absurd w) r)
  try_lock-IsRecorded env who (some q) s r =
      stays who _ s s.owner
        (λ w. absurd (blocked-outside phase callers env s.content (IsWritten-IsInside _ w))) r

  advance-IsRecorded :
      (env : Env) (who : ℕ) (stage : Stage) (s : State)
      → s.stages who ≡ stage
      → (stage ≡ unlocked → (q : ℕ) → ¬ IsInside (s.stages q))
      → IsOwned s
      → IsRecorded s
      → IsRecorded (advance phase callers env who stage s)
  advance-IsRecorded env who idle s at quiet h r =
      stays who _ s s.owner
        (λ w. absurd (begin-outside phase callers env s.content (IsWritten-IsInside _ w))) r
  advance-IsRecorded env who checked s at quiet h r =
      if_ind IsRecorded env.fails _ _
        (λ f. stays who (refused io_error) s s.owner (λ w. absurd w) r)
        (λ f.
          changes who opened s _ s.owner (λ w. absurd w)
            (λ q e w. created-Says q s.content (r.recorded q w)))
  advance-IsRecorded env who opened s at quiet h r = try_lock-IsRecorded env who s.owner s r
  advance-IsRecorded env who locked s at quiet h r =
      let inside : IsInside (s.stages who) = subst IsInside (sym at) tt in
      if_ind IsRecorded env.fails _ _
        (λ f. inside-changes who (refused io_error) s _ _ inside (λ w. absurd w) h)
        (λ f. inside-changes who truncated s _ _ inside (λ w. absurd w) h)
  advance-IsRecorded env who truncated s at quiet h r =
      let inside : IsInside (s.stages who) = subst IsInside (sym at) tt in
      if_ind IsRecorded env.fails _ _
        (λ f. inside-changes who (refused io_error) s _ _ inside (λ w. absurd w) h)
        (λ f. inside-changes who written s _ _ inside (λ w. (env.now, refl)) h)
  advance-IsRecorded env who written s at quiet h r =
      if_ind IsRecorded env.fails _ _ (λ f. stays who (refused io_error) s _ (λ w. absurd w) r)
        (λ f. stays who holding s s.owner (λ w. subst IsWritten (sym at) tt) r)
  advance-IsRecorded env who cleared s at quiet h r = stays who unlocked s _ (λ w. absurd w) r
  advance-IsRecorded env who unlocked s at quiet h r =
      changes who done s _ s.owner (λ w. absurd w)
        (λ q e w. absurd (quiet refl q (IsWritten-IsInside (s.stages q) w)))
  advance-IsRecorded env who dropping s at quiet h r = stays who done s _ (λ w. absurd w) r
  advance-IsRecorded env who holding s at quiet h r = r
  advance-IsRecorded env who done s at quiet h r = r
  advance-IsRecorded env who (refused e) s at quiet h r = r

  let_go-IsRecorded :
      (env : Env) (who : ℕ) (next stage : Stage) (s : State)
      → ¬ IsWritten next
      → s.stages who ≡ stage
      → IsOwned s
      → IsRecorded s
      → IsRecorded (let_go phase callers env who next stage s)
  let_go-IsRecorded env who next holding s n at h r =
      inside-changes who next s _ _ (subst IsInside (sym at) tt) (λ w. absurd (n w)) h
  let_go-IsRecorded env who next _ s n at h r = r

  act_on-IsRecorded :
      (act : Act) (who : ℕ) (s : State)
      → (s.stages who ≡ unlocked → (q : ℕ) → ¬ IsInside (s.stages q))
      → IsOwned s
      → IsRecorded s
      → IsRecorded (act_on phase callers act who s)
  act_on-IsRecorded (go env) who s quiet h r =
      advance-IsRecorded env who (s.stages who) s refl quiet h r
  act_on-IsRecorded (release env) who s quiet h r =
      let_go-IsRecorded env who cleared (s.stages who) s (λ w. w) refl h r
  act_on-IsRecorded (drop env) who s quiet h r =
      let_go-IsRecorded env who dropping (s.stages who) s (λ w. w) refl h r
  act_on-IsRecorded crash who s quiet h r = stays who done s _ (λ w. absurd w) r

  -- No caller makes the last step of `release`, the truncation by `drop`, while another is inside.
  abbrev pub IsQuiet : List (ℕ × Act) → State → Type 0
  IsQuiet [] s = Unit
  IsQuiet (e ∷ events) s =
      (s.stages e.0 ≡ unlocked → (q : ℕ) → ¬ IsInside (s.stages q))
      × IsQuiet events (act_on phase callers e.1 e.0 s)

  run-IsRecorded :
      (events : List (ℕ × Act)) (s : State)
      → IsQuiet events s
      → IsOwned s
      → IsRecorded s
      → IsRecorded (run phase callers events s)
  unfolding run
  run-IsRecorded [] s quiet h r = r
  run-IsRecorded (e ∷ events) s quiet h r =
      run-IsRecorded events (act_on phase callers e.1 e.0 s) quiet.1
        (act_on-IsOwned phase callers e.1 e.0 s h) (act_on-IsRecorded e.1 e.0 s quiet.0 h r)

  inspect-body :
      (content : Option Content) (b : PhaseLockBody)
      → validate_phase_name phase ≡ ok tt
      → content ≡ some (body b)
      → inspect phase content ≡ ok (some b)
  unfolding inspect
  inspect-body content b valid e = rw e (by_name (validate_phase_name phase) valid)
    where
      by_name :
          (r : Result (Unit {0}) PhaseLockError)
          → r ≡ ok tt
          → ◌≡◌ {A = Result (Option PhaseLockBody) PhaseLockError}
              (elim r [ err e ↦ err e | ok valid ↦ ok (some b) ])
              (ok (some b))
      by_name (ok v) h = refl
      by_name (err e) h = cc

  -- `inspect` gives the body of the caller that holds the lock, with the time at which it wrote it,
  -- in every run of a phase with a valid name in which no caller makes the last step of `release`,
  -- the truncation by `drop`, while another has the lock.
  pub inspect-run :
      (events : List (ℕ × Act)) (content : Option Content) (p : ℕ)
      → validate_phase_name phase ≡ ok tt
      → IsQuiet events (start content)
      → (run phase callers events (start content)).stages p ≡ holding
      → (t : ℕ) × (inspect phase (run phase callers events (start content)).content
          ≡ ok (some (body_of phase callers p t)))
  inspect-run events content p valid quiet at =
      let none_yet : IsRecorded (start content) = record { recorded = λ q w. absurd w } in
      let r =
        run-IsRecorded events (start content) quiet (start-IsOwned phase callers content)
          none_yet in
      let (t, e) = r.recorded p (subst IsWritten (sym at) tt) in
      (t, inspect-body (run phase callers events (start content)).content _ valid e)
