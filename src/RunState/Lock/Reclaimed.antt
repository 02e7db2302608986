-- ===== src/RunState/Lock/Reclaimed.antt =====
-- src/run_state/phase_lock.rs: a lock whose holder has crashed is taken over.
use loker.Prelude.{
  ℕ, Bool, false, Option, none, some, ap, inl, inr, List, [], ◌∷◌, ◌≡◌, refl, sym, subst, ◌∙◌, ◌==◌,
  ==_iff, Bool-cases, Result, ok, err,
}
use loker.Prelude.Text.{Text}
use loker.RunState.Lock.{
  Content, body, blank, corrupt, PhaseLockError, PhaseLockBody, is_lock_body_live,
  validate_phase_name, Caller, Env, Stage, idle, checked, opened, locked, truncated, written,
  holding, refused, State, Act, go, crash, put, look, begin, act_on, run, start,
}
use loker.RunState.Lock.{body_of, emptied, created}
use loker.RunState.Lock.Exclusive.{IsInside, start-IsOwned, run-IsOwned}

put_self : (who : ℕ) (stage : Stage) (stages : ℕ → Stage) → put who stage stages who ≡ stage
put_self who stage stages = rw ((==_iff who who).1 refl) refl

-- The surroundings in which no call fails.
abbrev pub calm : ℕ → Bool → Env
calm now gone = record { now = now; gone = gone; fails = false }

-- The six calls of `acquire`, one after the other.
abbrev pub attempt : ℕ → Env → List (ℕ × Act)
attempt who env =
    (who, go env)
    ∷ (who, go env)
    ∷ (who, go env)
    ∷ (who, go env)
    ∷ (who, go env)
    ∷ (who, go env)
    ∷ []

-- No body in the file is that of a live holder.
abbrev pub IsStale : ℕ → Bool → Option Content → Type 0
IsStale now gone content =
    (b : PhaseLockBody) → content ≡ some (body b) → is_lock_body_live now gone b ≡ false

module _ (phase : Text) (callers : ℕ → Caller) (who now : ℕ) (gone : Bool) where
  record Stands (stage : Stage) (owner : Option ℕ) (content : Option Content) (s : State)
      : Type 0 where
    pub stage_is : s.stages who ≡ stage
    pub owner_is : s.owner ≡ owner
    pub content_is : s.content ≡ content

  abbrev next : State → State
  next s = act_on phase callers (go (calm now gone)) who s

  look-checked :
      (content : Option Content)
      → IsStale now gone content
      → look phase callers (calm now gone) content ≡ checked
  look-checked none stale = refl
  look-checked (some blank) stale = refl
  look-checked (some corrupt) stale = refl
  look-checked (some (body b)) stale = rw (stale b refl) refl

  begin-checked :
      (content : Option Content)
      → validate_phase_name phase ≡ ok tt
      → IsStale now gone content
      → begin phase callers (calm now gone) content ≡ checked
  begin-checked content valid stale = by_name (validate_phase_name phase) valid
    where
      by_name :
          (r : Result (Unit {0}) PhaseLockError)
          → r ≡ ok tt
          → (elim r [ err e ↦ refused e | ok v ↦ look phase callers (calm now gone) content ])
            ≡ checked
      by_name (ok v) h = look-checked content stale
      by_name (err e) h = cc

  first :
      (s : State) (content : Option Content)
      → validate_phase_name phase ≡ ok tt
      → IsStale now gone content
      → Stands idle none content s
      → Stands checked none content (next s)
  first s content valid stale h = rw h.stage_is (record {
    stage_is = put_self who _ s.stages ∙ rw h.content_is (begin-checked content valid stale);
    owner_is = h.owner_is;
    content_is = h.content_is;
  })

  second :
      (s : State) (content : Option Content)
      → Stands checked none content s
      → Stands opened none (created phase callers content) (next s)
  second s content h = rw h.stage_is (record {
    stage_is = put_self who opened s.stages;
    owner_is = h.owner_is;
    content_is = ap (created phase callers) h.content_is;
  })

  third :
      (s : State) (content : Option Content)
      → Stands opened none content s
      → Stands locked (some who) content (next s)
  third s content h =
      rw (h.stage_is, h.owner_is)
        (record {
          stage_is = put_self who locked s.stages;
          owner_is = refl;
          content_is = h.content_is;
        })

  fourth :
      (s : State) (content : Option Content)
      → Stands locked (some who) content s
      → Stands truncated (some who) (emptied (calm now gone) content) (next s)
  fourth s content h = rw h.stage_is (record {
    stage_is = put_self who truncated s.stages;
    owner_is = h.owner_is;
    content_is = ap (emptied (calm now gone)) h.content_is;
  })

  fifth :
      (s : State) (content : Option Content)
      → Stands truncated (some who) content s
      → Stands written (some who) (some (body (body_of phase callers who now))) (next s)
  fifth s content h = rw h.stage_is (record {
    stage_is = put_self who written s.stages;
    owner_is = h.owner_is;
    content_is = refl;
  })

  sixth :
      (s : State) (content : Option Content)
      → Stands written (some who) content s
      → Stands holding (some who) content (next s)
  sixth s content h = rw h.stage_is (record {
    stage_is = put_self who holding s.stages;
    owner_is = h.owner_is;
    content_is = h.content_is;
  })

  acquire_alone :
      (s : State) (content : Option Content)
      → validate_phase_name phase ≡ ok tt
      → IsStale now gone content
      → Stands idle none content s
      → Stands holding
          (some who)
          (some (body (body_of phase callers who now)))
          (run phase callers (attempt who (calm now gone)) s)
  unfolding run
  acquire_alone s content valid stale h =
      sixth _ _ (fifth _ _ (fourth _ _ (third _ _ (second _ _ (first s content valid stale h)))))

-- Where a holder of the lock of a phase with a valid name crashes and no body in the file is that
-- of a live holder, a caller that has not begun gets the lock by the calls of `acquire`, if none of
-- them fails and no other caller comes between, and the file has its body.
pub run-crash_reclaimed :
    (phase : Text) (callers : ℕ → Caller) (events : List (ℕ × Act)) (content : Option Content)
    (p q now : ℕ) (gone : Bool)
    → validate_phase_name phase ≡ ok tt
    → (run phase callers events (start content)).stages p ≡ holding
    → (run phase callers events (start content)).stages q ≡ idle
    → IsStale now gone (run phase callers events (start content)).content
    → let s =
        run phase callers
          ((p, crash) ∷ attempt q (calm now gone))
          (run phase callers events (start content)) in
      (s.stages q ≡ holding) × (s.content ≡ some (body (body_of phase callers q now)))
unfolding run
run-crash_reclaimed phase callers events content p q now gone valid hp hq stale =
    let s = run phase callers events (start content) in
    let own =
      (run-IsOwned phase callers events (start content) (start-IsOwned phase callers content)).owned
        p (subst IsInside (sym hp) tt) in
    let apart : (q == p) ≡ false = elim (Bool-cases (q == p)) [
      | inl e ↦
          absurd (let one : idle ≡ holding = sym hq ∙ (ap s.stages ((==_iff q p).0 e) ∙ hp) in cc)
      | inr e ↦ e
    ] in
    let r =
      acquire_alone phase callers q now gone (act_on phase callers crash p s) s.content valid stale
        (record {
          stage_is = rw apart hq;
          owner_is = rw own (rw ((==_iff p p).1 refl) refl);
          content_is = refl;
        }) in
    (r.stage_is, r.content_is)
