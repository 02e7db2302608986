-- ===== src/Strategy/Escalating/Climbed.antt =====
-- What a climb of the ladder comes to, and what one rung of it does.
use loker.Prelude.{
  ℕ, ◌≡◌, ◌≢◌, refl, sym, ap, subst, true, Option, none, some, List, [], ◌∷◌, ◌++◌, map, All, In,
  if_ind, is_nil, Result, ok, err, match_result_ind, ltb, ◌&&◌, ◌||◌, inl, inr, ◌⊎◌,
}
use loker.Prelude.Text.{Text, text_eq}
use loker.Prelude.TextOrd.{text_eq-eq}
use loker.ApplyVerify.Files.{PathBuf, IoError, FileSystem, join, parent}
use loker.ApplyVerify.DiffApplier.{make_dir}
use loker.Strategy.{
  BackendError, execution_failed, QueryOutput, Tier, succeeded, exhausted, pass, Attempt,
  StrategyOutput, StrategyError, backend_not_found, no_backends, prompt_render, backend_error,
  all_exhausted,
}
use loker.Strategy.Envelope.{FailureContext}
use loker.Strategy.Envelope.Bounds.{build_failure_envelope-byte_len}
use loker.Strategy.Escalating.{
  Rung, Backend, Services, EscalatingRetry, PhaseContext, VerifyResult, pass_result, fail_result,
  repair_result, score_result, RungStep, ended, failed, is_pass, is_dot, told, output_path_of,
  queried, write_strategy_output, rung_prompt, verify_rung, query_rung, find_backend, on_backend,
  with_prompt, climb_rung,
}

abbrev pub label : Attempt → Option Tier × Text
label a = (a.tier, a.backend)

abbrev pub labels : List Attempt → List (Option Tier × Text)
labels attempts = map label attempts

abbrev pub rung_label : Rung → Option Tier × Text
rung_label r = (some r.tier, r.backend)

abbrev pub rung_labels : List Rung → List (Option Tier × Text)
rung_labels rungs = map rung_label rungs

abbrev pub Unpassed : Attempt → Type 0
Unpassed a = a.verify.status ≢ pass

module _ (fs : FileSystem) (services : Services fs) (self : EscalatingRetry) (ctx : PhaseContext)
    (backends : List (Backend fs.World)) where
  open fs use {World}

  abbrev Verified : Type 0
  Verified =
      (query : QueryOutput) × (v : World) × (v' : World) × (services.verify query v
        ≡ (ok pass_result, v'))

  -- A directory for an output could not be created, or an output could not be written.
  pub data Unwritten : BackendError → Type 0 where
    not_created :
        (path : PathBuf) (x : IoError) (w w' : World)
        → make_dir fs (parent path) w ≡ (err x, w')
        → Unwritten (execution_failed (services.create_failed path x))
    not_written :
        (path : PathBuf) (text : Text) (x : IoError) (w w' : World)
        → fs.write path text w ≡ (err x, w')
        → Unwritten (execution_failed (services.write_failed path x))

  -- What the ladder comes to: a rung passed and those below it did not, all were tried and none
  -- passed, or an error ends it early.
  pub data Climbed : Result StrategyOutput StrategyError → Type 0 where
    passed :
        (o : StrategyOutput) (before : List Attempt) (last : Attempt) (above : List Rung)
        → o.attempts ≡ before ++ (last ∷ [])
        → All Unpassed before
        → last.verify.status ≡ pass
        → Verified
        → labels o.attempts ++ rung_labels above ≡ rung_labels self.rungs
        → o.final_status ≡ some succeeded
        → Climbed (ok o)
    none_passed :
        (o : StrategyOutput)
        → All Unpassed o.attempts
        → labels o.attempts ≡ rung_labels self.rungs
        → o.final_status ≡ some exhausted
        → Climbed (err (all_exhausted o))
    missing :
        (r : Rung)
        → In r self.rungs
        → find_backend fs services self ctx r.backend backends ≡ none
        → Climbed (err (backend_not_found r.backend))
    unwritten : (e : BackendError) → Unwritten e → Climbed (err (backend_error e))
    nothing_to_climb : (is_nil self.rungs || is_nil backends) ≡ true → Climbed (err no_backends)
    unrendered :
        (e : Text) → services.render self.prompt_template ≡ err e → Climbed (err (prompt_render e))

  -- A rung that passes, stops the ladder or fails.
  abbrev pub StepGood : Rung → List Attempt → Option (RungStep World) → Type 0
  StepGood rung attempts none = ⊥
  StepGood rung attempts (some (ended (ok o) w)) =
      (a : Attempt) × (o.attempts ≡ attempts ++ (a ∷ []))
      × (label a ≡ rung_label rung)
      × (a.verify.status ≡ pass)
      × Verified
      × (o.final_status ≡ some succeeded)
  StepGood rung attempts (some (ended (err e) w)) =
      ((find_backend fs services self ctx rung.backend backends ≡ none)
        × (e ≡ backend_not_found rung.backend))
      ⊎ ((b : BackendError) × (e ≡ backend_error b) × Unwritten b)
  StepGood rung attempts (some (failed a previous w)) = (label a ≡ rung_label rung) × Unpassed a

  find_backend-name :
      (name : Text) (bs : List (Backend World)) (b : Backend World)
      → find_backend fs services self ctx name bs ≡ some b
      → b.name ≡ name
  find_backend-name name [] b h = cc
  find_backend-name name (x ∷ bs) b h =
      let rest = find_backend-name name bs b in
      if_ind (λ (o : Option (Backend World)). o ≡ some b → b.name ≡ name) (text_eq x.name name) _ _
        (λ e p. found e p) (λ e. rest) h
    where
      found : text_eq x.name name ≡ true → some x ≡ some b → b.name ≡ name
      found e p = cc (text_eq-eq x.name name e)

  seen :
      (query : QueryOutput) (w : World) (result : VerifyResult) (w' : World)
      → is_pass result ≡ true
      → services.verify query w ≡ (ok result, w')
      → services.verify query w ≡ (ok pass_result, w')
  seen query w pass_result w' p e = e
  seen query w (fail_result summary) w' p e = cc
  seen query w (repair_result suggestion) w' p e = cc
  seen query w (score_result score) w' p e = cc

  verify_rung-StepGood :
      (idx : ℕ) (rung : Rung) (attempts : List Attempt) (query : QueryOutput) (w : World)
      → StepGood rung attempts
          (some (verify_rung fs services self ctx idx rung rung.backend attempts query w))
  unfolding verify_rung
  verify_rung-StepGood idx rung attempts query w =
      match_result_ind (λ (s : RungStep World). StepGood rung attempts (some s))
        (services.verify query w)
        (λ result w' e.
          if_ind (λ (s : RungStep World). StepGood rung attempts (some s)) (is_pass result) _ _
            (λ p. (
              queried fs services self ctx idx rung rung.backend query true,
              refl,
              refl,
              refl,
              (query, w, w', seen query w result w' p e),
              refl,
            ))
            (λ p. (refl, λ q. cc)))
        (λ message w' e. (refl, λ q. cc))

  write-error :
      (path text : Text) (w w' : World) (e : StrategyError)
      → write_strategy_output fs services self ctx path text w ≡ (err e, w')
      → (b : BackendError) × (e ≡ backend_error b) × Unwritten b
  unfolding write_strategy_output
  write-error path text w w' e h =
      if_ind Ends (is_dot ctx.cwd) _ _ (λ d x v p. cc)
        (λ d.
          match_result_ind Ends (make_dir fs (parent (join ctx.cwd path)) w)
            (λ u v p.
              match_result_ind Ends (fs.write (join ctx.cwd path) text v) (λ u' v' p' x y q. cc)
                (λ i v' p' x y q. (
                  execution_failed (services.write_failed (join ctx.cwd path) i),
                  cc,
                  not_written (join ctx.cwd path) text i v v' p',
                )))
            (λ i v p x y q. (
              execution_failed (services.create_failed (join ctx.cwd path) i),
              cc,
              not_created (join ctx.cwd path) i w v p,
            )))
        e w' h
    where
      Ends : Result (Unit {0}) StrategyError × World → Type 0
      Ends r =
          (x : StrategyError) (v : World)
          → r ≡ (err x, v)
          → (b : BackendError) × (x ≡ backend_error b) × Unwritten b

  query_rung-StepGood :
      (idx : ℕ) (rung : Rung) (b : Backend World) (attempts : List Attempt) (prompt : Text)
      (w : World)
      → b.name ≡ rung.backend
      → StepGood rung attempts (some (query_rung fs services self ctx idx rung b attempts prompt w))
  unfolding query_rung
  query_rung-StepGood idx rung b attempts prompt w name =
      match_result_ind (λ (s : RungStep World). StepGood rung attempts (some s))
        (b.query prompt ctx.model w)
        (λ query w' e.
          match_result_ind (λ (s : RungStep World). StepGood rung attempts (some s))
            (write_strategy_output fs services self ctx
              (output_path_of fs services self ctx idx rung) query.stdout w')
            (λ u w'' p.
              subst
                (λ n.
                  StepGood rung attempts
                    (some (verify_rung fs services self ctx idx rung n attempts query w'')))
                (sym name) (verify_rung-StepGood idx rung attempts query w''))
            (λ x w'' p. inr (write-error _ query.stdout w' w'' x p)))
        (λ e w' p. (refl, λ q. cc))

  -- The prompt of a rung is always found.
  rung_prompt-some :
      (idx : ℕ) (rendered : Text) (previous : Option FailureContext)
      → (p : Text) × (rung_prompt fs services self ctx idx rendered previous ≡ some p)
  unfolding rung_prompt
  rung_prompt-some idx rendered previous =
      if_ind (λ (o : Option Text). (p : Text) × (o ≡ some p))
        (ltb 0 idx && self.pass_failure_context) _ _ (λ h. told-some previous)
        (λ h. (rendered, refl))
    where
      told-some :
          (f : Option FailureContext) → (p : Text) × (told fs services self ctx rendered f ≡ some p)
      told-some none = (rendered, refl)
      told-some (some f) =
          let (t, e, small) = build_failure_envelope-byte_len services.texts f rendered in
          (
            services.texts.redact_secrets t,
            ap (λ o. elim o [ none ↦ none | some x ↦ some (services.texts.redact_secrets x) ]) e,
          )

  pub climb_rung-StepGood :
      (rendered : Text) (idx : ℕ) (rung : Rung) (attempts : List Attempt)
      (previous : Option FailureContext) (w : World)
      → StepGood rung attempts
          (climb_rung fs services self ctx backends rendered idx rung attempts previous w)
  unfolding climb_rung
  climb_rung-StepGood rendered idx rung attempts previous w =
      go (find_backend fs services self ctx rung.backend backends) refl
    where
      go :
          (o : Option (Backend World))
          → find_backend fs services self ctx rung.backend backends ≡ o
          → StepGood rung attempts (
              on_backend fs services self ctx o rung w λ backend.
                with_prompt fs services self ctx
                  (rung_prompt fs services self ctx idx rendered previous)
                  λ prompt.
                    some (query_rung fs services self ctx idx rung backend attempts prompt w))
      go none e = inl (e, refl)
      go (some b) e =
          let (p, q) = rung_prompt-some idx rendered previous in
          subst
            (λ o. StepGood rung attempts (
              with_prompt fs services self ctx o
                λ prompt. some (query_rung fs services self ctx idx rung b attempts prompt w)))
            (sym q)
            (query_rung-StepGood idx rung b attempts p w
              (find_backend-name rung.backend backends b e))
      -- What the loop returns.
