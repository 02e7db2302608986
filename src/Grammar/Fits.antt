-- ===== src/Grammar/Fits.antt =====
-- When `validate` of src/workflow/grammar.rs finds no fault with one phase.
use loker.Prelude.{
  ℕ, ◌≤◌, List, [], ◌∷◌, ◌++◌, ◌≡◌, ◌↔◌, refl, ap, subst, ◌∙◌, length, In, arith, All,
  append-eq-nil,
}
use loker.Prelude.Text.{Text}
use loker.Grammar.{
  Strategy, single, parallel_fan_out, escalating_retry, Phase, BackendRef, InputRef, phase_ref,
  var_ref, spec, resolve_backend_scheme, parse_input_ref, resolve_backends, resolve_inputs,
  ref_error, ref_errors, strategy_errors, errors_of, refs_or_none, phase_errors,
}
use loker.Grammar.References.{
  render_backend, IsBackend, render_input, IsInput, resolve_backend_scheme_iff, parse_input_ref_iff,
}
use loker.Grammar.Places.{names_of}
use loker.Grammar.Parsed.{length-Parsed, All-Parsed, Parsed-All, resolve_all-nil, resolve_all-ok}

-- Text is how a reference to a backend is written.
abbrev pub NamesBackend : Text → Type 0
NamesBackend raw = (r : BackendRef) × IsBackend r × (raw ≡ render_backend r)

-- The output of a phase is there for those behind it.
abbrev pub IsEarlier : List Text → InputRef → Type 0
IsEarlier earlier (phase_ref name) = In name earlier
IsEarlier earlier (var_ref name) = Unit
IsEarlier earlier spec = Unit

abbrev pub NamesInput : List Text → Text → Type 0
NamesInput earlier raw = (i : InputRef) × (IsInput i × (raw ≡ render_input i)) × IsEarlier earlier i

abbrev pub Suffices : Strategy → ℕ → Type 0
Suffices single count = Unit
Suffices (parallel_fan_out min) count = min ≤ count
Suffices (escalating_retry context) count = 2 ≤ count

pub record Fits (earlier : List Text) (phase : Phase) : Type 0 where
  pub backends : All NamesBackend phase.backends
  pub inputs : All (NamesInput earlier) phase.inputs
  pub strategy : Suffices phase.strategy (length phase.backends)

-- Each phase fits behind those before it.
abbrev pub InOrder : List Phase → List Phase → Type 0
InOrder earlier [] = Unit
InOrder earlier (phase ∷ phases) =
    Fits (names_of earlier) phase × InOrder (earlier ++ (phase ∷ [])) phases

strategy_errors_iff :
    (name : Text) (s : Strategy) (count : ℕ)
    → (strategy_errors name s count ≡ []) ↔ Suffices s count
strategy_errors_iff name single count = ((λ h. tt), (λ h. refl))
strategy_errors_iff name (parallel_fan_out min) count = ground arith
strategy_errors_iff name (escalating_retry context) count = ground arith

module _ (indices : List (Text × ℕ)) (earlier : List Text) (phase : Phase)
    (targets : (target : Text)
      → (ref_error indices phase.name (phase_ref target) ≡ []) ↔ In target earlier) where
  ref_errors-IsEarlier :
      (refs : List InputRef)
      → ref_errors indices phase.name refs ≡ []
      → All (IsEarlier earlier) refs
  unfolding ref_errors
  ref_errors-IsEarlier [] h = tt
  ref_errors-IsEarlier (i ∷ refs) h =
      let (a, b) = append-eq-nil (ref_error indices phase.name i) _ h in
      (one i a, ref_errors-IsEarlier refs b)
    where
      one : (i : InputRef) → ref_error indices phase.name i ≡ [] → IsEarlier earlier i
      one (phase_ref name) a = (targets name).0 a
      one (var_ref name) a = tt
      one spec a = tt

  IsEarlier-ref_errors :
      (refs : List InputRef)
      → All (IsEarlier earlier) refs
      → ref_errors indices phase.name refs ≡ []
  unfolding ref_errors
  IsEarlier-ref_errors [] h = refl
  IsEarlier-ref_errors (phase_ref name ∷ refs) h =
      rw ((targets name).1 h.0) (IsEarlier-ref_errors refs h.1)
  IsEarlier-ref_errors (var_ref name ∷ refs) h = IsEarlier-ref_errors refs h.1
  IsEarlier-ref_errors (spec ∷ refs) h = IsEarlier-ref_errors refs h.1

  pub phase_errors-Fits : phase_errors indices phase ≡ [] → Fits earlier phase
  unfolding phase_errors
  phase_errors-Fits h =
      let (b, h1) = append-eq-nil (errors_of (resolve_backends phase)) _ h in
      let (i, h2) = append-eq-nil (errors_of (resolve_inputs phase)) _ h1 in
      let (r, s) =
        append-eq-nil (ref_errors indices phase.name (refs_or_none (resolve_inputs phase))) _ h2 in
      let (backends, bs, be) = resolve_all-nil resolve_backend_scheme phase.backends b in
      let (inputs, is, ie) = resolve_all-nil parse_input_ref phase.inputs i in
      record {
        backends =
            All-Parsed resolve_backend_scheme NamesBackend (λ r. Unit {0})
              (λ raw ref e q. let (a, b) = (resolve_backend_scheme_iff raw ref).0 e in (ref, a, b))
              phase.backends backends bs (All-Unit backends);
        inputs =
            All-Parsed parse_input_ref (NamesInput earlier) (IsEarlier earlier)
              (λ raw ref e q. (ref, (parse_input_ref_iff raw ref).0 e, q)) phase.inputs inputs is
              (ref_errors-IsEarlier inputs
                (subst (λ l. ref_errors indices phase.name l ≡ []) ie r));
        strategy = (strategy_errors_iff phase.name phase.strategy (length phase.backends)).0 (
            subst (λ n. strategy_errors phase.name phase.strategy n ≡ [])
              (ap length be ∙ length-Parsed resolve_backend_scheme phase.backends backends bs) s);
      }
    where
      All-Unit : (refs : List BackendRef) → All (λ r. Unit {0}) refs
      All-Unit [] = tt
      All-Unit (ref ∷ refs) = (tt, All-Unit refs)

  pub Fits-phase_errors : Fits earlier phase → phase_errors indices phase ≡ []
  unfolding phase_errors
  Fits-phase_errors fits =
      let (backends, bs, b) =
        Parsed-All resolve_backend_scheme NamesBackend (λ r. Unit {0})
          (λ raw h. (h.0, (resolve_backend_scheme_iff raw h.0).1 (h.1, h.2), tt)) phase.backends
          fits.backends in
      let (inputs, is, i) =
        Parsed-All parse_input_ref (NamesInput earlier) (IsEarlier earlier)
          (λ raw h. (h.0, (parse_input_ref_iff raw h.0).1 h.1, h.2)) phase.inputs fits.inputs in
      rw
        (
          resolve_all-ok resolve_backend_scheme phase.backends backends bs,
          resolve_all-ok parse_input_ref phase.inputs inputs is,
          IsEarlier-ref_errors inputs i,
          length-Parsed resolve_backend_scheme phase.backends backends bs,
        )
        ((strategy_errors_iff phase.name phase.strategy (length phase.backends)).1 fits.strategy)
