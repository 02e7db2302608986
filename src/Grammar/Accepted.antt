-- ===== src/Grammar/Accepted.antt =====
-- What `from_str` of src/workflow/grammar.rs accepts.
use loker.Prelude.{
  ℕ, true, false, List, [], ◌∷◌, ◌++◌, ◌≡◌, ◌≢◌, ◌↔◌, inl, inr, refl, sym, ap, subst, ◌∙◌,
  if◌then◌else◌, In, here, there, Bool-cases, append_assoc, if_ind, Result, ok, err, is_nil,
  is_nil-ne, is_nil-eq, append-eq-nil,
}
use loker.Prelude.Text.{Text}
use loker.Prelude.Names.{mem, mem-In, In-mem, In-cons, NoDup}
use loker.Grammar.{
  Phase, Workflow, phase_ref, WorkflowError, duplicate_errors, indices_from, ref_error,
  phase_errors, all_phase_errors, validate, duplicate_phase_name, no_phases, toml_parse, accept,
  from_str,
}
use loker.Grammar.Places.{names_of, target_errors_iff}
use loker.Grammar.Fits.{InOrder, phase_errors-Fits, Fits-phase_errors}

pub record WellFormed (w : Workflow) : Type 0 where
  pub some_phase : w.phases ≢ []
  pub distinct : NoDup (names_of w.phases)
  pub in_order : InOrder [] w.phases

duplicate_errors-nil :
    (seen : List Text) (ps : List Phase)
    → duplicate_errors seen ps ≡ []
    → NoDup (names_of ps) × ((n : Text) → In n (names_of ps) → ¬ In n seen)
unfolding duplicate_errors
duplicate_errors-nil seen [] h = (tt, (λ n p. elim p [ ]))
duplicate_errors-nil seen (p ∷ ps) h = elim (Bool-cases (mem p.name seen)) [
  | inl e ↦ absurd (let no : duplicate_phase_name p.name ∷ _ ≡ [] = rw e at h in cc)
  | inr e ↦
      let (d, apart) = duplicate_errors-nil (p.name ∷ seen) ps (rw e at h) in
      (
        (((λ q. apart p.name q here), d)),
        (λ n q. elim (In-cons n p.name (names_of ps) q) [
          | inl same ↦ (λ r. let both : true ≡ false = sym (In-mem n seen r) ∙ (rw same e) in cc)
          | inr r ↦ (λ s. apart n r (there s))
        ]),
      )
]

nil-duplicate_errors :
    (seen : List Text) (ps : List Phase)
    → NoDup (names_of ps)
    → ((n : Text) → In n (names_of ps) → ¬ In n seen)
    → duplicate_errors seen ps ≡ []
unfolding duplicate_errors
nil-duplicate_errors seen [] d apart = refl
nil-duplicate_errors seen (p ∷ ps) d apart = elim (Bool-cases (mem p.name seen)) [
  | inl e ↦ absurd (apart p.name here (mem-In p.name seen e))
  | inr e ↦ rw e (
      nil-duplicate_errors (p.name ∷ seen) ps d.1 (λ n q r. elim (In-cons n p.name seen r) [
        | inl same ↦ d.0 (subst (λ x. In x (names_of ps)) same q)
        | inr s ↦ apart n (there q) s
      ]))
]

all_phase_errors_iff :
    (before phases : List Phase) (indices : List (Text × ℕ))
    → indices ≡ indices_from 0 [] (before ++ phases)
    → NoDup (names_of (before ++ phases))
    → (all_phase_errors indices phases ≡ []) ↔ InOrder before phases
unfolding all_phase_errors
all_phase_errors_iff before [] indices made d = ((λ h. tt), (λ h. refl))
all_phase_errors_iff before (p ∷ phases) indices made d =
    let shift : (before ++ (p ∷ [])) ++ phases ≡ before ++ (p ∷ phases) =
      append_assoc before (p ∷ []) phases in
    let targets = (λ (target : Text).
      subst (λ m. (ref_error m p.name (phase_ref target) ≡ []) ↔ In target (names_of before))
        (sym made) (target_errors_iff before p phases target d)) in
    let ih =
      all_phase_errors_iff (before ++ (p ∷ [])) phases indices
        (made ∙ ap (indices_from 0 []) (sym shift))
        (subst (λ l. NoDup (names_of l)) (sym shift) d) in
    (
      (λ h.
          let (a, b) = append-eq-nil (phase_errors indices p) _ h in
          (phase_errors-Fits indices (names_of before) p targets a, ih.0 b)),
      (λ h. rw (Fits-phase_errors indices (names_of before) p targets h.0) (ih.1 h.1)),
    )

validate_iff : (w : Workflow) → (validate w ≡ []) ↔ WellFormed w
unfolding validate
validate_iff w = (
  (λ h. sound (w.phases) refl h),
  (λ h.
      rw
        (
          is_nil-ne w.phases h.some_phase,
          nil-duplicate_errors [] w.phases h.distinct (λ n p q. elim q [ ]),
        )
        ((all_phase_errors_iff [] w.phases _ refl h.distinct).1 h.in_order)),
)
  where
    errors : List Phase → List WorkflowError
    errors ps =
        if is_nil ps
        then no_phases ∷ []
        else duplicate_errors [] ps ++ all_phase_errors (indices_from 0 [] ps) ps

    sound : (ps : List Phase) → w.phases ≡ ps → errors ps ≡ [] → WellFormed w
    sound [] e h = cc
    sound (p ∷ ps) e h =
        let (a, b) = append-eq-nil (duplicate_errors [] (p ∷ ps)) _ h in
        let d = (duplicate_errors-nil [] (p ∷ ps) a).0 in
        record {
          some_phase = λ k. cc;
          distinct = subst (λ l. NoDup (names_of l)) (sym e) d;
          in_order =
              subst (λ l. InOrder [] l) (sym e) ((all_phase_errors_iff [] (p ∷ ps) _ refl d).0 b);
        }

-- A text is accepted exactly when TOML reads a well-formed workflow from it: it has a phase and no
-- two phases of one name, and every phase has references to backends and inputs that are written as
-- such, inputs from the phases before it alone, and as many backends as its strategy wants.
pub from_str_iff :
    (toml : Text → Result Workflow Text) (s : Text) (w : Workflow)
    → (from_str toml s ≡ ok w) ↔ ((toml s ≡ ok w) × WellFormed w)
unfolding from_str
from_str_iff toml s w = (parsed (toml s), rest (toml s))
  where
    judge : Result Workflow Text → Result Workflow (List WorkflowError)
    judge r = elim r [ err message ↦ err (toml_parse message ∷ []) | ok v ↦ accept v ]

    parsed : (r : Result Workflow Text) → judge r ≡ ok w → (r ≡ ok w) × WellFormed w
    parsed (err message) h = cc
    parsed (ok v) h =
        if_ind (λ x. x ≡ ok w → (◌≡◌ {A = Result Workflow Text} (ok v) (ok w)) × WellFormed w)
          (is_nil (validate v)) _ _
          (λ e k.
            let same : v ≡ w = cc in
            (ap ok same, subst WellFormed same ((validate_iff v).0 (is_nil-eq (validate v) e))))
          (λ e k. cc) h

    rest : (r : Result Workflow Text) → (r ≡ ok w) × WellFormed w → judge r ≡ ok w
    rest r h = rw h.0 (rw ((validate_iff w).1 h.1) refl)
