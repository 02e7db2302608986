-- ===== src/Workflow/Validate/Capable.antt =====
-- `validate_with_capabilities`: which workflows pass.
use loker.Prelude.{
  ◌≡◌, ◌↔◌, refl, sym, subst, ◌∙◌, Bool, true, false, Option, none, some, List, [], ◌∷◌,
  if◌then◌else◌, ltb, length, unwrap_or, Result, ok, err, bind_ind, In, here, there, Bool-cases,
  inl, inr, arith,
}
use loker.Prelude.Text.{Text, text_eq}
use loker.Prelude.Names.{In-cons}
use loker.Workflow.{Step, Workflow, WorkflowError, missing_capability, get_backends}
use loker.Workflow.Validate.{
  BackendCapabilities, no_capabilities, file_edit_name, required_capabilities, check_demands,
  check_backends, check_step, capable_steps, validate, validate_with_capabilities,
}
use loker.Workflow.Validate.Bounds.{
  IsBounded, Validated, valid, exceeds, too_small, validate-Validated, validate_complete,
}

-- A step that applies edits names one backend, a known one that edits files.
abbrev pub IsCapable : (Text → Option BackendCapabilities) → Step → Type 0
IsCapable lookup s =
    s.apply_edits ≡ true
    → (b : Text) × (caps : BackendCapabilities) × (get_backends s ≡ b ∷ [])
      × (lookup b ≡ some caps)
      × (caps.file_edit ≡ true)

module _ (lookup : Text → Option BackendCapabilities) where
  one_backend :
      (name b : Text)
      → check_backends lookup name (b ∷ []) (file_edit_name ∷ []) ≡ (
          if (unwrap_or (lookup b) no_capabilities).file_edit
          then ok tt
          else err (missing_capability name b file_edit_name))
  unfolding check_backends check_demands text_eq
  one_backend name b = elim (Bool-cases (unwrap_or (lookup b) no_capabilities).file_edit) [
    | inl h ↦ rw h refl
    | inr h ↦ rw h refl
  ]

  known :
      (b : Text)
      → (unwrap_or (lookup b) no_capabilities).file_edit ≡ true
      → (caps : BackendCapabilities) × (lookup b ≡ some caps) × (caps.file_edit ≡ true)
  known b h = go (lookup b) refl h
    where
      go :
          (o : Option BackendCapabilities)
          → lookup b ≡ o
          → (unwrap_or o no_capabilities).file_edit ≡ true
          → (caps : BackendCapabilities) × (lookup b ≡ some caps) × (caps.file_edit ≡ true)
      go none e g = cc
      go (some caps) e g = (caps, e, g)

  -- What `IsCapable` says, on the flag and the backends.
  abbrev Capable : Bool → List Text → Type 0
  Capable false bs = Unit
  Capable true bs =
      (b : Text) × (caps : BackendCapabilities) × (bs ≡ b ∷ [])
      × (lookup b ≡ some caps)
      × (caps.file_edit ≡ true)

  passed :
      (name : Text) (flag : Bool) (bs : List Text)
      → check_step lookup name flag bs (if flag then file_edit_name ∷ [] else []) ≡ ok tt
      → Capable flag bs
  passed name false bs h = tt
  passed name true [] h = cc
  passed name true (b ∷ c ∷ bs) h = absurd (refused h)
    where
      two : ltb 1 (length (b ∷ c ∷ bs)) ≡ true
      two = ground arith

      refused : check_step lookup name true (b ∷ c ∷ bs) (file_edit_name ∷ []) ≡ ok tt → ⊥
      refused g = cc (rw two at g)
  passed name true (b ∷ []) h = elim (Bool-cases (unwrap_or (lookup b) no_capabilities).file_edit) [
    | inl f ↦ let (caps, l, c) = known b f in (b, caps, refl, l, c)
    | inr f ↦ cc (one_backend name b, h, f)
  ]

  passes :
      (name : Text) (flag : Bool) (bs : List Text)
      → Capable flag bs
      → check_step lookup name flag bs (if flag then file_edit_name ∷ [] else []) ≡ ok tt
  passes name false bs h = refl
  passes name true bs (b, caps, g, l, c) =
      subst (λ x. check_step lookup name true x (file_edit_name ∷ []) ≡ ok tt) (sym g)
        (one_backend name b ∙ rw l (rw c refl))

  capable_steps-passed :
      (todo : List Step)
      → capable_steps lookup todo ≡ ok tt
      → (s : Step) → In s todo
      → IsCapable lookup s
  unfolding capable_steps
  capable_steps-passed [] h s p = elim p [ ]
  capable_steps-passed (t ∷ todo) h s p =
      let rest = capable_steps-passed todo in
      bind_ind (λ (r : Result (Unit {0}) WorkflowError). r ≡ ok tt → IsCapable lookup s)
        (check_step lookup t.name t.apply_edits (get_backends t) (required_capabilities t))
        (λ u e g. elim (In-cons s t todo p) [
          | inl same ↦ subst (IsCapable lookup) (sym same) (λ flag.
              subst (λ b. Capable b (get_backends t)) flag
                (passed t.name t.apply_edits (get_backends t) e))
          | inr q ↦ rest g s q
        ])
        (λ x e g. cc) h

  capable_steps-passes :
      (todo : List Step)
      → ((s : Step) → In s todo → IsCapable lookup s)
      → capable_steps lookup todo ≡ ok tt
  unfolding capable_steps
  capable_steps-passes [] h = refl
  capable_steps-passes (t ∷ todo) h =
      rw (passes t.name t.apply_edits (get_backends t) (demanded t.apply_edits refl))
        (capable_steps-passes todo (λ s p. h s (there p)))
    where
      demanded : (b : Bool) → t.apply_edits ≡ b → Capable b (get_backends t)
      demanded false e = tt
      demanded true e = h t here e

  pub validate_with_capabilities-passed :
      (w : Workflow)
      → validate_with_capabilities lookup w ≡ ok tt
      → (s : Step) → In s w.steps
      → IsBounded w s × IsCapable lookup s
  unfolding validate_with_capabilities
  validate_with_capabilities-passed w h s p =
      bind_ind
        (λ (r : Result (Unit {0}) WorkflowError). r ≡ ok tt → IsBounded w s × IsCapable lookup s)
        (validate w)
        (λ u e g.
          (bounded (validate w) e (validate-Validated w), capable_steps-passed w.steps g s p))
        (λ x e g. cc) h
    where
      bounded :
          (r : Result (Unit {0}) WorkflowError) → r ≡ ok tt → Validated w w.steps r → IsBounded w s
      bounded r e (valid g) = g s p
      bounded r e (exceeds t min q f lt) = cc
      bounded r e (too_small t k q f pos lt) = cc

  pub validate_with_capabilities-passes :
      (w : Workflow)
      → ((s : Step) → In s w.steps → IsBounded w s × IsCapable lookup s)
      → validate_with_capabilities lookup w ≡ ok tt
  unfolding validate_with_capabilities
  validate_with_capabilities-passes w h =
      rw (validate_complete w (λ s p. (h s p).0)) (capable_steps-passes w.steps (λ s p. (h s p).1))

-- `validate_with_capabilities` passes a workflow exactly when every step has its bounds (no minimum
-- above the number of dependencies, no timeout between 0 and the least one) and every step that
-- applies edits has exactly one backend, which `lookup` knows and which edits files.
pub validate_with_capabilities_iff :
    (lookup : Text → Option BackendCapabilities) (w : Workflow)
    → (validate_with_capabilities lookup w ≡ ok tt)
      ↔ ((s : Step) → In s w.steps → IsBounded w s × IsCapable lookup s)
validate_with_capabilities_iff lookup w =
    (validate_with_capabilities-passed lookup w, validate_with_capabilities-passes lookup w)
