-- ===== src/Grammar/Parsed.antt =====
-- The loop over the raw references in src/workflow/grammar.rs: no error is found exactly when each
-- of the texts is a reference.
use loker.Prelude.{
  suc, List, [], ◌∷◌, ◌≡◌, refl, ap, subst, if◌then◌else◌, length, All, Result, ok, err, is_nil,
}
use loker.Prelude.Text.{Text}
use loker.Grammar.{WorkflowError, add_parsed, resolve_each, resolve_all, errors_of, refs_or_none}

-- What each loop of parsing finds, where it finds no error.
module _ {A : Type 0} (parse : Text → Result A WorkflowError) where
  -- The references that the texts are, one for one.
  abbrev pub Parsed : List Text → List A → Type 0
  Parsed [] [] = Unit
  Parsed [] (ref ∷ refs) = ⊥
  Parsed (raw ∷ raws) [] = ⊥
  Parsed (raw ∷ raws) (ref ∷ refs) = (parse raw ≡ ok ref) × Parsed raws refs

  resolve_each-Parsed :
      (raws : List Text)
      → (resolve_each parse raws).1 ≡ []
      → Parsed raws (resolve_each parse raws).0
  unfolding resolve_each
  resolve_each-Parsed [] h = tt
  resolve_each-Parsed (raw ∷ raws) h = step (parse raw) refl (resolve_each-Parsed raws) h
    where
      step :
          (r : Result A WorkflowError)
          → parse raw ≡ r
          → ((resolve_each parse raws).1 ≡ [] → Parsed raws (resolve_each parse raws).0)
          → (add_parsed parse r (resolve_each parse raws)).1 ≡ []
          → Parsed (raw ∷ raws) (add_parsed parse r (resolve_each parse raws)).0
      step (ok ref) e ih h = (e, ih h)
      step (err e') e ih h = cc

  Parsed-resolve_each :
      (raws : List Text) (refs : List A) → Parsed raws refs → resolve_each parse raws ≡ (refs, [])
  unfolding resolve_each
  Parsed-resolve_each [] [] h = refl
  Parsed-resolve_each [] (ref ∷ refs) h = absurd h
  Parsed-resolve_each (raw ∷ raws) [] h = absurd h
  Parsed-resolve_each (raw ∷ raws) (ref ∷ refs) h = rw (h.0, Parsed-resolve_each raws refs h.1) refl

  pub length-Parsed :
      (raws : List Text) (refs : List A) → Parsed raws refs → length refs ≡ length raws
  length-Parsed [] [] h = refl
  length-Parsed [] (ref ∷ refs) h = absurd h
  length-Parsed (raw ∷ raws) [] h = absurd h
  length-Parsed (raw ∷ raws) (ref ∷ refs) h = ap suc (length-Parsed raws refs h.1)

  pub All-Parsed :
      (P : Text → Type 0) (Q : A → Type 0)
      → ((raw : Text) (ref : A) → parse raw ≡ ok ref → Q ref → P raw)
      → (raws : List Text) (refs : List A) → Parsed raws refs
      → All Q refs
      → All P raws
  All-Parsed P Q f [] [] h q = tt
  All-Parsed P Q f [] (ref ∷ refs) h q = absurd h
  All-Parsed P Q f (raw ∷ raws) [] h q = absurd h
  All-Parsed P Q f (raw ∷ raws) (ref ∷ refs) h q =
      (f raw ref h.0 q.0, All-Parsed P Q f raws refs h.1 q.1)

  pub Parsed-All :
      (P : Text → Type 0) (Q : A → Type 0)
      → ((raw : Text) → P raw → (ref : A) × (parse raw ≡ ok ref) × Q ref)
      → (raws : List Text) → All P raws
      → (refs : List A) × Parsed raws refs × All Q refs
  Parsed-All P Q f [] h = ([], tt, tt)
  Parsed-All P Q f (raw ∷ raws) h =
      let (ref, e, q) = f raw h.0 in
      let (refs, es, qs) = Parsed-All P Q f raws h.1 in (ref ∷ refs, (e, es), (q, qs))

  -- No error is found exactly when the texts are references, which are then used.
  pub resolve_all-nil :
      (raws : List Text)
      → errors_of (resolve_all parse raws) ≡ []
      → (refs : List A) × Parsed raws refs × (refs_or_none (resolve_all parse raws) ≡ refs)
  resolve_all-nil raws h = settle (resolve_each parse raws) refl h
    where
      settle :
          (x : List A × List WorkflowError)
          → resolve_each parse raws ≡ x
          → errors_of (if is_nil x.1 then ok x.0 else err x.1) ≡ []
          → (refs : List A) × Parsed raws refs
            × (refs_or_none (if is_nil x.1 then ok x.0 else err x.1) ≡ refs)
      settle (refs, []) e h = (
        refs,
        subst (λ (y : List A × List WorkflowError). Parsed raws y.0) e
            (resolve_each-Parsed raws (ap (λ (y : List A × List WorkflowError). y.1) e)),
        refl,
      )
      settle (refs, e' ∷ es) e h = cc

  pub resolve_all-ok :
      (raws : List Text) (refs : List A) → Parsed raws refs → resolve_all parse raws ≡ ok refs
  resolve_all-ok raws refs h = rw (Parsed-resolve_each raws refs h) refl
