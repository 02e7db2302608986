-- ===== src/Grammar/Places.antt =====
-- The map of places that `validate` of src/workflow/grammar.rs makes, and the test by it: a phase
-- is found before another exactly when it is named among those before.
use loker.Prelude.{
  ℕ, suc, ◌+◌, ◌<◌, Option, none, some, List, [], ◌∷◌, ◌++◌, map, ◌≡◌, ◌↔◌, ◌⊎◌, inl, inr, refl,
  sym, ap, subst, ◌∙◌, ◌≤◌, lt→ltb, length, In, here, there, arith, Bool-cases,
}
use loker.Prelude.Text.{Text, text_eq}
use loker.Prelude.TextOrd.{text_eq-eq}
use loker.Prelude.Names.{text_eq_refl, In-cons, NoDup}
use loker.Prelude.Assoc.{get, insert, get-insert}
use loker.Grammar.{Phase, target_errors, indices_from}

abbrev pub names_of : List Phase → List Text
names_of phases = map (λ (phase : Phase). phase.name) phases

-- A name that no phase bears keeps its place.
get-absent :
    (n : Text) (i : ℕ) (m : List (Text × ℕ)) (ps : List Phase)
    → ¬ In n (names_of ps)
    → get n (indices_from i m ps) ≡ get n m
unfolding indices_from
get-absent n i m [] h = refl
get-absent n i m (p ∷ ps) h =
    get-absent n (suc i) (insert p.name i m) ps (λ q. h (there q))
    ∙ get-insert n p.name i m
    ∙ elim (Bool-cases (text_eq p.name n)) [
      | inl e ↦ absurd (h (subst (λ x. In n (x ∷ names_of ps)) (sym (text_eq-eq p.name n e)) here))
      | inr e ↦ rw e refl
    ]

-- A phase is found at its place.
get-place :
    (i : ℕ) (m : List (Text × ℕ)) (before : List Phase) (p : Phase) (after : List Phase)
    → ¬ In p.name (names_of after)
    → get p.name (indices_from i m (before ++ (p ∷ after))) ≡ some (i + length before)
unfolding indices_from
get-place i m [] p after h =
    get-absent p.name (suc i) (insert p.name i m) after h
    ∙ get-insert p.name p.name i m
    ∙ rw (text_eq_refl p.name) (ap some (omega arith))
get-place i m (q ∷ before) p after h =
    get-place (suc i) (insert q.name i m) before p after h ∙ ap some (omega arith)

-- A name has the place that it had, or one from `i` on.
get-later :
    (n : Text) (k i : ℕ) (m : List (Text × ℕ)) (ps : List Phase)
    → get n (indices_from i m ps) ≡ some k
    → (get n m ≡ some k) ⊎ (i ≤ k)
unfolding indices_from
get-later n k i m [] e = inl e
get-later n k i m (p ∷ ps) e = elim (get-later n k (suc i) (insert p.name i m) ps e) [
  | inl f ↦ elim (Bool-cases (text_eq p.name n)) [
    | inl g ↦
        let same : some i ≡ some k = sym (get-insert n p.name i m ∙ rw g refl) ∙ f in
        let at : i ≡ k = cc in inr (omega arith)
    | inr g ↦ inl (sym (get-insert n p.name i m ∙ rw g refl) ∙ f)
  ]
  | inr f ↦ inr (omega arith)
]

-- Where every name stands once, the phases before `rest` have places below the number of them.
pub get-before :
    (n : Text) (i : ℕ) (m : List (Text × ℕ)) (before rest : List Phase)
    → NoDup (names_of (before ++ rest))
    → In n (names_of before)
    → (k : ℕ) × (get n (indices_from i m (before ++ rest)) ≡ some k) × (k < i + length before)
unfolding indices_from
get-before n i m [] rest d h = elim h [ ]
get-before n i m (q ∷ before) rest d h = elim (In-cons n q.name (names_of before) h) [
  | inl e ↦ (
    i,
    get-absent n (suc i) (insert q.name i m) (before ++ rest)
          (subst (λ x. ¬ In x (names_of (before ++ rest))) (sym e) d.0)
        ∙ get-insert n q.name i m
        ∙ rw e (rw (text_eq_refl q.name) refl),
    omega arith,
  )
  | inr g ↦
      let (k, found, less) = get-before n (suc i) (insert q.name i m) before rest d.1 g in
      (k, found, omega arith)
]

-- A place below their number is that of a phase before `rest`.
pub before-get :
    (n : Text) (k i : ℕ) (m : List (Text × ℕ)) (before rest : List Phase)
    → get n m ≡ none
    → get n (indices_from i m (before ++ rest)) ≡ some k
    → k < i + length before
    → In n (names_of before)
unfolding indices_from
before-get n k i m [] rest unknown e less = elim (get-later n k i m rest e) [
  | inl f ↦ absurd (let no : none ≡ some k = sym unknown ∙ f in cc)
  | inr f ↦ absurd (omega arith)
]
before-get n k i m (q ∷ before) rest unknown e less = elim (Bool-cases (text_eq q.name n)) [
  | inl g ↦ subst (λ x. In n (x ∷ names_of before)) (sym (text_eq-eq q.name n g)) here
  | inr g ↦ there (
      before-get n k (suc i) (insert q.name i m) before rest
        (get-insert n q.name i m ∙ rw g unknown) e (omega arith))
]

-- In the middle of a list with no name twice, a name is not borne again behind.
pub NoDup-behind :
    (before : List Phase) (p : Phase) (after : List Phase)
    → NoDup (names_of (before ++ (p ∷ after)))
    → ¬ In p.name (names_of after)
NoDup-behind [] p after h = h.0
NoDup-behind (b ∷ before) p after h = NoDup-behind before p after h.1

-- `validate` finds no fault with a reference exactly when it names an earlier phase.
pub target_errors_iff :
    (before : List Phase) (p : Phase) (after : List Phase) (target : Text)
    → NoDup (names_of (before ++ (p ∷ after)))
    → let places = indices_from 0 [] (before ++ (p ∷ after)) in
      (target_errors (get target places) (get p.name places) p.name target ≡ [])
      ↔ In target (names_of before)
unfolding get
target_errors_iff before p after target d =
    ((λ h. backward (get target places) refl (rw own at h)), (λ h. forward h))
  where
    places : List (Text × ℕ)
    places = indices_from 0 [] (before ++ (p ∷ after))

    own : get p.name places ≡ some (0 + length before)
    own = get-place 0 [] before p after (NoDup-behind before p after d)

    backward :
        (o : Option ℕ)
        → get target places ≡ o
        → target_errors o (some (0 + length before)) p.name target ≡ []
        → In target (names_of before)
    backward none f h = cc
    backward (some k) f h = before-get target k 0 [] before (p ∷ after) refl f (ground arith)

    forward :
        In target (names_of before)
        → target_errors (get target places) (get p.name places) p.name target ≡ []
    forward h =
        let (k, found, less) = get-before target 0 [] before (p ∷ after) d h in
        rw found (rw own (rw (lt→ltb k (0 + length before) less) refl))
