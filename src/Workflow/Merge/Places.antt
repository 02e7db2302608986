-- ===== src/Workflow/Merge/Places.antt =====
-- What src/workflow/mod.rs finds by name after a step is replaced or comes last.
use loker.Prelude.{
  ℕ, zero, suc, ◌+◌, ◌≡◌, refl, sym, ap, subst, ◌∙◌, true, false, Option, none, some, List, [], ◌∷◌,
  ◌++◌, if◌then◌else◌, if_ind, Bool-cases, inl, inr, or_else, get_elem?, In, here, there, arith,
}
use loker.Prelude.Text.{Text, text_eq}
use loker.Prelude.TextOrd.{text_eq-eq}
use loker.Prelude.Names.{get_elem-In, text_eq_refl, NoDup, In-cons}
use loker.Workflow.{Step, find_step, step_names}
use loker.Workflow.Merge.{index_of, set_at}

pub index_of-some :
    (i p : ℕ) (n : Text) (steps : List Step)
    → index_of i n steps ≡ some p
    → (k : ℕ) × (p ≡ i + k) × (get_elem? (step_names steps) k ≡ some n)
unfolding index_of
index_of-some i p n [] h = cc
index_of-some i p n (s ∷ steps) h =
    go (index_of (suc i) n steps) refl h (λ q e. index_of-some (suc i) q n steps e)
  where
    go :
        (o : Option ℕ)
        → index_of (suc i) n steps ≡ o
        → or_else o (if text_eq s.name n then some i else none) ≡ some p
        → ((q : ℕ)
            → index_of (suc i) n steps ≡ some q
            → (k : ℕ) × (q ≡ suc i + k) × (get_elem? (step_names steps) k ≡ some n))
        → (k : ℕ) × (p ≡ i + k) × (get_elem? (step_names (s ∷ steps)) k ≡ some n)
    go (some q) e g later =
        let (k, same, at) = later q e in (suc k, omega (arith, value q g, same), at)
      where
        value : (q : ℕ) → some q ≡ some p → q ≡ p
        value q g = cc
    go none e g later =
        if_ind
          (λ (o : Option ℕ).
            o ≡ some p → (k : ℕ) × (p ≡ i + k) × (get_elem? (step_names (s ∷ steps)) k ≡ some n))
          (text_eq s.name n) (some i) none
          (λ f h. (0, omega (arith, value h), ap some (text_eq-eq s.name n f)))
          (λ f h. absurd (nothing h)) g
      where
        value : some i ≡ some p → i ≡ p
        value h = cc

        nothing : none ≡ some p → ⊥
        nothing h = cc

pub index_of-none :
    (i : ℕ) (n : Text) (steps : List Step) → index_of i n steps ≡ none → ¬ In n (step_names steps)
unfolding index_of
index_of-none i n [] h p = elim p [ ]
index_of-none i n (s ∷ steps) h p =
    go (index_of (suc i) n steps) refl h (index_of-none (suc i) n steps)
  where
    go :
        (o : Option ℕ)
        → index_of (suc i) n steps ≡ o
        → or_else o (if text_eq s.name n then some i else none) ≡ none
        → (index_of (suc i) n steps ≡ none → ¬ In n (step_names steps))
        → ⊥
    go (some q) e g later = cc
    go none e g later = elim (In-cons n s.name (step_names steps) p) [
      | inl same ↦ cc (sym same, text_eq_refl n, g)
      | inr q ↦ later e q
    ]

pub set_at-names :
    (k : ℕ) (c : Step) (merged : List Step)
    → get_elem? (step_names merged) k ≡ some c.name
    → step_names (set_at k c merged) ≡ step_names merged
unfolding set_at
set_at-names k c [] h = refl
set_at-names zero c (x ∷ xs) h = ap (λ n. n ∷ step_names xs) (cc)
set_at-names (suc k) c (x ∷ xs) h = ap (λ l. x.name ∷ l) (set_at-names k c xs h)

pub find_step-set_at :
    (m : Text) (k : ℕ) (c : Step) (merged : List Step)
    → get_elem? (step_names merged) k ≡ some c.name
    → NoDup (step_names merged)
    → find_step m (set_at k c merged) ≡ (if text_eq c.name m then some c else find_step m merged)
unfolding find_step set_at
find_step-set_at m k c [] h d = cc
find_step-set_at m zero c (x ∷ xs) h d =
    if_ind
      (λ o. o ≡ (
        if text_eq c.name m then some c else if text_eq x.name m then some x else find_step m xs))
      (text_eq c.name m) (some c) (find_step m xs) (λ e. rw e refl) (λ e. rw e (rw (other e) refl))
  where
    other : text_eq c.name m ≡ false → text_eq x.name m ≡ false
    other e = cc (name_is h)
      where
        name_is : get_elem? (step_names (x ∷ xs)) 0 ≡ some c.name → x.name ≡ c.name
        name_is h = cc
find_step-set_at m (suc k) c (x ∷ xs) h d = elim (Bool-cases (text_eq x.name m)) [
  | inl e ↦ rw e (rw (other e) refl)
  | inr e ↦ rw e (find_step-set_at m k c xs h d.1)
]
  where
    other : text_eq x.name m ≡ true → text_eq c.name m ≡ false
    other e = elim (Bool-cases (text_eq c.name m)) [
      | inl f ↦ absurd (
          d.0 (
            subst (λ n. In n (step_names xs)) (text_eq-eq c.name m f ∙ sym (text_eq-eq x.name m e))
              (get_elem-In (step_names xs) k c.name h)))
      | inr f ↦ f
    ]

pub find_step-snoc :
    (m : Text) (c : Step) (merged : List Step)
    → ¬ In c.name (step_names merged)
    → find_step m (merged ++ (c ∷ [])) ≡ (if text_eq c.name m then some c else find_step m merged)
unfolding find_step
find_step-snoc m c [] h = refl
find_step-snoc m c (x ∷ xs) h = elim (Bool-cases (text_eq x.name m)) [
  | inl e ↦ rw e (rw (other e) refl)
  | inr e ↦ rw e (find_step-snoc m c xs (λ p. h (there p)))
]
  where
    other : text_eq x.name m ≡ true → text_eq c.name m ≡ false
    other e = elim (Bool-cases (text_eq c.name m)) [
      | inl f ↦ absurd (
          h (
            subst (λ n. In n (step_names (x ∷ xs)))
              (text_eq-eq x.name m e ∙ sym (text_eq-eq c.name m f)) here))
      | inr f ↦ f
    ]

pub get_elem-left :
    (ns ms : List Text) (k : ℕ) (n : Text)
    → get_elem? ns k ≡ some n
    → get_elem? (ns ++ ms) k ≡ some n
get_elem-left [] ms k n h = cc
get_elem-left (x ∷ ns) ms zero n h = h
get_elem-left (x ∷ ns) ms (suc k) n h = get_elem-left ns ms k n h

pub find_step-none :
    (m : Text) (steps : List Step) → ¬ In m (step_names steps) → find_step m steps ≡ none
unfolding find_step
find_step-none m [] h = refl
find_step-none m (s ∷ steps) h = elim (Bool-cases (text_eq s.name m)) [
  | inl e ↦ absurd (h (subst (λ x. In x (step_names (s ∷ steps))) (text_eq-eq s.name m e) here))
  | inr e ↦ rw e (find_step-none m steps (λ p. h (there p)))
]

pub names-snoc :
    (steps : List Step) (c : Step)
    → step_names (steps ++ (c ∷ [])) ≡ step_names steps ++ (c.name ∷ [])
names-snoc [] c = refl
names-snoc (s ∷ steps) c = ap (λ l. s.name ∷ l) (names-snoc steps c)
