-- ===== src/Workflow/Depth/Facts.antt =====
-- The association list of the depths and the search for a step by its name.
use loker.Prelude.Assoc.{insert}
use loker.Prelude.{
  ℕ, ◌≡◌, refl, sym, subst, false, Option, some, List, [], ◌∷◌, map, if_ind, In, here, there, inl,
  inr, ◌⊎◌,
}
use loker.Prelude.Text.{Text, text_eq}
use loker.Prelude.TextOrd.{text_eq-eq}
use loker.Prelude.Names.{text_eq_refl, In-one, In-cons, NoDup}
use loker.Workflow.{Step, find_step, step_names}
use loker.Workflow.Depth.{Depths}

abbrev pub keys_of : Depths → List Text
keys_of ds = map (λ (e : Text × ℕ). e.0) ds

In-keys-insert :
    (x n : Text) (d : ℕ) (ds : Depths)
    → In x (keys_of (insert n d ds))
    → In x (keys_of ds) ⊎ (x ≡ n)
unfolding insert
In-keys-insert x n d [] p = inr (In-one x n p)
In-keys-insert x n d (e ∷ ds) p =
    let rest = In-keys-insert x n d ds in
    if_ind (λ (l : Depths). In x (keys_of l) → In x (keys_of (e ∷ ds)) ⊎ (x ≡ n)) (text_eq e.0 n) _
      _ (λ h q. replaced x (keys_of ds) (text_eq-eq e.0 n h) q)
      (λ h q. behind x (keys_of ds) (keys_of (insert n d ds)) rest q) p
  where
    replaced : (x : Text) (ks : List Text) → e.0 ≡ n → In x (n ∷ ks) → In x (e.0 ∷ ks) ⊎ (x ≡ n)
    replaced x ks h q = inl (subst (λ k. In x (k ∷ ks)) (sym h) q)

    behind :
        (x : Text) (ks ls : List Text)
        → (In x ls → In x ks ⊎ (x ≡ n))
        → In x (e.0 ∷ ls)
        → In x (e.0 ∷ ks) ⊎ (x ≡ n)
    behind x ks ls rest q = elim (In-cons x e.0 ls q) [
      | inl same ↦ inl (subst (λ y. In y (e.0 ∷ ks)) (sym same) here)
      | inr r ↦ elim (rest r) [ inl t ↦ inl (there t) | inr t ↦ inr t ]
    ]

pub keys-insert :
    (n : Text) (d : ℕ) (ds : Depths) → NoDup (keys_of ds) → NoDup (keys_of (insert n d ds))
unfolding insert
keys-insert n d [] h = ((λ p. elim p [ ]), tt)
keys-insert n d (e ∷ ds) h =
    let rest = keys-insert n d ds h.1 in
    if_ind (λ (l : Depths). NoDup (keys_of l)) (text_eq e.0 n) _ _
      (λ g. subst (λ k. NoDup (k ∷ keys_of ds)) (text_eq-eq e.0 n g) h)
      (λ g. (
        (λ p. elim (In-keys-insert e.0 n d ds p) [ inl q ↦ h.0 q | inr q ↦ cc (text_eq_refl n) ]),
        rest,
      ))

pub find_step-name :
    (n : Text) (steps : List Step) (s : Step) → find_step n steps ≡ some s → s.name ≡ n
unfolding find_step
find_step-name n [] s h = cc
find_step-name n (x ∷ steps) s h =
    let rest = find_step-name n steps s in
    if_ind (λ (o : Option Step). o ≡ some s → s.name ≡ n) (text_eq x.name n) _ _
      (λ e p. cc (text_eq-eq x.name n e)) (λ e. rest) h

pub find_step-In :
    (n : Text) (steps : List Step) (s : Step) → find_step n steps ≡ some s → In s steps
unfolding find_step
find_step-In n [] s h = cc
find_step-In n (x ∷ steps) s h =
    let rest = find_step-In n steps s in
    if_ind (λ (o : Option Step). o ≡ some s → In s (x ∷ steps)) (text_eq x.name n) _ _
      (λ e p. subst (λ y. In s (y ∷ steps)) (same p) here) (λ e p. there (rest p)) h
  where
    same : some x ≡ some s → s ≡ x
    same p = cc

pub find_step-some :
    (n : Text) (steps : List Step)
    → In n (step_names steps)
    → (s : Step) × (find_step n steps ≡ some s)
unfolding find_step
find_step-some n [] p = elim p [ ]
find_step-some n (x ∷ steps) p =
    if_ind (λ (o : Option Step). (s : Step) × (o ≡ some s)) (text_eq x.name n) _ _ (λ e. (x, refl))
      (λ e. find_step-some n steps (later n x.name (step_names steps) e p))
  where
    later : (n m : Text) (ms : List Text) → text_eq m n ≡ false → In n (m ∷ ms) → In n ms
    later n m ms e here = cc (text_eq_refl n)
    later n m ms e (there q) = q

pub In-names : (s : Step) (todo : List Step) → In s todo → In s.name (step_names todo)
In-names s [] p = elim p [ ]
In-names s (t ∷ todo) here = here
In-names s (t ∷ todo) (there p) = there (In-names s todo p)
