-- ===== src/Workflow/Depth/Checks.antt =====
-- What the checks of src/workflow/mod.rs before the grouping find.
use loker.Prelude.{
  ◌≡◌, refl, sym, subst, true, false, Option, none, some, List, [], ◌∷◌, if_ind, is_nil, In, here,
  there, Bool-cases, inl, inr, ◌⊎◌, arith,
}
use loker.Prelude.Text.{Text}
use loker.Prelude.Names.{mem, mem-In, In-mem, In-cons, NoDup}
use loker.Workflow.Depth.{duplicates, first_missing}

pub duplicates-none : (ns : List Text) → is_nil (duplicates ns) ≡ true → NoDup ns
unfolding duplicates
duplicates-none [] h = tt
duplicates-none (n ∷ ns) h = elim (Bool-cases (mem n ns)) [
  | inl e ↦ absurd (once_more e)
  | inr e ↦ ((λ p. cc (In-mem n ns p)), duplicates-none ns (rw e at h))
]
  where
    empty : (ms : List Text) → is_nil ms ≡ true → mem n ms ≡ false
    empty [] g = refl
    empty (m ∷ ms) g = cc

    once_more : mem n ns ≡ true → ⊥
    once_more e = ground (arith, empty (duplicates ns))

pub duplicates-some : (ns : List Text) → is_nil (duplicates ns) ≡ false → ¬ NoDup ns
unfolding duplicates
duplicates-some [] h d = cc
duplicates-some (n ∷ ns) h d = duplicates-some ns (rw (fresh (Bool-cases (mem n ns))) at h) d.1
  where
    fresh : (mem n ns ≡ true) ⊎ (mem n ns ≡ false) → mem n ns ≡ false
    fresh (inl e) = absurd (d.0 (mem-In n ns e))
    fresh (inr e) = e

pub first_missing-none :
    (names deps : List Text)
    → first_missing names deps ≡ none
    → (dep : Text) → In dep deps
    → In dep names
unfolding first_missing
first_missing-none names [] h dep p = elim p [ ]
first_missing-none names (d ∷ deps) h dep p =
    let rest = first_missing-none names deps in
    if_ind (λ (o : Option Text). o ≡ none → In dep (d ∷ deps) → In dep names) (mem d names) _ _
      (λ e g q. elim (In-cons dep d deps q) [
        | inl same ↦ subst (λ x. In x names) (sym same) (mem-In d names e)
        | inr r ↦ rest g dep r
      ])
      (λ e g. cc) h p

pub first_missing-some :
    (names deps : List Text) (dep : Text)
    → first_missing names deps ≡ some dep
    → In dep deps × (¬ In dep names)
unfolding first_missing
first_missing-some names [] dep h = cc
first_missing-some names (d ∷ deps) dep h =
    let rest = first_missing-some names deps dep in
    if_ind (λ (o : Option Text). o ≡ some dep → In dep (d ∷ deps) × (¬ In dep names)) (mem d names)
      _ _ (λ e g. let (p, n) = rest g in (there p, n))
      (λ e g.
        let same : d ≡ dep = unwrapped g in
        (subst (λ x. In x (d ∷ deps)) same here, λ q. cc (In-mem dep names q, e, same)))
      h
  where
    unwrapped : some d ≡ some dep → d ≡ dep
    unwrapped g = cc

-- All outcomes: duplicate names, a dependency or a minimum that cannot be, a cycle, or levels.
