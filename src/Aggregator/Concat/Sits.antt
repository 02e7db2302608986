-- ===== src/Aggregator/Concat/Sits.antt =====
-- Where the parts stand in the text of src/aggregator/concat.rs.
use loker.Prelude.{
  ◌+◌, ◌≡◌, refl, sym, ap, subst, ◌∙◌, true, List, [], ◌∷◌, ◌++◌, append_assoc, append-nil, map,
  if_ind, is_nil, length, In, here, there, inl, inr, arith,
}
use loker.Prelude.Text.{Text, str, trim}
use loker.Prelude.Names.{In-one, In-cons}
use loker.Aggregator.{BranchOutcome, BranchSuccess, BranchFailure, success, failure}
use loker.Aggregator.Concat.{
  join, failures_of, render_heading, render_success, render_error, render_each, sections_of,
}

-- The first text is a piece of the second.
abbrev pub Sits : Text → Text → Type 0
Sits s t = (a : Text) × (b : Text) × (t ≡ a ++ (s ++ b))

Sits-self : (s : Text) → Sits s s
Sits-self s = ([], [], sym (append-nil s))

pub Sits-left : (s t u : Text) → Sits s t → Sits s (t ++ u)
Sits-left s t u (a, b, e) =
    (a, b ++ u, rw e (append_assoc a (s ++ b) u ∙ ap (λ l. a ++ l) (append_assoc s b u)))

pub Sits-right : (s t u : Text) → Sits s u → Sits s (t ++ u)
Sits-right s t u (a, b, e) = (t ++ a, b, rw e (sym (append_assoc t a (s ++ b))))

pub Sits-trans : (s t u : Text) → Sits s t → Sits t u → Sits s u
Sits-trans s t u h (a, b, e) = subst (Sits s) (sym e) (Sits-right s a (t ++ b) (Sits-left s t b h))

pub join-Sits : (by t : Text) (ts : List Text) → In t ts → Sits t (join by ts)
unfolding join
join-Sits by t [] p = elim p [ ]
join-Sits by t (u ∷ []) p = subst (Sits t) (In-one t u p) (Sits-self t)
join-Sits by t (u ∷ v ∷ ts) p =
    let rest = join-Sits by t (v ∷ ts) in
    elim (In-cons t u (v ∷ ts) p) [
      | inl same ↦
          subst (λ x. Sits t (x ++ (by ++ join by (v ∷ ts)))) same
            (Sits-left t t (by ++ join by (v ∷ ts)) (Sits-self t))
      | inr q ↦
          Sits-right t u (by ++ join by (v ∷ ts)) (Sits-right t by (join by (v ∷ ts)) (rest q))
    ]

pub In-map : {A B : Type 0} (f : A → B) (a : A) (xs : List A) → In a xs → In (f a) (map f xs)
In-map f a [] p = elim p [ ]
In-map f a (x ∷ xs) here = here
In-map f a (x ∷ xs) (there p) = there (In-map f a xs p)

failure_inj : (f g : BranchFailure) → failure f ≡ failure g → f ≡ g
failure_inj f g e = cc

success_inj : (s t : BranchSuccess) → success s ≡ success t → s ≡ t
success_inj s t e = cc

pub In-failures_of :
    (f : BranchFailure) (branches : List BranchOutcome)
    → In (failure f) branches
    → In f (failures_of branches)
unfolding failures_of
In-failures_of f [] p = elim p [ ]
In-failures_of f (success s ∷ branches) p = elim (In-cons (failure f) (success s) branches p) [
  | inl same ↦ cc
  | inr q ↦ In-failures_of f branches q
]
In-failures_of f (failure g ∷ branches) p = elim (In-cons (failure f) (failure g) branches p) [
  | inl same ↦ subst (λ x. In x (g ∷ failures_of branches)) (sym (failure_inj f g same)) here
  | inr q ↦ there (In-failures_of f branches q)
]

pub failures_of-In :
    (f : BranchFailure) (branches : List BranchOutcome)
    → In f (failures_of branches)
    → In (failure f) branches
unfolding failures_of
failures_of-In f [] p = elim p [ ]
failures_of-In f (success s ∷ branches) p = there (failures_of-In f branches p)
failures_of-In f (failure g ∷ branches) p = elim (In-cons f g (failures_of branches) p) [
  | inl same ↦ subst (λ x. In (failure f) (failure x ∷ branches)) same here
  | inr q ↦ there (failures_of-In f branches q)
]

pub In-sections_of :
    (template : Text) (s : BranchSuccess) (branches : List BranchOutcome)
    → In (success s) branches
    → In (render_success template s) (sections_of template branches)
unfolding sections_of
In-sections_of template s [] p = elim p [ ]
In-sections_of template s (failure f ∷ branches) p =
    elim (In-cons (success s) (failure f) branches p) [
      | inl same ↦ cc
      | inr q ↦ In-sections_of template s branches q
    ]
In-sections_of template s (success t ∷ branches) p =
    elim (In-cons (success s) (success t) branches p) [
      | inl same ↦
          subst
            (λ x.
              In (render_success template x)
                (render_success template t ∷ sections_of template branches))
            (sym (success_inj s t same)) here
      | inr q ↦ there (In-sections_of template s branches q)
    ]

pub counts :
    (template : Text) (branches : List BranchOutcome)
    → length (sections_of template branches) + length (failures_of branches) ≡ length branches
unfolding sections_of failures_of
counts template [] = omega arith
counts template (success s ∷ branches) = omega (arith, counts template branches)
counts template (failure f ∷ branches) = omega (arith, counts template branches)

pub render_each-Sits :
    (f : BranchFailure) (fs : List BranchFailure) → In f fs → Sits (render_error f) (render_each fs)
unfolding render_each
render_each-Sits f [] p = elim p [ ]
render_each-Sits f (g ∷ fs) p =
    Sits-right (render_error f) (str "\n\n") (render_error g ++ render_each fs)
      (elim (In-cons f g fs p) [
        | inl same ↦
            subst (λ x. Sits (render_error f) (render_error x ++ render_each fs)) same
              (Sits-left (render_error f) (render_error f) (render_each fs)
                (Sits-self (render_error f)))
        | inr q ↦
            Sits-right (render_error f) (render_error g) (render_each fs) (render_each-Sits f fs q)
      ])

pub render_success-Sits :
    (template : Text) (s : BranchSuccess)
    → Sits (render_heading template s.backend_id s.family s.index) (render_success template s)
      × Sits (trim s.output) (render_success template s)
unfolding render_success
render_success-Sits template s =
    let h = render_heading template s.backend_id s.family s.index in
    if_ind (λ (x : Text). Sits h x × Sits (trim s.output) x) (is_nil (trim s.output)) _ _
      (λ e. (Sits-self h, blank (trim s.output) e))
      (λ e. (
        Sits-left h h (str "\n\n" ++ trim s.output) (Sits-self h),
        Sits-right (trim s.output) h (str "\n\n" ++ trim s.output)
            (Sits-right (trim s.output) (str "\n\n") (trim s.output) (Sits-self (trim s.output))),
      ))
  where
    blank :
        (t : Text)
        → is_nil t ≡ true
        → Sits t (render_heading template s.backend_id s.family s.index)
    blank [] e = ([], _, refl)
    blank (c ∷ t) e = cc
