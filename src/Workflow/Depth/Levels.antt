-- ===== src/Workflow/Depth/Levels.antt =====
-- What `group_by_depth` returns.
use loker.Prelude.Assoc.{get}
use loker.Prelude.{
  ℕ, zero, suc, ◌+◌, ◌≤◌, ◌<◌, ◌≡◌, refl, sym, ap, subst, ◌∙◌, Option, some, List, [], ◌∷◌, map,
  if◌then◌else◌, if_ind, ◌==◌, get_elem?, In, here, there, Bool-cases, inl, inr, arith,
}
use loker.Prelude.Text.{Text, text_eq}
use loker.Prelude.TextOrd.{text_eq-eq}
use loker.Prelude.Names.{text_eq_refl, In-cons, NoDup}
use loker.Workflow.{Step, find_step, step_names}
use loker.Workflow.Depth.{Depths, max_of, level_at, levels_from, levels_of}
use loker.Workflow.Depth.Facts.{keys_of}

-- The name stands in the level with that number.
abbrev pub At : ℕ → Text → List (List Text) → Type 0
At d n levels = (level : List Text) × (get_elem? levels d ≡ some level) × In n level

-- Every step stands in one level, above the levels of all its dependencies, and as low as that
-- allows; and nothing else stands in a level.
pub record IsLevelled (steps : List Step) (levels : List (List Text)) : Type 0 where
  pub placed : (n : Text) → In n (step_names steps) → (d : ℕ) × At d n levels
  pub once : (n : Text) (d k : ℕ) → At d n levels → At k n levels → d ≡ k
  pub only : (n : Text) (d : ℕ) → At d n levels → In n (step_names steps)
  pub above :
      (n dep : Text) (s : Step) (d : ℕ)
      → find_step n steps ≡ some s
      → In dep s.depends_on
      → At d n levels
      → (k : ℕ) × At k dep levels × (k < d)
  pub tight :
      (n : Text) (s : Step) (d : ℕ)
      → find_step n steps ≡ some s
      → At (suc d) n levels
      → (dep : Text) × In dep s.depends_on × At d dep levels

level_at-In : (n : Text) (d : ℕ) (ds : Depths) → In n (level_at d ds) → In (n, d) ds
unfolding level_at
level_at-In n d [] p = elim p [ ]
level_at-In n d (e ∷ ds) p =
    let rest = level_at-In n d ds in
    if_ind (λ (l : List Text). In n l → In (n, d) (e ∷ ds)) (e.1 == d) _ _
      (λ h q. elim (In-cons n e.0 (level_at d ds) q) [
        | inl same ↦ subst (λ x. In x (e ∷ ds)) (pair same (ground arith)) here
        | inr r ↦ there (rest r)
      ])
      (λ h q. there (rest q)) p
  where
    pair : n ≡ e.0 → e.1 ≡ d → e ≡ (n, d)
    pair a b = cc

pub In-level_at : (n : Text) (d : ℕ) (ds : Depths) → get n ds ≡ some d → In n (level_at d ds)
unfolding level_at get
In-level_at n d [] h = cc
In-level_at n d (e ∷ ds) h =
    let rest = In-level_at n d ds in
    if_ind
      (λ (o : Option ℕ).
        o ≡ some d → In n (if e.1 == d then e.0 ∷ level_at d ds else level_at d ds))
      (text_eq e.0 n) _ _ (λ g p. at_head (text_eq-eq e.0 n g) (value p)) (λ g p. later (rest p)) h
  where
    value : some e.1 ≡ some d → e.1 ≡ d
    value p = cc

    at_head : e.0 ≡ n → e.1 ≡ d → In n (if e.1 == d then e.0 ∷ level_at d ds else level_at d ds)
    at_head same is =
        if_ind (λ (l : List Text). In n l) (e.1 == d) _ _
          (λ g. subst (λ x. In x (e.0 ∷ level_at d ds)) same here) (λ g. absurd (ground arith))

    later : In n (level_at d ds) → In n (if e.1 == d then e.0 ∷ level_at d ds else level_at d ds)
    later p = if_ind (λ (l : List Text). In n l) (e.1 == d) _ _ (λ g. there p) (λ g. p)

In-key : (n : Text) (d : ℕ) (ds : Depths) → In (n, d) ds → In n (keys_of ds)
In-key n d [] p = elim p [ ]
In-key n d (e ∷ ds) p = elim (In-cons (n, d) e ds p) [
  | inl h ↦ subst (λ x. In x (keys_of (e ∷ ds))) (sym (ap (λ (x : Text × ℕ). x.0) h)) here
  | inr q ↦ there (In-key n d ds q)
]

In-depth_of :
    (n : Text) (d : ℕ) (ds : Depths) → NoDup (keys_of ds) → In (n, d) ds → get n ds ≡ some d
unfolding get
In-depth_of n d [] h p = elim p [ ]
In-depth_of n d (e ∷ ds) h p = elim (In-cons (n, d) e ds p) [
  | inl g ↦ rw (← g) (rw (text_eq_refl n) refl)
  | inr q ↦ elim (Bool-cases (text_eq e.0 n)) [
    | inl g ↦
        absurd (h.0 (subst (λ x. In x (keys_of ds)) (sym (text_eq-eq e.0 n g)) (In-key n d ds q)))
    | inr g ↦ rw g (In-depth_of n d ds h.1 q)
  ]
]

max_of-depth :
    (n : Text) (d : ℕ) (ds : Depths)
    → get n ds ≡ some d
    → d ≤ max_of (map (λ (e : Text × ℕ). e.1) ds)
unfolding get max_of
max_of-depth n d [] h = cc
max_of-depth n d (e ∷ ds) h = ground (arith, max_of-depth n d ds)

get_elem-levels :
    (n d i : ℕ) (ds : Depths)
    → i < n
    → get_elem? (levels_from n d ds) i ≡ some (level_at (d + i) ds)
unfolding levels_from
get_elem-levels zero d i ds h = absurd (omega arith)
get_elem-levels (suc n) d zero ds h = ap (λ k. some (level_at k ds)) (omega arith)
get_elem-levels (suc n) d (suc i) ds h =
    get_elem-levels n (suc d) i ds (omega arith) ∙ ap (λ k. some (level_at k ds)) (omega arith)

levels-get_elem :
    (n d i : ℕ) (ds : Depths) (level : List Text)
    → get_elem? (levels_from n d ds) i ≡ some level
    → level ≡ level_at (d + i) ds
unfolding levels_from
levels-get_elem zero d i ds level h = cc
levels-get_elem (suc n) d zero ds level h = cc (ap (λ k. level_at k ds) (plus_zero d))
  where
    plus_zero : (k : ℕ) → k + 0 ≡ k
    plus_zero k = omega arith
levels-get_elem (suc n) d (suc i) ds level h =
    levels-get_elem n (suc d) i ds level h ∙ ap (λ k. level_at k ds) (omega arith)

pub At-depth : (n : Text) (d : ℕ) (ds : Depths) → get n ds ≡ some d → At d n (levels_of ds)
At-depth n d ds h = (
  level_at (0 + d) ds,
  get_elem-levels _ 0 d ds (omega (arith, max_of-depth n d ds h)),
  subst (λ k. In n (level_at k ds)) (omega arith) (In-level_at n d ds h),
)

pub depth-At :
    (n : Text) (d : ℕ) (ds : Depths)
    → NoDup (keys_of ds)
    → At d n (levels_of ds)
    → get n ds ≡ some d
depth-At n d ds h (level, e, p) =
    let is : level ≡ level_at d ds =
      levels-get_elem _ 0 d ds level e ∙ ap (λ k. level_at k ds) (omega arith) in
    In-depth_of n d ds h (level_at-In n d ds (subst (λ l. In n l) is p))
