-- ===== src/Prelude/Names.antt =====
-- Lists of names, compared as texts.
use Prim.Native.Nat.{ℕ, zero, suc, ◌<◌, ◌≤◌}
use native.Mathlib.Omega.{arith}
use mathlib.Core.Path.{◌≡◌, refl, sym, ap, subst}
use mathlib.Core.Logic.{◌⊎◌, inl, inr}
use mathlib.Core.Bool.{Bool, true, false, ◌||◌}
use mathlib.Core.List.{List, [], ◌∷◌, ◌++◌}
use loker.Prelude.Tests.{Bool-cases}
use mathlib.Core.Option.{some}
use loker.Prelude.Lists.{length, length-append, get_elem?, In, here, there}
use loker.Prelude.Text.{Text, text_eq}
use loker.Prelude.TextOrd.{text_eq-eq}

pub text_eq_refl : (t : Text) → text_eq t t ≡ true
unfolding text_eq
text_eq_refl [] = refl
text_eq_refl (c ∷ t) = ground (arith, text_eq_refl t)

-- `contains`
abbrev pub mem : Text → List Text → Bool
mem n [] = false
mem n (m ∷ ms) = text_eq m n || mem n ms

pub mem-In : (n : Text) (ms : List Text) → mem n ms ≡ true → In n ms
mem-In n [] h = cc
mem-In n (m ∷ ms) h = elim (Bool-cases (text_eq m n)) [
  | inl e ↦ subst (λ x. In n (x ∷ ms)) (sym (text_eq-eq m n e)) here
  | inr e ↦ there (mem-In n ms (ground arith))
]

pub In-mem : (n : Text) (ms : List Text) → In n ms → mem n ms ≡ true
In-mem n [] p = elim p [ ]
In-mem n (m ∷ ms) here = rw (text_eq_refl n)
In-mem n (m ∷ ms) (there p) = ground (arith, In-mem n ms p)

module _ {ℓ} {A : Type ℓ} where
  pub In-left : {a : A} (xs ys : List A) → In a xs → In a (xs ++ ys)
  In-left [] ys p = elim p [ ]
  In-left (x ∷ xs) ys here = here
  In-left (x ∷ xs) ys (there p) = there (In-left xs ys p)

  pub In-right : {a : A} (xs ys : List A) → In a ys → In a (xs ++ ys)
  In-right [] ys p = p
  In-right (x ∷ xs) ys p = there (In-right xs ys p)

  pub In-append : {a : A} (xs ys : List A) → In a (xs ++ ys) → In a xs ⊎ In a ys
  In-append [] ys p = inr p
  In-append (x ∷ xs) ys here = inl here
  In-append (x ∷ xs) ys (there p) = elim (In-append xs ys p) [
    | inl q ↦ inl (there q)
    | inr q ↦ inr q
  ]

  pub In-one : (a x : A) → In a (x ∷ []) → a ≡ x
  In-one a x here = refl
  In-one a x (there p) = elim p [ ]

  pub In-cons : (a x : A) (xs : List A) → In a (x ∷ xs) → (a ≡ x) ⊎ In a xs
  In-cons a x xs here = inl refl
  In-cons a x xs (there p) = inr p

  -- An index below the length has its element.
  pub get_elem-below :
      (xs : List A) (i : ℕ) → i < length xs → (a : A) × (get_elem? xs i ≡ some a) × In a xs
  get_elem-below [] i h = absurd (omega arith)
  get_elem-below (x ∷ xs) zero h = (x, refl, here)
  get_elem-below (x ∷ xs) (suc i) h =
      let (a, e, p) = get_elem-below xs i (omega arith) in (a, e, there p)

  pub get_elem-In : (xs : List A) (i : ℕ) (a : A) → get_elem? xs i ≡ some a → In a xs
  get_elem-In [] i a h = cc
  get_elem-In (x ∷ xs) zero a h = subst (λ y. In y (x ∷ xs)) (cc) here
  get_elem-In (x ∷ xs) (suc i) a h = there (get_elem-In xs i a h)

  -- No element stands twice.
  abbrev pub NoDup : List A → Type ℓ
  NoDup [] = Unit
  NoDup (x ∷ xs) = ¬ In x xs × NoDup xs

  pub NoDup-snoc : (xs : List A) (a : A) → NoDup xs → ¬ In a xs → NoDup (xs ++ (a ∷ []))
  NoDup-snoc [] a h n = ((λ p. elim p [ ]), tt)
  NoDup-snoc (x ∷ xs) a h n = (
    (λ p. elim (In-append xs (a ∷ []) p) [
      | inl q ↦ h.0 q
      | inr q ↦ n (subst (λ y. In y (x ∷ xs)) (In-one x a q) here)
    ]),
    NoDup-snoc xs a h.1 (λ p. n (there p)),
  )

  In-split : (a : A) (ys : List A) → In a ys → (us : List A) × (vs : List A) × (ys ≡ us ++ (a ∷ vs))
  In-split a [] p = elim p [ ]
  In-split a (y ∷ ys) here = ([], ys, refl)
  In-split a (y ∷ ys) (there p) =
      let (us, vs, e) = In-split a ys p in (y ∷ us, vs, ap (λ l. y ∷ l) e)

  -- A list with no element twice is no longer than a list that has all its elements.
  pub pigeonhole :
      (xs ys : List A) → NoDup xs → ((a : A) → In a xs → In a ys) → length xs ≤ length ys
  pigeonhole [] ys h sub = omega arith
  pigeonhole (x ∷ xs) ys h sub =
      let (us, vs, e) = In-split x ys (sub x here) in
      let fewer = pigeonhole xs (us ++ vs) h.1 (λ a p.
        elim (In-append us (x ∷ vs) (subst (λ l. In a l) e (sub a (there p)))) [
          | inl q ↦ In-left us vs q
          | inr q ↦ In-right us vs (behind a vs p q)
        ]) in
      rw e (omega (arith, length-append us vs, length-append us (x ∷ vs)))
    where
      behind : (a : A) (vs : List A) → In a xs → In a (x ∷ vs) → In a vs
      behind a vs p q = elim (In-cons a x vs q) [
        | inl e ↦ absurd (h.0 (subst (λ y. In y xs) e p))
        | inr r ↦ r
      ]
