-- ===== src/Prelude/TextOrd.antt =====
-- The order of texts: `str` compares bytes, which for UTF-8 is the order of the code points.
use loker.Prelude.Lists.{length, drop}
use mathlib.Core.Logic.{inl, inr}
use mathlib.Core.Option.{some, none}
use native.Mathlib.Omega.{arith}
use mathlib.Core.Path.{◌≡◌, refl, ap, ◌∙◌}
use mathlib.Core.Bool.{true}
use mathlib.Core.List.{[], ◌∷◌, ◌++◌}
use loker.Prelude.Tests.{ltb, if◌then◌else◌, ==_iff, Bool-cases}
use loker.Prelude.Text.{Text, text_eq, starts_with, strip_prefix}
use loker.Prelude.Sorted.{Ordering, less, equal, greater, Ord}

pub text_eq-eq : (s t : Text) → text_eq s t ≡ true → s ≡ t
unfolding text_eq
text_eq-eq [] [] h = refl
text_eq-eq [] (b ∷ t) h = cc
text_eq-eq (a ∷ s) [] h = cc
text_eq-eq (a ∷ s) (b ∷ t) h = ground (arith, text_eq-eq s t)

pub starts_with-eq : (s p : Text) → starts_with s p ≡ true → s ≡ p ++ drop (length p) s
unfolding starts_with
starts_with-eq s [] h = refl
starts_with-eq [] (a ∷ p) h = cc
starts_with-eq (b ∷ s) (a ∷ p) h = ground (arith, ==_iff b a, starts_with-eq s p)

pub strip_prefix-eq : (s p rest : Text) → strip_prefix s p ≡ some rest → s ≡ p ++ rest
unfolding strip_prefix
strip_prefix-eq s p rest h = elim (Bool-cases (starts_with s p)) [
  | inl e ↦
      let same : some (drop (length p) s) ≡ some rest = rw e at h in
      starts_with-eq s p e ∙ ap (λ t. p ++ t) (cc)
  | inr e ↦ (let off : none ≡ some rest = rw e at h in cc)
]

abbrev pub compare_text : Text → Text → Ordering
compare_text [] [] = equal
compare_text [] (b ∷ t) = less
compare_text (a ∷ s) [] = greater
compare_text (a ∷ s) (b ∷ t) =
    let rest = compare_text s t in if ltb a b then less else if ltb b a then greater else rest

pub compare_text-equal : (s t : Text) → compare_text s t ≡ equal → s ≡ t
compare_text-equal [] [] h = refl
compare_text-equal [] (b ∷ t) h = cc
compare_text-equal (a ∷ s) [] h = cc
compare_text-equal (a ∷ s) (b ∷ t) h = ground (arith, compare_text-equal s t)

pub compare_text_refl : (s : Text) → compare_text s s ≡ equal
compare_text_refl [] = refl
compare_text_refl (a ∷ s) = ground (arith, compare_text_refl s)

pub compare_text_trans :
    (s t u : Text) → compare_text s t ≡ less → compare_text t u ≡ less → compare_text s u ≡ less
compare_text_trans [] [] u h k = cc
compare_text_trans [] (b ∷ t) [] h k = cc
compare_text_trans [] (b ∷ t) (c ∷ u) h k = refl
compare_text_trans (a ∷ s) [] u h k = cc
compare_text_trans (a ∷ s) (b ∷ t) [] h k = cc
compare_text_trans (a ∷ s) (b ∷ t) (c ∷ u) h k = ground (arith, compare_text_trans s t u)

pub compare_text_flip : (s t : Text) → compare_text s t ≡ greater → compare_text t s ≡ less
compare_text_flip [] [] h = cc
compare_text_flip [] (b ∷ t) h = cc
compare_text_flip (a ∷ s) [] h = refl
compare_text_flip (a ∷ s) (b ∷ t) h = ground (arith, compare_text_flip s t)

abbrev pub text_ord : Ord Text
text_ord = record {
  compare = compare_text;
  compare-equal = compare_text-equal;
  compare_refl = compare_text_refl;
  compare_trans = compare_text_trans;
  compare_flip = compare_text_flip;
}
