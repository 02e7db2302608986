-- ===== src/Manifest/Kinds.antt =====
-- src/manifest.rs: a kind and the name that it is written as.
use loker.Prelude.{
  true, false, Option, none, some, List, [], ◌∷◌, ◌≡◌, ◌≢◌, ◌↔◌, inl, inr, refl, ap, sym, subst,
  ◌∙◌, Bool-cases, if_ind, All, In, here, there, Result, ok, err,
}
use loker.Prelude.Text.{Text, text_eq}
use loker.Prelude.TextOrd.{text_eq-eq}
use loker.Prelude.Names.{text_eq_refl, In-cons}
use loker.Manifest.FileNames.{
  Kind, other_md, KindError, invalid_other_md, is_valid_other_md, as_filename, serialize,
  fixed_kinds, first_named, or_other_md, deserialize, IsCanonical,
}

abbrev IsFixed : Kind → Type 0
IsFixed (other_md s) = ⊥
IsFixed _ = Unit

first_named-some :
    (kinds : List Kind) (s : Text) (k : Kind)
    → All IsFixed kinds
    → first_named kinds s ≡ some k
    → IsFixed k × (as_filename k ≡ s)
unfolding first_named
first_named-some [] s k a h = cc
first_named-some (x ∷ kinds) s k a h = elim (Bool-cases (text_eq (as_filename x) s)) [
  | inl e ↦
      (let same : some x ≡ some k = rw e at h in
        let eq : x ≡ k = cc in
        subst (λ y. IsFixed y × (as_filename y ≡ s)) eq (a.0, text_eq-eq (as_filename x) s e))
  | inr e ↦ first_named-some kinds s k a.1 (rw e at h)
]

first_named-none :
    (kinds : List Kind) (s : Text)
    → first_named kinds s ≡ none
    → (k : Kind) → In k kinds
    → as_filename k ≢ s
unfolding first_named
first_named-none [] s h k p same = elim p [ ]
first_named-none (x ∷ kinds) s h k p same = elim (Bool-cases (text_eq (as_filename x) s)) [
  | inl e ↦ absurd (let no : some x ≡ none = rw e at h in cc)
  | inr e ↦ elim (In-cons k x kinds p) [
    | inl q ↦
        let eq : text_eq (as_filename x) s ≡ true =
          text_eq-of (as_filename x) s (ap as_filename (sym q) ∙ same) in
        absurd (let no : true ≡ false = sym eq ∙ e in cc)
    | inr q ↦ first_named-none kinds s (rw e at h) k q same
  ]
]
  where
    text_eq-of : (t u : Text) → t ≡ u → text_eq t u ≡ true
    text_eq-of t u same = rw same (text_eq_refl u)

none-first_named :
    (kinds : List Kind) (s : Text)
    → ((k : Kind) → In k kinds → as_filename k ≢ s)
    → first_named kinds s ≡ none
unfolding first_named
none-first_named [] s h = refl
none-first_named (x ∷ kinds) s h = elim (Bool-cases (text_eq (as_filename x) s)) [
  | inl e ↦ absurd (h x here (text_eq-eq (as_filename x) s e))
  | inr e ↦ rw e (none-first_named kinds s (λ k p. h k (there p)))
]

serialize-fixed : (k : Kind) → IsFixed k → (serialize k ≡ ok (as_filename k)) × IsCanonical k
serialize-fixed (other_md s) f = absurd f
serialize-fixed _ f = (refl, tt)

deserialize-fixed : (k : Kind) → IsFixed k → deserialize (as_filename k) ≡ ok k
unfolding deserialize text_eq
deserialize-fixed (other_md s) f = absurd f
deserialize-fixed _ f = refl

serialize-other :
    (t s : Text) → serialize (other_md t) ≡ ok s → (is_valid_other_md t ≡ true) × (t ≡ s)
serialize-other t s h = elim (Bool-cases (is_valid_other_md t)) [
  | inl e ↦
      (e, (let same : ◌≡◌ {A = Result Text KindError} (ok t) (ok s) = rw (e, serialize) at h in cc))
  | inr e ↦ absurd (
      let no : ◌≡◌ {A = Result Text KindError} (err (invalid_other_md t)) (ok s) =
        rw (e, serialize) at h in
      cc)
]

deserialize-by :
    (s : Text) (o : Option Kind) → first_named fixed_kinds s ≡ o → deserialize s ≡ or_other_md s o
unfolding deserialize
deserialize-by s o e = ap (or_other_md s) e

all-IsFixed : All IsFixed fixed_kinds
all-IsFixed = (tt, (tt, (tt, (tt, (tt, (tt, (tt, (tt, (tt, (tt, tt))))))))))

-- A name is read as a kind exactly when that kind is written as the name, and is not the kind of
-- another Markdown file with the name of a fixed kind.
pub deserialize_iff :
    (s : Text) (k : Kind) → (deserialize s ≡ ok k) ↔ ((serialize k ≡ ok s) × IsCanonical k)
deserialize_iff s k =
    ((λ h. read (first_named fixed_kinds s) refl (sym (deserialize-by s _ refl) ∙ h)), back k)
  where
    read :
        (o : Option Kind)
        → first_named fixed_kinds s ≡ o
        → or_other_md s o ≡ ok k
        → (serialize k ≡ ok s) × IsCanonical k
    read (some x) e h =
        let same : x ≡ k = cc in
        let (f, n) = first_named-some fixed_kinds s x all-IsFixed e in
        let (w, c) = serialize-fixed x f in
        subst (λ y. (serialize y ≡ ok s) × IsCanonical y) same (w ∙ ap ok n, c)
    read none e h =
        if_ind (λ (r : Result Kind KindError). r ≡ ok k → (serialize k ≡ ok s) × IsCanonical k)
          (is_valid_other_md s) _ _
          (λ v w.
            let same : other_md s ≡ k = cc in
            subst (λ y. (serialize y ≡ ok s) × IsCanonical y) same
              (rw (v, serialize) refl, first_named-none fixed_kinds s e))
          (λ v w. absurd (cc)) h

    back : (k : Kind) → (serialize k ≡ ok s) × IsCanonical k → deserialize s ≡ ok k
    back (other_md t) h =
        let (v, same) = serialize-other t s h.0 in
        subst (λ x. deserialize x ≡ ok (other_md t)) same
          (deserialize-by t none (none-first_named fixed_kinds t h.1) ∙ rw v refl)
    back fixed h =
        let same : as_filename fixed ≡ s = cc in
        subst (λ x. deserialize x ≡ ok fixed) same (deserialize-fixed fixed tt)
