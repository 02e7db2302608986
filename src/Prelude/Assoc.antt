-- ===== src/Prelude/Assoc.antt =====
-- A map from texts as an association list: what Rust's `HashMap` keeps of one entry for each key.
use mathlib.Core.Path.{◌≡◌, refl}
use mathlib.Core.Logic.{inl, inr}
use mathlib.Core.Bool.{true, false}
use mathlib.Core.Option.{Option, none, some}
use mathlib.Core.List.{List, [], ◌∷◌}
use loker.Prelude.Tests.{if◌then◌else◌, Bool-cases}
use loker.Prelude.Text.{Text, text_eq}
use loker.Prelude.TextOrd.{text_eq-eq}

module _ {ℓ} {V : Type ℓ} where
  unfoldable pub get : Text → List (Text × V) → Option V
  get key [] = none
  get key (e ∷ map) = let rest = get key map in if text_eq e.0 key then some e.1 else rest

  -- The value of the key is replaced in its place, or comes last.
  unfoldable pub insert : Text → V → List (Text × V) → List (Text × V)
  insert key value [] = (key, value) ∷ []
  insert key value (e ∷ map) =
      let rest = insert key value map in if text_eq e.0 key then (key, value) ∷ map else e ∷ rest

  pub get-insert :
      (k key : Text) (value : V) (map : List (Text × V))
      → get k (insert key value map) ≡ (if text_eq key k then some value else get k map)
  unfolding get insert
  get-insert k key value [] = refl
  get-insert k key value (e ∷ map) = elim (Bool-cases (text_eq e.0 key)) [
    | inl h ↦ rw h (replaced h)
    | inr h ↦ rw h (elim (Bool-cases (text_eq e.0 k)) [
      | inl g ↦ rw g (rw (apart h g) refl)
      | inr g ↦ rw g (get-insert k key value map)
    ])
  ]
    where
      replaced :
          text_eq e.0 key ≡ true
          → (if text_eq key k then some value else get k map)
            ≡ (if text_eq key k then some value else if text_eq e.0 k then some e.1 else get k map)
      replaced h = elim (Bool-cases (text_eq key k)) [
        | inl g ↦ rw g refl
        | inr g ↦ rw g (rw (other g) refl)
      ]
        where
          other : text_eq key k ≡ false → text_eq e.0 k ≡ false
          other g = cc (text_eq-eq e.0 key h)

      apart : text_eq e.0 key ≡ false → text_eq e.0 k ≡ true → text_eq key k ≡ false
      apart h g = elim (Bool-cases (text_eq key k)) [ inl f ↦ cc (text_eq-eq key k f) | inr f ↦ f ]
