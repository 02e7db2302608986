-- ===== src/Family/Gateway.antt =====
-- The fuel of `family_from`, the loop over `tensorzero/` prefixes of src/family.rs.
use loker.Prelude.{ℕ, zero, suc, ◌+◌, ◌≤◌, ◌≡◌, refl, Option, none, some, [], ◌∷◌, length, arith}
use loker.Prelude.Text.{Text, strip_prefix}
use loker.Family.{Family, tensorzero, through_gateway, family_from}

-- What is left behind a prefix is shorter.
strip_prefix-shorter : (s p r : Text) → strip_prefix s p ≡ some r → length r + length p ≡ length s
unfolding strip_prefix
strip_prefix-shorter s [] r h = ground arith
strip_prefix-shorter [] (b ∷ p) r h = cc
strip_prefix-shorter (a ∷ s) (b ∷ p) r h = ground (arith, strip_prefix-shorter s p r)

through_same :
    (o : Option Text) (f g : Text → Family) (h : Family)
    → ((r : Text) → o ≡ some r → f r ≡ g r)
    → through_gateway o f h ≡ through_gateway o g h
through_same none f g h e = refl
through_same (some r) f g h e = e r refl

-- Fuel as long as the text is enough.
family_from_enough :
    (m n : ℕ) (id : Text) → length id ≤ m → length id ≤ n → family_from m id ≡ family_from n id
unfolding family_from strip_prefix
family_from_enough zero zero id hm hn = refl
family_from_enough zero (suc n) [] hm hn = refl
family_from_enough zero (suc n) (c ∷ id) hm hn = absurd (omega arith)
family_from_enough (suc m) zero [] hm hn = refl
family_from_enough (suc m) zero (c ∷ id) hm hn = absurd (omega arith)
family_from_enough (suc m) (suc n) id hm hn = through_same (strip_prefix id tensorzero) _ _ _ λ r e.
    let shorter : length r + 11 ≡ length id = strip_prefix-shorter id tensorzero r e in
    family_from_enough m n r (omega arith) (omega arith)
