-- ===== src/Prelude/Decimal.antt =====
-- `{}` for an unsigned number, and how many digits it has.
use Prim.Native.Nat.{ℕ, zero, suc, ◌+◌, ◌/◌, ◌%◌, ◌≤◌, ◌<◌}
use native.Mathlib.Omega.{arith}
use mathlib.Core.Path.{◌≡◌}
use mathlib.Core.List.{[], ◌∷◌, ◌++◌}
use loker.Prelude.Tests.{ltb, if◌then◌else◌, Bool-cases}
use mathlib.Core.Logic.{inl, inr}
use loker.Prelude.Text.{Text, byte_len, char_len}

-- The decimal digits of a number, on fuel: a number has no more digits than its value and one.
unfoldable pub digits : ℕ → ℕ → Text
digits zero n = []
digits (suc fuel) n =
    let rest = digits fuel (n / 10) in
    if ltb n 10 then (48 + n) ∷ [] else rest ++ ((48 + n % 10) ∷ [])

unfoldable pub decimal : ℕ → Text
unfolding digits
decimal n = digits (suc n) n

pub byte_len-append : (s t : Text) → byte_len (s ++ t) ≡ byte_len s + byte_len t
unfolding byte_len
byte_len-append [] t = omega arith
byte_len-append (c ∷ s) t = omega (arith, byte_len-append s t)

digit-byte : (d : ℕ) → d < 10 → char_len (48 + d) ≡ 1
unfolding char_len
digit-byte d h = ground arith

digits-bytes :
    (a m : ℕ)
    → byte_len (digits (suc a) m) ≡ (if ltb m 10 then 1 else suc (byte_len (digits a (m / 10))))
unfolding digits byte_len
digits-bytes a m = elim (Bool-cases (ltb m 10)) [
  | inl h ↦ rw h (omega (arith, digit-byte m (ground arith)))
  | inr h ↦ rw h (
      omega (
        arith,
        byte_len-append (digits a (m / 10)) ((48 + m % 10) ∷ []),
        digit-byte (m % 10) (omega arith),
      ))
]

-- A smaller number has no more digits.
digits_mono :
    (a b m n : ℕ)
    → m ≤ n
    → m ≤ a
    → n ≤ b
    → byte_len (digits (suc a) m) ≤ byte_len (digits (suc b) n)
digits_mono zero b m n h ha hb = ground (arith, digits-bytes zero m, digits-bytes b n)
digits_mono (suc a) zero m n h ha hb = ground (arith, digits-bytes (suc a) m, digits-bytes zero n)
digits_mono (suc a) (suc b) m n h ha hb = elim (Bool-cases (ltb m 10)) [
  | inl e ↦ ground (arith, digits-bytes (suc a) m, digits-bytes (suc b) n)
  | inr e ↦
      let m10 : 10 ≤ m = ground arith in
      let rest = digits_mono a b (m / 10) (n / 10) (omega arith) (omega arith) (omega arith) in
      ground (arith, digits-bytes (suc a) m, digits-bytes (suc b) n)
]

pub decimal_mono : (m n : ℕ) → m ≤ n → byte_len (decimal m) ≤ byte_len (decimal n)
unfolding decimal
decimal_mono m n h = digits_mono m n m n h (omega arith) (omega arith)
