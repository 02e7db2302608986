-- ===== src/Prelude/Outcome.antt =====
-- Rust's `Result`, and the operator `?` as the bind of a `do` block.
use mathlib.Core.Path.{◌≡◌, refl, subst}
use mathlib.Core.Bool.{Bool, true, false}
use loker.Prelude.Tests.{if◌then◌else◌}

pub data Result {ℓ} (A E : Type ℓ) : Type ℓ where
  err : (reason : E) → Result A E
  ok : (value : A) → Result A E

infixl 5 ◌>>=◌
abbrev pub ◌>>=◌ {ℓ} : {E A B : Type ℓ} → Result A E → (A → Result B E) → Result B E
(err reason) >>= next = err reason
(ok value) >>= next = next value

abbrev pub is_ok {ℓ} : {A E : Type ℓ} → Result A E → Bool
is_ok (err reason) = false
is_ok (ok value) = true

pub ok_inj {ℓ} : {A E : Type ℓ} (a b : A) → ◌≡◌ {A = Result A E} (ok a) (ok b) → a ≡ b
ok_inj a b e = cc

-- A result that is `ok` satisfies `P`.
pub record OnOk {ℓ} {A E : Type ℓ} (P : A → Type ℓ) (r : Result A E) : Type ℓ where
  pub at : (a : A) → r ≡ ok a → P a

abbrev Holds {ℓ} : {A E : Type ℓ} → (A → Type ℓ) → Result A E → Type ℓ
Holds P (ok a) = P a
Holds P (err e) = Unit

module _ {ℓ} {A E : Type ℓ} {P : A → Type ℓ} where
  pub OnOk-ok : {a : A} → P a → OnOk {E = E} P (ok a)
  OnOk-ok h = record { at = λ b e. subst (Holds P) e h }

  pub OnOk-err : {e : E} → OnOk {A = A} P (err e)
  OnOk-err = record { at = λ b e. cc }

  pub OnOk-if : (b : Bool) (x y : Result A E) → OnOk P x → OnOk P y → OnOk P (if b then x else y)
  OnOk-if true x y hx hy = hx
  OnOk-if false x y hx hy = hy

module _ {ℓ} {A B E : Type ℓ} {P : A → Type ℓ} {Q : B → Type ℓ} where
  pub OnOk-bind :
      (m : Result A E) (f : A → Result B E)
      → OnOk P m
      → ((a : A) → P a → OnOk Q (f a))
      → OnOk Q (m >>= f)
  OnOk-bind (ok a) f h k = k a (h.at a refl)
  OnOk-bind (err e) f h k = OnOk-err

pub ruleset on_ok_rules = (OnOk-ok, OnOk-err, OnOk-if, OnOk-bind)

-- What holds of both ways on holds of the whole.
pub bind_ind {ℓ κ} :
    {A B E : Type ℓ} (P : Result B E → Type κ) (m : Result A E) {next : A → Result B E}
    → ((value : A) → m ≡ ok value → P (next value))
    → ((reason : E) → m ≡ err reason → P (err reason))
    → P (m >>= next)
bind_ind P (ok value) good bad = good value refl
bind_ind P (err reason) good bad = bad reason refl

-- The `match` on the result of a call that also changes the world.
module _ {ℓ κ} {A E W : Type ℓ} {C : Type κ} where
  abbrev pub match_result : Result A E × W → (A → W → C) → (E → W → C) → C
  match_result (ok a, w) f g = f a w
  match_result (err e, w) f g = g e w

  pub match_result_ind {μ} :
      (P : C → Type μ) (r : Result A E × W) {f : A → W → C} {g : E → W → C}
      → ((a : A) (w : W) → r ≡ (ok a, w) → P (f a w))
      → ((e : E) (w : W) → r ≡ (err e, w) → P (g e w))
      → P (match_result r f g)
  match_result_ind P (ok a, w) good bad = good a w refl
  match_result_ind P (err e, w) good bad = bad e w refl
