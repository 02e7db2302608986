-- ===== src/ApplyVerify/EditParser/Sanitize.antt =====
-- The laws of `sanitize_json_strings` of src/apply_verify/edit_parser.rs.
use loker.Prelude.{
  sym, subst, ◌↔◌, ◌&&◌, ◌+◌, ◌*◌, ◌-◌, ltb, if◌then◌else◌, Option, some, none, Bool-cases, inl,
  inr, ℕ, ◌≡◌, refl, Bool, true, false, not, [], ◌∷◌, ◌++◌, arith, ◌==◌, ap, ◌≤◌, ◌/◌, ◌%◌, ◌∙◌,
}
use loker.Prelude.Text.{Text, str}
use loker.ApplyVerify.EditParser.{
  hex_digit, is_control, escape_char, sanitize_from, sanitize_json_strings,
}

-- No control code point stands inside a string, behind no backslash. The flags are those of a
-- scanner for strings: inside one, and behind a backslash.
abbrev pub is_clean : (in_string behind : Bool) → Text → Bool
is_clean in_string behind [] = true
is_clean true true (c ∷ s) = is_clean true false s
is_clean true false (c ∷ s) = not (is_control c) && is_clean (not (c == 34)) (c == 92) s
is_clean false behind (c ∷ s) = is_clean (c == 34) behind s

-- The value of a digit of base 16.
abbrev pub hex_value : ℕ → ℕ
hex_value d = if ltb d 97 then d - 48 else d - 87

abbrev pub read_unicode : Text → Option (ℕ × Text)
read_unicode (a ∷ b ∷ c ∷ d ∷ s) =
    some (hex_value a * 4096 + hex_value b * 256 + hex_value c * 16 + hex_value d, s)
read_unicode _ = none

-- A JSON reader on an escape for a control code point: the code point and what follows.
abbrev pub read_escape : Text → Option (ℕ × Text)
read_escape (b ∷ k ∷ s) =
    if b == 92
    then if k == 110
      then some (10, s)
      else if k == 116
      then some (9, s)
      else if k == 114
      then some (13, s)
      else if k == 117
      then read_unicode s
      else none
    else none
read_escape _ = none

hex_bounds :
    (n : ℕ)
    → n ≤ 15
    → (32 ≤ hex_digit n)
      × (hex_digit n ≤ 126)
      × ((hex_digit n == 34) ≡ false)
      × ((hex_digit n == 92) ≡ false)
hex_bounds n h = ground arith

plain-clean :
    (d : ℕ) (s : Text)
    → 32 ≤ d
    → d ≤ 126
    → (d == 34) ≡ false
    → (d == 92) ≡ false
    → is_clean true false (d ∷ s) ≡ is_clean true false s
unfolding is_control
plain-clean d s lo hi quote slash = ground arith

hex-clean :
    (n : ℕ) (s : Text) → n ≤ 15 → is_clean true false (hex_digit n ∷ s) ≡ is_clean true false s
hex-clean n s h = let b = hex_bounds n h in plain-clean (hex_digit n) s b.0 b.1 b.2 b.3

hex_value-digit : (n : ℕ) → n ≤ 15 → hex_value (hex_digit n) ≡ n
hex_value-digit n h = ground arith

control-le : (c : ℕ) → is_control c ≡ true → c ≤ 159
unfolding is_control
control-le c h = ground arith

high : (c : ℕ) → is_control c ≡ true → c / 16 ≤ 15
high c h = omega (arith, control-le c h)

unicode-clean :
    (c : ℕ) (s : Text)
    → is_control c ≡ true
    → is_clean true false (str "\\u00" ++ hex_digit (c / 16) ∷ hex_digit (c % 16) ∷ s)
      ≡ is_clean true false s
unicode-clean c s h =
    prefix
    ∙ hex-clean (c / 16) (hex_digit (c % 16) ∷ s) (high c h)
    ∙ hex-clean (c % 16) s (omega arith)
  where
    prefix :
        is_clean true false (str "\\u00" ++ hex_digit (c / 16) ∷ hex_digit (c % 16) ∷ s)
        ≡ is_clean true false (hex_digit (c / 16) ∷ hex_digit (c % 16) ∷ s)
    prefix = unfold is_control in refl

unicode-read :
    (c : ℕ) (s : Text)
    → is_control c ≡ true
    → read_escape (str "\\u00" ++ hex_digit (c / 16) ∷ hex_digit (c % 16) ∷ s) ≡ some (c, s)
unicode-read c s h =
    ap (λ n. some (n, s))
      (omega (arith, hex_value-digit (c / 16) (high c h), hex_value-digit (c % 16) (omega arith)))

escape-clean :
    (c : ℕ) (s : Text)
    → is_clean true false (escape_char c ++ s) ≡ is_clean (not (c == 34)) (c == 92) s
unfolding escape_char is_control
escape-clean c s = ground (arith, unicode-clean c s)

escape-read :
    (c : ℕ) (s : Text) → is_control c ≡ true → read_escape (escape_char c ++ s) ≡ some (c, s)
unfolding escape_char
escape-read c s h = ground (arith, unicode-read c s)

sanitize_from-clean :
    (in_string prev : Bool) (s : Text)
    → is_clean in_string prev (sanitize_from in_string prev s) ≡ true
unfolding sanitize_from
sanitize_from-clean in_string prev [] = refl
sanitize_from-clean true true (c ∷ s) = sanitize_from-clean true false s
sanitize_from-clean true false (c ∷ s) =
    escape-clean c _ ∙ sanitize_from-clean (not (c == 34)) (c == 92) s
sanitize_from-clean false prev (c ∷ s) = sanitize_from-clean (c == 34) prev s

plain-escape : (c : ℕ) → is_control c ≡ false → escape_char c ≡ c ∷ []
unfolding escape_char is_control
plain-escape c h = ground arith

sanitize_from-fixed :
    (in_string prev : Bool) (s : Text)
    → is_clean in_string prev s ≡ true
    → sanitize_from in_string prev s ≡ s
unfolding sanitize_from
sanitize_from-fixed in_string prev [] h = refl
sanitize_from-fixed true true (c ∷ s) h = ap (λ t. c ∷ t) (sanitize_from-fixed true false s h)
sanitize_from-fixed true false (c ∷ s) h = elim (Bool-cases (is_control c)) [
  | inl e ↦ absurd (cc (rw e at h))
  | inr e ↦
      ap (λ t. t ++ sanitize_from (not (c == 34)) (c == 92) s) (plain-escape c e)
      ∙ ap (λ t. c ∷ t) (sanitize_from-fixed (not (c == 34)) (c == 92) s (rw e at h))
]
sanitize_from-fixed false prev (c ∷ s) h = ap (λ t. c ∷ t) (sanitize_from-fixed (c == 34) prev s h)

escaped :
    (c : ℕ) (s : Text)
    → read_escape (escape_char c ++ s) ≡ (if is_control c then some (c, s) else read_escape (c ∷ s))
escaped c s = elim (Bool-cases (is_control c)) [
  | inl e ↦ escape-read c s e ∙ sym (rw e refl)
  | inr e ↦ ap (λ t. read_escape (t ++ s)) (plain-escape c e) ∙ sym (rw e refl)
]

-- What is sanitised has no control code point inside a string but behind a backslash, and just the
-- texts that have none are left as they are. What is written for a code point inside a string is
-- read by a JSON reader of escapes as that code point if it is a control code point, whatever
-- follows, and else as the code point itself would be.
pub sanitize_json_strings-clean :
    (s : Text)
    → (is_clean false false (sanitize_json_strings s) ≡ true)
      × ((sanitize_json_strings s ≡ s) ↔ (is_clean false false s ≡ true))
      × ((c : ℕ)
          → read_escape (escape_char c ++ s)
            ≡ (if is_control c then some (c, s) else read_escape (c ∷ s)))
unfolding sanitize_json_strings
sanitize_json_strings-clean s = (
  sanitize_from-clean false false s,
  (
    (λ e. subst (λ t. is_clean false false t ≡ true) e (sanitize_from-clean false false s)),
    sanitize_from-fixed false false s,
  ),
  λ c. escaped c s,
)
