-- ===== src/Grammar/References.antt =====
-- What the references to backends and inputs of src/workflow/grammar.rs are, as they are written.
use loker.Prelude.{
  ℕ, true, Option, none, some, [], ◌∷◌, ◌++◌, ◌≡◌, ◌≢◌, ◌↔◌, inl, inr, refl, sym, subst, Result, ok,
  Bool-cases, if_ind, is_nil-ne, ◌==◌, ==_iff, if◌then◌else◌,
}
use loker.Prelude.Text.{Text, str, text_eq, strip_prefix, starts_with, split_once}
use loker.Prelude.TextOrd.{text_eq-eq, strip_prefix-eq}
use loker.Grammar.{
  BackendRef, tensor_zero, claude, codex, gemini, ollama, InputRef, phase_ref, var_ref, spec,
  WorkflowError, resolve_split, resolve_backend_scheme, parse_input_ref, with_name, without_name,
  named_input, parse_stripped,
}

-- How a backend is written.
abbrev pub render_backend : BackendRef → Text
render_backend (tensor_zero function) = str "tensorzero/" ++ function
render_backend claude = str "claude/"
render_backend codex = str "codex/"
render_backend gemini = str "gemini/"
render_backend (ollama model) = str "ollama/" ++ model

abbrev pub IsBackend : BackendRef → Type 0
IsBackend (tensor_zero function) = function ≢ []
IsBackend (ollama model) = model ≢ []
IsBackend claude = Unit
IsBackend codex = Unit
IsBackend gemini = Unit

-- How an input is written.
abbrev pub render_input : InputRef → Text
render_input (phase_ref name) = str "phase:" ++ name
render_input (var_ref name) = str "var:" ++ name
render_input spec = str "spec"

abbrev pub IsInput : InputRef → Type 0
IsInput (phase_ref name) = name ≢ []
IsInput (var_ref name) = name ≢ []
IsInput spec = Unit

resolve-render : (r : BackendRef) → IsBackend r → resolve_backend_scheme (render_backend r) ≡ ok r
unfolding resolve_backend_scheme split_once text_eq
resolve-render (tensor_zero function) h = rw (is_nil-ne function h) refl
resolve-render (ollama model) h = rw (is_nil-ne model h) refl
resolve-render claude h = refl
resolve-render codex h = refl
resolve-render gemini h = refl

split_once-eq :
    (c : ℕ) (s before after : Text)
    → split_once c s ≡ some (before, after)
    → s ≡ before ++ (c ∷ after)
unfolding split_once
split_once-eq c [] before after h = cc
split_once-eq c (a ∷ s) before after h = elim (Bool-cases (a == c)) [
  | inl e ↦ now e (rw e at h)
  | inr e ↦ later (split_once c s) refl (split_once-eq c s) (rw e at h)
]
  where
    now :
        (a == c) ≡ true
        → ◌≡◌ {A = Option (Text × Text)} (some ([], s)) (some (before, after))
        → a ∷ s ≡ before ++ (c ∷ after)
    now e k = cc ((==_iff a c).0 e)

    later :
        (o : Option (Text × Text))
        → split_once c s ≡ o
        → ((x y : Text) → split_once c s ≡ some (x, y) → s ≡ x ++ (c ∷ y))
        → ◌≡◌ {A = Option (Text × Text)}
            (elim o [ none ↦ none | some p ↦ some (a ∷ p.0, p.1) ])
            (some (before, after))
        → a ∷ s ≡ before ++ (c ∷ after)
    later none f ih k = cc
    later (some (x, y)) f ih k = cc (ih x y f)

-- `r` is a backend, and `raw` is how it is written.
abbrev Writes : Text → BackendRef → Type 0
Writes raw r = IsBackend r × (raw ≡ render_backend r)

module _ (raw : Text) (r : BackendRef) where
  with_name-Writes :
      (rest : Text) (make : Text → BackendRef)
      → (rest ≢ [] → Writes raw (make rest))
      → with_name raw rest make ≡ ok r
      → Writes raw r
  with_name-Writes [] make h e = cc
  with_name-Writes (c ∷ rest) make h e =
      let same : make (c ∷ rest) ≡ r = cc in subst (Writes raw) same (h (λ k. cc))

  without_name-Writes :
      (rest : Text) (backend : BackendRef)
      → (rest ≡ [] → Writes raw backend)
      → without_name raw rest backend ≡ ok r
      → Writes raw r
  without_name-Writes [] backend h e =
      let same : backend ≡ r = cc in subst (Writes raw) same (h refl)
  without_name-Writes (c ∷ rest) backend h e = cc

  by_scheme :
      (scheme rest name : Text) (this others : Result BackendRef WorkflowError)
      → raw ≡ scheme ++ (b'/' ∷ rest)
      → (raw ≡ name ++ (b'/' ∷ rest) → this ≡ ok r → Writes raw r)
      → (others ≡ ok r → Writes raw r)
      → (if text_eq scheme name then this else others) ≡ ok r
      → Writes raw r
  by_scheme scheme rest name this others written h k =
      if_ind (λ x. x ≡ ok r → Writes raw r) (text_eq scheme name) this others
        (λ e. h (subst (λ t. raw ≡ t ++ (b'/' ∷ rest)) (text_eq-eq scheme name e) written)) (λ e. k)

  resolve_split-Writes :
      (scheme rest : Text)
      → raw ≡ scheme ++ (b'/' ∷ rest)
      → resolve_split raw (some (scheme, rest)) ≡ ok r
      → Writes raw r
  resolve_split-Writes scheme rest w =
      by_scheme scheme rest (str "tensorzero") _ _ w
        (λ e. with_name-Writes rest tensor_zero (λ n. (n, e)))
        (by_scheme scheme rest (str "claude") _ _ w
          (λ e. without_name-Writes rest claude (λ n. (tt, rw n at e)))
          (by_scheme scheme rest (str "codex") _ _ w
            (λ e. without_name-Writes rest codex (λ n. (tt, rw n at e)))
            (by_scheme scheme rest (str "gemini") _ _ w
              (λ e. without_name-Writes rest gemini (λ n. (tt, rw n at e)))
              (by_scheme scheme rest (str "ollama") _ _ w
                (λ e. with_name-Writes rest ollama (λ n. (n, e))) (λ e. cc)))))

resolve_backend_scheme-Writes :
    (raw : Text) (r : BackendRef) → resolve_backend_scheme raw ≡ ok r → Writes raw r
unfolding resolve_backend_scheme
resolve_backend_scheme-Writes raw r e = split (split_once b'/' raw) refl e
  where
    split :
        (o : Option (Text × Text))
        → split_once b'/' raw ≡ o
        → resolve_split raw o ≡ ok r
        → Writes raw r
    split none f k = cc
    split (some (scheme, rest)) f k =
        resolve_split-Writes raw r scheme rest (split_once-eq b'/' raw scheme rest f) k

-- A text resolves to a backend exactly when it is how that backend is written, and the name behind
-- the slash is not empty where the scheme wants one.
pub resolve_backend_scheme_iff :
    (raw : Text) (r : BackendRef)
    → (resolve_backend_scheme raw ≡ ok r) ↔ (IsBackend r × (raw ≡ render_backend r))
resolve_backend_scheme_iff raw r = (
  resolve_backend_scheme-Writes raw r,
  (λ (h : Writes raw r).
      subst (λ t. resolve_backend_scheme t ≡ ok r) (sym h.1) (resolve-render r h.0)),
)

parse-render : (i : InputRef) → IsInput i → parse_input_ref (render_input i) ≡ ok i
unfolding parse_input_ref text_eq strip_prefix starts_with
parse-render (phase_ref name) h = rw (is_nil-ne name h) refl
parse-render (var_ref name) h = rw (is_nil-ne name h) refl
parse-render spec h = refl

parse_input_ref-Reads :
    (raw : Text) (i : InputRef) → parse_input_ref raw ≡ ok i → IsInput i × (raw ≡ render_input i)
unfolding parse_input_ref
parse_input_ref-Reads raw i =
    if_ind (λ x. x ≡ ok i → Reads i) (text_eq raw (str "spec")) _ _
      (λ h e. let same : spec ≡ i = cc in subst Reads same (tt, text_eq-eq raw (str "spec") h))
      (λ h. stripped (strip_prefix raw (str "phase:")) (strip_prefix raw (str "var:")) refl refl)
  where
    Reads : InputRef → Type 0
    Reads i = IsInput i × (raw ≡ render_input i)

    named :
        (pre name : Text) (make : Text → InputRef)
        → strip_prefix raw pre ≡ some name
        → (name ≢ [] → raw ≡ pre ++ name → Reads (make name))
        → named_input raw name make ≡ ok i
        → Reads i
    named pre [] make f h e = cc
    named pre (c ∷ name) make f h e =
        let same : make (c ∷ name) ≡ i = cc in
        subst Reads same (h (λ k. cc) (strip_prefix-eq raw pre (c ∷ name) f))

    stripped :
        (o p : Option Text)
        → strip_prefix raw (str "phase:") ≡ o
        → strip_prefix raw (str "var:") ≡ p
        → parse_stripped raw o p ≡ ok i
        → Reads i
    stripped (some name) p f g = named (str "phase:") name phase_ref f (λ n w. (n, w))
    stripped none (some name) f g = named (str "var:") name var_ref g (λ n w. (n, w))
    stripped none none f g = λ e. cc

-- A text is a reference to an input exactly when it is how that input is written.
pub parse_input_ref_iff :
    (raw : Text) (i : InputRef)
    → (parse_input_ref raw ≡ ok i) ↔ (IsInput i × (raw ≡ render_input i))
parse_input_ref_iff raw i = (
  parse_input_ref-Reads raw i,
  (λ (h : IsInput i × (raw ≡ render_input i)).
      subst (λ t. parse_input_ref t ≡ ok i) (sym h.1) (parse-render i h.0)),
)
