-- ===== src/Workflow/Validate.antt =====
-- What loading a workflow checks, of src/workflow/mod.rs: `validate`, `validate_with_capabilities`.
pub mod Bounds
pub mod Capable
use loker.Prelude.{
  ℕ, Bool, true, false, Option, none, some, List, [], ◌∷◌, if◌then◌else◌, is_nil, unwrap_or, ltb,
  ◌&&◌, length, Result, ok, err, ◌>>=◌,
}
use loker.Prelude.Text.{Text, text_eq}
use loker.Workflow.{
  Step, Workflow, WorkflowError, min_deps_success_exceeds_deps, timeout_too_small,
  missing_capability, apply_edits_multi_backend, missing_backend_for_capability, step_timeout,
  get_backends,
}

-- `MIN_TIMEOUT_MS`
abbrev pub min_timeout_ms : ℕ
min_timeout_ms = 100

-- `BackendCapabilities` of src/backend/mod.rs, and `none` of it.
pub record BackendCapabilities : Type 0 where
  pub tool_use : Bool
  pub streaming : Bool
  pub file_edit : Bool

abbrev pub no_capabilities : BackendCapabilities
no_capabilities = record { tool_use = false; streaming = false; file_edit = false }

-- The two checks of one step, the bound on `min_deps_success` first.
abbrev pub check_min :
    Option ℕ → Step → Result (Unit {0}) WorkflowError → Result (Unit {0}) WorkflowError
check_min none s next = next
check_min (some min) s next =
    if ltb (length s.depends_on) min
    then err (min_deps_success_exceeds_deps s.name min (length s.depends_on))
    else next

abbrev pub check_timeout :
    Option ℕ → Step → Result (Unit {0}) WorkflowError → Result (Unit {0}) WorkflowError
check_timeout none s next = next
check_timeout (some timeout) s next =
    if ltb 0 timeout && ltb timeout min_timeout_ms
    then err (timeout_too_small s.name timeout)
    else next

unfoldable pub validate_steps : Workflow → List Step → Result (Unit {0}) WorkflowError
validate_steps w [] = ok tt
validate_steps w (s ∷ steps) =
    let rest = validate_steps w steps in
    check_min s.min_deps_success s (check_timeout (step_timeout w s) s rest)

-- `validate`
abbrev pub validate : Workflow → Result (Unit {0}) WorkflowError
validate w = validate_steps w w.steps

abbrev pub tool_use_name : Text
tool_use_name = b't' ∷ b'o' ∷ b'o' ∷ b'l' ∷ b'_' ∷ b'u' ∷ b's' ∷ b'e' ∷ []

abbrev pub streaming_name : Text
streaming_name = b's' ∷ b't' ∷ b'r' ∷ b'e' ∷ b'a' ∷ b'm' ∷ b'i' ∷ b'n' ∷ b'g' ∷ []

abbrev pub file_edit_name : Text
file_edit_name = b'f' ∷ b'i' ∷ b'l' ∷ b'e' ∷ b'_' ∷ b'e' ∷ b'd' ∷ b'i' ∷ b't' ∷ []

-- `required_capabilities`, without the reasons that go with the names.
abbrev pub required_capabilities : Step → List Text
required_capabilities s = if s.apply_edits then file_edit_name ∷ [] else []

-- `let satisfied = match *capability { .. }`
abbrev pub satisfied : BackendCapabilities → Text → Bool
satisfied caps capability =
    if text_eq capability tool_use_name
    then caps.tool_use
    else if text_eq capability streaming_name
    then caps.streaming
    else if text_eq capability file_edit_name
    then caps.file_edit
    else false

unfoldable pub check_demands :
    BackendCapabilities → (step backend : Text) → List Text → Result (Unit {0}) WorkflowError
check_demands caps step backend [] = ok tt
check_demands caps step backend (d ∷ demands) =
    let rest = check_demands caps step backend demands in
    if satisfied caps d then rest else err (missing_capability step backend d)

unfoldable pub check_backends :
    (Text → Option BackendCapabilities)
    → Text
    → List Text
    → (demands : List Text) → Result (Unit {0}) WorkflowError
check_backends lookup step [] demands = ok tt
check_backends lookup step (b ∷ bs) demands = do
  one ← check_demands (unwrap_or (lookup b) no_capabilities) step b demands
  check_backends lookup step bs demands

-- The body of the loop over the steps, on the name, `apply_edits` and the backends of the step.
abbrev pub check_step :
    (Text → Option BackendCapabilities)
    → Text
    → Bool
    → (backends demands : List Text) → Result (Unit {0}) WorkflowError
check_step lookup step apply_edits backends [] = ok tt
check_step lookup step apply_edits backends (d ∷ demands) =
    if apply_edits && ltb 1 (length backends)
    then err (apply_edits_multi_backend step backends)
    else if is_nil backends
    then err (missing_backend_for_capability step d)
    else check_backends lookup step backends (d ∷ demands)

unfoldable pub capable_steps :
    (Text → Option BackendCapabilities) → List Step → Result (Unit {0}) WorkflowError
capable_steps lookup [] = ok tt
capable_steps lookup (s ∷ steps) = do
  one ← check_step lookup s.name s.apply_edits (get_backends s) (required_capabilities s)
  capable_steps lookup steps

-- `validate_with_capabilities`
unfoldable pub validate_with_capabilities :
    (Text → Option BackendCapabilities) → Workflow → Result (Unit {0}) WorkflowError
validate_with_capabilities lookup w = do bounds ← validate w; capable_steps lookup w.steps
