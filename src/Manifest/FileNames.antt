-- ===== src/Manifest/FileNames.antt =====
-- The kinds of artefacts of src/manifest.rs and the names that they are written as.
use loker.Prelude.{
  Bool, ◌&&◌, Option, none, some, List, [], ◌∷◌, if◌then◌else◌, is_some, ltb, ◌≢◌, In, Result, ok,
  err,
}
use loker.Prelude.Text.{Text, str, text_eq, byte_len, strip_suffix}

pub data Kind : Type 0 where
  design_md : Kind
  review_md : Kind
  plan_md : Kind
  other_md : (filename : Text) → Kind
  verify_json : Kind
  phase_result_json : Kind
  pending_json : Kind
  response_json : Kind
  summary_json : Kind
  changes_dir : Kind
  trace_jsonl : Kind

pub data KindError : Type 0 where
  invalid_other_md : (filename : Text) → KindError
  unknown_kind : (raw : Text) → KindError

unfoldable pub is_valid_other_md : Text → Bool
unfolding strip_suffix byte_len
is_valid_other_md s = is_some (strip_suffix s (str ".md")) && ltb 3 (byte_len s)

abbrev pub as_filename : Kind → Text
as_filename design_md = str "design.md"
as_filename review_md = str "review.md"
as_filename plan_md = str "plan.md"
as_filename (other_md s) = s
as_filename verify_json = str "verify.json"
as_filename phase_result_json = str "phase_result.json"
as_filename pending_json = str "pending.json"
as_filename response_json = str "response.json"
as_filename summary_json = str "summary.json"
as_filename changes_dir = str "changes/"
as_filename trace_jsonl = str "trace.jsonl"

abbrev pub check_other_md : Kind → Result (Unit {0}) KindError
check_other_md (other_md s) = if is_valid_other_md s then ok tt else err (invalid_other_md s)
check_other_md _ = ok tt

abbrev pub serialize : Kind → Result Text KindError
serialize kind = elim (check_other_md kind) [ err e ↦ err e | ok valid ↦ ok (as_filename kind) ]

-- The kinds of one fixed name, in the order of the arms of `deserialize`.
abbrev pub fixed_kinds : List Kind
fixed_kinds =
    design_md ∷ review_md ∷ plan_md ∷ verify_json ∷ phase_result_json ∷ pending_json ∷ response_json
    ∷ summary_json ∷ changes_dir ∷ trace_jsonl ∷ []

unfoldable pub first_named : List Kind → Text → Option Kind
unfolding text_eq
first_named [] s = none
first_named (kind ∷ kinds) s =
    let rest = first_named kinds s in if text_eq (as_filename kind) s then some kind else rest

abbrev pub or_other_md : Text → Option Kind → Result Kind KindError
or_other_md s (some kind) = ok kind
or_other_md s none = if is_valid_other_md s then ok (other_md s) else err (unknown_kind s)

unfoldable pub deserialize : Text → Result Kind KindError
unfolding first_named
deserialize s = or_other_md s (first_named fixed_kinds s)

-- A kind that is written, and read as itself: no other Markdown file has the name of a fixed kind.
abbrev pub IsCanonical : Kind → Type 0
IsCanonical (other_md s) = (kind : Kind) → In kind fixed_kinds → as_filename kind ≢ s
IsCanonical _ = Unit
