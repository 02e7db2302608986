-- ===== src/ApplyVerify/EditParser.antt =====
-- src/apply_verify/edit_parser.rs: from the raw text of a model to a list of file edits.
-- `serde_json` and Unicode's lower-case table are not code of the repository: the record `Deps`
-- stands for them.
pub mod Diff
pub mod FullFile
pub mod Entry
pub mod RoundTrip
pub mod Normal
pub mod Sanitize
use loker.Prelude.{
  ℕ, ◌+◌, ◌*◌, ◌/◌, ◌%◌, Bool, true, false, not, ◌&&◌, ◌||◌, Option, none, some, List, [], ◌∷◌,
  ◌++◌, map, leb, ◌==◌, if◌then◌else◌, or_else, is_nil, drop, take, Result, ok, err,
}
use loker.Prelude.Text.{Text, str, text_eq, starts_with, contains, find, trim, trim_end_newlines}

pub record FileEdit : Type 0 where
  pub file : Text
  pub old : Text
  pub new : Text

pub data EditFormat : Type 0 where
  unified_diff json_old_new full_file : EditFormat

pub record ParsedEdits : Type 0 where
  pub edits : List FileEdit
  pub format : EditFormat
  pub summary : Option Text

pub data EditParseError : Type 0 where
  no_content input_too_large : EditParseError
  invalid_diff invalid_json invalid_format : Text → EditParseError

pub record JsonWrapper : Type 0 where
  pub edits : List FileEdit
  pub summary : Option Text
  pub message : Option Text

-- What the parser calls and the repository does not hold: the two `serde_json::from_str` calls,
-- with `none` for a failure, and `str::to_lowercase`.
pub record Deps : Type 0 where
  pub json_wrapper : Text → Option JsonWrapper
  pub json_array : Text → Option (List FileEdit)
  pub to_lowercase : Text → Text

abbrev pub max_input_size : ℕ
max_input_size = 1024 * 1024

abbrev pub fence : Text
fence = str "```"

unfoldable pub find_closing_fence : Text → Option ℕ
unfolding find starts_with
find_closing_fence text = elim (find text (10 ∷ fence)) [
  | some pos ↦ some pos
  | none ↦ if starts_with text fence then some 0 else none
]

-- The hint after the opening fence, and where the content starts.
unfoldable pub fence_header : Text → Option Text × ℕ
unfolding find trim
fence_header after = elim (find after (10 ∷ [])) [
  | some nl ↦ let hint = trim (take nl after) in (if is_nil hint then none else some hint, nl + 1)
  | none ↦ (none, 0)
]

unfoldable pub extract_code_block : Text → Text × Option Text
unfolding find find_closing_fence fence_header
extract_code_block input = elim (find input fence) [
  | none ↦ (input, none)
  | some start ↦
      let after = drop (start + 3) input in
      let (lang_hint, content_start) = fence_header after in
      let remaining = drop content_start after in
      elim (find_closing_fence remaining) [
        | some end ↦ (take end remaining, lang_hint)
        | none ↦ (input, none)
      ]
]

-- The heuristics of `detect_format`, where no language hint decides.
unfoldable pub detect_by_content : Text → EditFormat
unfolding contains starts_with
detect_by_content content =
    let marked = contains content (10 ∷ str "--- ") || starts_with content (str "--- ") in
    let body = contains content (10 ∷ str "+++ ") || contains content (10 ∷ str "@@ ") in
    let hunk = contains content (10 ∷ str "@@ -") || starts_with content (str "@@ -") in
    let json = starts_with content (str "{") || starts_with content (str "[") in
    if marked && body
    then unified_diff
    else if hunk
    then unified_diff
    else if json
    then json_old_new
    else full_file

unfoldable pub detect_format : (Text → Text) → Text → Option Text → EditFormat
unfolding detect_by_content text_eq
detect_format to_lowercase content none = detect_by_content content
detect_format to_lowercase content (some hint) =
    let hint_lower = to_lowercase hint in
    if text_eq hint_lower (str "diff") || text_eq hint_lower (str "patch")
    then unified_diff
    else if text_eq hint_lower (str "json")
    then json_old_new
    else detect_by_content content

abbrev pub hex_digit : ℕ → ℕ
hex_digit n = if leb n 9 then 48 + n else 87 + n

-- `char::is_control`
unfoldable pub is_control : ℕ → Bool
is_control c = leb c 31 || (leb 127 c && leb c 159)

-- What `sanitize_json_strings` writes for a code point inside a string, behind no backslash.
-- A control code point is below 160, so `{:04x}` has two zeros and two digits.
unfoldable pub escape_char : ℕ → Text
unfolding is_control
escape_char c =
    if c == 10
    then str "\\n"
    else if c == 9
    then str "\\t"
    else if c == 13
    then str "\\r"
    else if is_control c
    then str "\\u00" ++ hex_digit (c / 16) ∷ hex_digit (c % 16) ∷ []
    else c ∷ []

-- The loop of `sanitize_json_strings` over its two flags.
unfoldable pub sanitize_from : (in_string prev_was_backslash : Bool) → Text → Text
unfolding escape_char
sanitize_from in_string prev [] = []
sanitize_from true true (ch ∷ s) = ch ∷ sanitize_from true false s
sanitize_from true false (ch ∷ s) = escape_char ch ++ sanitize_from (not (ch == 34)) (ch == 92) s
sanitize_from false prev (ch ∷ s) = ch ∷ sanitize_from (ch == 34) prev s

unfoldable pub sanitize_json_strings : Text → Text
unfolding sanitize_from
sanitize_json_strings input = sanitize_from false false input

unfoldable pub normalize_edit : FileEdit → FileEdit
unfolding trim_end_newlines
normalize_edit e = record e { old = trim_end_newlines e.old; new = trim_end_newlines e.new }

unfoldable pub normalize_edits : List FileEdit → List FileEdit
unfolding normalize_edit
normalize_edits edits = map normalize_edit edits

abbrev pub json_edits : List FileEdit → Option Text → ParsedEdits
json_edits es summary = record {
  edits = normalize_edits es;
  format = json_old_new;
  summary = summary;
}

abbrev pub from_wrapper : Option JsonWrapper → Option ParsedEdits
from_wrapper none = none
from_wrapper (some w) =
    if is_nil w.edits then none else some (json_edits w.edits (or_else w.summary w.message))

abbrev pub from_array : Option (List FileEdit) → Option ParsedEdits
from_array none = none
from_array (some es) = if is_nil es then none else some (json_edits es none)

-- The closure `try_parse` of `parse_json_edits`.
unfoldable pub try_parse : Deps → Text → Option ParsedEdits
try_parse deps c = or_else (from_wrapper (deps.json_wrapper c)) (from_array (deps.json_array c))

unfoldable pub parse_json_edits : Deps → Text → Result ParsedEdits EditParseError
parse_json_edits deps content = elim (try_parse deps content) [
  | some result ↦ ok result
  | none ↦ elim (try_parse deps (sanitize_json_strings content)) [
    | some result ↦ ok result
    | none ↦ err (invalid_json (str "could not parse as AgenticOutput or bare FileEdit array"))
  ]
]
