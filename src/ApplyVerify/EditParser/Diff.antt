-- ===== src/ApplyVerify/EditParser/Diff.antt =====
-- `parse_unified_diff` of src/apply_verify/edit_parser.rs. The source walks an index `i` over the
-- lines; here the lines that are left are the argument.
use loker.Prelude.{
  ℕ, zero, suc, Bool, false, ◌||◌, Option, none, some, List, [], ◌∷◌, ◌++◌, ◌&&◌, not,
  if◌then◌else◌, or_else, unwrap_or, is_nil, length, Result, ok, err, ◌>>=◌, ◌==◌,
}
use loker.Prelude.Text.{
  Text, str, text_eq, starts_with, strip_prefix, trim, trim_end_newlines, lines,
}
use loker.ApplyVerify.EditParser.{FileEdit, ParsedEdits, EditParseError, invalid_diff, unified_diff}

abbrev strip_side : Text → Text
strip_side path =
    unwrap_or (or_else (strip_prefix path (str "a/")) (strip_prefix path (str "b/"))) path

unfoldable pub extract_diff_path : Text → Option Text
unfolding strip_prefix text_eq
extract_diff_path line =
    elim (or_else (strip_prefix line (str "--- ")) (strip_prefix line (str "+++ "))) [
      | none ↦ none
      | some rest ↦
          let path = trim rest in
          if text_eq path (str "/dev/null") then none else some (strip_side path)
    ]

abbrev pub is_old_header : Text → Bool
is_old_header line = starts_with line (str "--- ")

abbrev pub is_new_header : Text → Bool
is_new_header line = starts_with line (str "+++ ")

abbrev pub is_hunk_header : Text → Bool
is_hunk_header line = starts_with line (str "@@ ")

-- Where the loop over the hunks of a file stops.
abbrev pub ends_file : Text → Bool
ends_file line = is_old_header line || starts_with line (str "diff ")

abbrev pub no_newline_marker : Text
no_newline_marker = str "\\ No newline at end of file"

abbrev pub with_newline : Text → Text
with_newline s = s ++ (10 ∷ [])

-- What a line of a hunk that is no header adds to the old text, and to the new text.
unfoldable pub old_part : Text → Text
unfolding text_eq
old_part [] = with_newline []
old_part (c ∷ s) =
    if text_eq (c ∷ s) no_newline_marker
    then []
    else if c == b'-'
    then with_newline s
    else if c == b'+'
    then []
    else if c == b' '
    then with_newline s
    else with_newline (c ∷ s)

unfoldable pub new_part : Text → Text
unfolding text_eq
new_part [] = with_newline []
new_part (c ∷ s) =
    if text_eq (c ∷ s) no_newline_marker
    then []
    else if c == b'-'
    then []
    else if c == b'+'
    then with_newline s
    else if c == b' '
    then with_newline s
    else with_newline (c ∷ s)

-- The two loops over the hunks of one file, with the text so far. `in_hunk` says which of them
-- reads the line: a hunk header starts or ends a hunk, other lines count inside a hunk only.
-- The result has the lines at which the outer loop breaks.
unfoldable pub collect_hunks :
    (in_hunk : Bool) (old new : Text) → List Text → Text × Text × List Text
unfolding starts_with old_part new_part
collect_hunks in_hunk old new [] = (old, new, [])
collect_hunks in_hunk old new (line ∷ ls) =
    let header = is_hunk_header line in
    let body = in_hunk && not header in
    let rest =
      collect_hunks (in_hunk || header) (if body then old ++ old_part line else old)
        (if body then new ++ new_part line else new) ls in
    if ends_file line then (old, new, line ∷ ls) else rest

-- One file: the lines behind its `---` header, up to the edit and the lines that are left.
unfoldable pub parse_file : Text → List Text → Result (FileEdit × List Text) EditParseError
unfolding collect_hunks extract_diff_path trim_end_newlines
parse_file header [] = err (invalid_diff (str "expected +++ header after ---"))
parse_file header (plus ∷ ls) =
    let file_path =
      unwrap_or (extract_diff_path plus) (unwrap_or (extract_diff_path header) (str "unknown")) in
    let (old_text, new_text, rest) = collect_hunks false [] [] ls in
    let edit : FileEdit = record {
      file = file_path;
      old = trim_end_newlines old_text;
      new = trim_end_newlines new_text;
    } in
    if not (is_new_header plus)
    then err (invalid_diff (str "expected +++ header after ---"))
    else if is_nil old_text && is_nil new_text
    then err (invalid_diff (str "no hunks found for file: " ++ file_path))
    else ok (edit, rest)

-- The outer `while`, on fuel: each round takes a line at least.
unfoldable pub parse_files : ℕ → List Text → Result (List FileEdit) EditParseError
parse_files zero ls = ok []
parse_files (suc fuel) [] = ok []
parse_files (suc fuel) (line ∷ ls) =
    let skip = parse_files fuel ls in
    let take_file : Result (List FileEdit) EditParseError = (do
      found ← parse_file line ls
      more ← parse_files fuel found.1
      ok (found.0 ∷ more)) in
    if is_old_header line then take_file else skip

abbrev pub some_edits : List FileEdit → Result ParsedEdits EditParseError
some_edits edits =
    if is_nil edits
    then err (invalid_diff (str "no file headers found in diff"))
    else ok (record { edits = edits; format = unified_diff; summary = none })

unfoldable pub parse_unified_diff : Text → Result ParsedEdits EditParseError
parse_unified_diff content = do
  edits ← parse_files (length (lines content)) (lines content)
  some_edits edits
