-- ===== src/ApplyVerify/EditParser/FullFile.antt =====
-- `parse_full_file` of src/apply_verify/edit_parser.rs.
use loker.Prelude.{
  Option, none, some, List, [], ◌∷◌, if◌then◌else◌, or_else, unwrap_or, is_nil, Result, ok, err,
}
use loker.Prelude.Text.{Text, str, strip_prefix, trim, trim_end_newlines, lines, join_lines}
use loker.ApplyVerify.EditParser.{
  ParsedEdits, EditParseError, no_content, invalid_format, full_file,
}

-- The path that the first line names.
unfoldable pub header_path : Text → Option Text
unfolding strip_prefix trim
header_path line =
    let named = or_else (strip_prefix line (str "File: ")) (
      or_else (strip_prefix line (str "File:"))
        (or_else (strip_prefix line (str "file: ")) (strip_prefix line (str "file:")))) in
    elim named [
      | some path ↦ some (trim path)
      | none ↦ elim (strip_prefix line (str "--- ")) [
        | some rest ↦ let path = trim rest in some (unwrap_or (strip_prefix path (str "a/")) path)
        | none ↦ none
      ]
    ]

-- The body of the parser behind the choice of the path.
abbrev pub edit_at : Option Text → List Text → Result ParsedEdits EditParseError
edit_at none ls = err (
    invalid_format
      (str "full file content requires a 'File: path' or '--- a/path' header on the first line"))
edit_at (some file_path) ls =
    if is_nil file_path
    then err (invalid_format (str "file path is empty"))
    else ok (record {
      edits = record { file = file_path; old = []; new = trim_end_newlines (join_lines ls) } ∷ [];
      format = full_file;
      summary = none;
    })

unfoldable pub parse_full_lines : List Text → Result ParsedEdits EditParseError
parse_full_lines [] = err no_content
parse_full_lines (line ∷ ls) = edit_at (header_path line) ls

unfoldable pub parse_full_file : Text → Result ParsedEdits EditParseError
parse_full_file content = parse_full_lines (lines content)
