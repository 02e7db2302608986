-- ===== src/ApplyVerify/EditParser/Entry.antt =====
-- `EditParser::parse` of src/apply_verify/edit_parser.rs.
use loker.Prelude.{[], ◌∷◌, ltb, if◌then◌else◌, is_nil, Result, err}
use loker.Prelude.Text.{Text, trim, replace, byte_len}
use loker.ApplyVerify.EditParser.{
  Deps, EditFormat, unified_diff, json_old_new, full_file, ParsedEdits, EditParseError, no_content,
  input_too_large, max_input_size, extract_code_block, detect_format, parse_json_edits,
}
use loker.ApplyVerify.EditParser.Diff.{parse_unified_diff}
use loker.ApplyVerify.EditParser.FullFile.{parse_full_file}

-- The `match format` of `parse`.
unfoldable pub parse_as : Deps → EditFormat → Text → Result ParsedEdits EditParseError
parse_as deps unified_diff content = parse_unified_diff content
parse_as deps json_old_new content = parse_json_edits deps content
parse_as deps full_file content = parse_full_file content

-- `parse` behind the size test: the text has its line ends normalised and is trimmed.
unfoldable pub parse_trimmed : Deps → Text → Result ParsedEdits EditParseError
unfolding parse_as
parse_trimmed deps trimmed =
    let (block, lang_hint) = extract_code_block trimmed in
    let content = trim block in
    if is_nil trimmed
    then err no_content
    else if is_nil content
    then err no_content
    else parse_as deps (detect_format deps.to_lowercase content lang_hint) content

unfoldable pub parse : Deps → Text → Result ParsedEdits EditParseError
unfolding parse_trimmed
parse deps input =
    if ltb max_input_size (byte_len input)
    then err input_too_large
    else parse_trimmed deps (trim (replace input (13 ∷ 10 ∷ []) (10 ∷ [])))
