-- ===== src/ApplyVerify/EditParser/Normal.antt =====
-- What every accepted parse has in common, and the laws of `sanitize_json_strings`.
use loker.Prelude.{
  ℕ, zero, suc, ◌≡◌, refl, Bool, false, Option, none, some, List, [], ◌∷◌, is_nil, All, length,
  Result, ok, err, OnOk, OnOk-if, on_ok_rules, OnOk-ok, OnOk-err, OnOk-bind, arith, if◌then◌else◌,
  ◌==◌, or_else,
}
use loker.Prelude.Text.{Text, str, trim_end_newlines, cons_unless, lines, join_lines}
use loker.ApplyVerify.EditParser.{
  Deps, FileEdit, EditFormat, unified_diff, json_old_new, full_file, ParsedEdits, JsonWrapper,
  EditParseError, invalid_json, json_edits, from_wrapper, from_array, try_parse, parse_json_edits,
  normalize_edits, sanitize_json_strings,
}
use loker.ApplyVerify.EditParser.Diff.{parse_file, parse_files, parse_unified_diff, some_edits}
use loker.ApplyVerify.EditParser.FullFile.{header_path, edit_at, parse_full_lines, parse_full_file}
use loker.ApplyVerify.EditParser.Entry.{parse, parse_trimmed, parse_as}

-- The last code point is a line feed.
abbrev pub ends_newline : Text → Bool
ends_newline [] = false
ends_newline (c ∷ []) = c == 10
ends_newline (c ∷ d ∷ s) = ends_newline (d ∷ s)

abbrev pub IsClean : FileEdit → Type 0
IsClean e = (ends_newline e.old ≡ false) × (ends_newline e.new ≡ false)

-- There is an edit, and no edit's text ends in a line feed.
abbrev pub IsNormal : ParsedEdits → Type 0
IsNormal p = (is_nil p.edits ≡ false) × All IsClean p.edits

cons_unless-IsClean :
    (c : ℕ) (r : Text)
    → ends_newline r ≡ false
    → ends_newline (cons_unless (λ d. d == 10) c r) ≡ false
cons_unless-IsClean c [] h = ground arith
cons_unless-IsClean c (d ∷ r) h = h

trim_end_newlines-IsClean : (s : Text) → ends_newline (trim_end_newlines s) ≡ false
unfolding trim_end_newlines
trim_end_newlines-IsClean [] = refl
trim_end_newlines-IsClean (c ∷ s) =
    cons_unless-IsClean c (trim_end_newlines s) (trim_end_newlines-IsClean s)

normalize_edits-IsClean : (es : List FileEdit) → All IsClean (normalize_edits es)
unfolding normalize_edits
normalize_edits-IsClean [] = tt
normalize_edits-IsClean (e ∷ es) =
    ((trim_end_newlines-IsClean e.old, trim_end_newlines-IsClean e.new), normalize_edits-IsClean es)

abbrev OnSome : (ParsedEdits → Type 0) → Option ParsedEdits → Type 0
OnSome P none = Unit
OnSome P (some p) = P p

listed-IsNormal :
    (es : List FileEdit) (summary : Option Text)
    → OnSome IsNormal (if is_nil es then none else some (json_edits es summary))
unfolding normalize_edits
listed-IsNormal [] summary = tt
listed-IsNormal (e ∷ es) summary = (refl, normalize_edits-IsClean (e ∷ es))

from_array-IsNormal : (o : Option (List FileEdit)) → OnSome IsNormal (from_array o)
from_array-IsNormal none = tt
from_array-IsNormal (some es) = listed-IsNormal es none

from_wrapper-IsNormal : (o : Option JsonWrapper) → OnSome IsNormal (from_wrapper o)
from_wrapper-IsNormal none = tt
from_wrapper-IsNormal (some w) = listed-IsNormal w.edits (or_else w.summary w.message)

OnSome-or_else :
    (o p : Option ParsedEdits)
    → OnSome IsNormal o
    → OnSome IsNormal p
    → OnSome IsNormal (or_else o p)
OnSome-or_else none p ho hp = hp
OnSome-or_else (some a) p ho hp = ho

try_parse-IsNormal : (deps : Deps) (c : Text) → OnSome IsNormal (try_parse deps c)
unfolding try_parse
try_parse-IsNormal deps c =
    OnSome-or_else (from_wrapper (deps.json_wrapper c)) (from_array (deps.json_array c))
      (from_wrapper-IsNormal (deps.json_wrapper c)) (from_array-IsNormal (deps.json_array c))

abbrev json_or_refuse : Option ParsedEdits → Option ParsedEdits → Result ParsedEdits EditParseError
json_or_refuse (some r) p = ok r
json_or_refuse none (some r) = ok r
json_or_refuse none none =
    err (invalid_json (str "could not parse as AgenticOutput or bare FileEdit array"))

json_or_refuse-IsNormal :
    (o p : Option ParsedEdits)
    → OnSome IsNormal o
    → OnSome IsNormal p
    → OnOk IsNormal (json_or_refuse o p)
json_or_refuse-IsNormal (some r) p ho hp = OnOk-ok ho
json_or_refuse-IsNormal none (some r) ho hp = OnOk-ok hp
json_or_refuse-IsNormal none none ho hp = OnOk-err

parse_json_edits-IsNormal : (deps : Deps) (c : Text) → OnOk IsNormal (parse_json_edits deps c)
parse_json_edits-IsNormal deps c = rw (parse_json_edits_lem deps c) (
    json_or_refuse-IsNormal _ _ (try_parse-IsNormal deps c)
      (try_parse-IsNormal deps (sanitize_json_strings c)))
  where
    parse_json_edits_lem :
        (deps : Deps) (c : Text)
        → parse_json_edits deps c
          ≡ json_or_refuse (try_parse deps c) (try_parse deps (sanitize_json_strings c))
    parse_json_edits_lem deps c = unfold parse_json_edits in ground arith

abbrev Kept : FileEdit × List Text → Type 0
Kept r = IsClean r.0

parse_file-IsClean : (h : Text) (ls : List Text) → OnOk Kept (parse_file h ls)
unfolding parse_file
parse_file-IsClean h [] = OnOk-err
parse_file-IsClean h (plus ∷ ls) = search (on_ok_rules, trim_end_newlines-IsClean)

parse_files-IsClean : (fuel : ℕ) (ls : List Text) → OnOk (All IsClean) (parse_files fuel ls)
unfolding parse_files
parse_files-IsClean zero ls = OnOk-ok tt
parse_files-IsClean (suc fuel) [] = OnOk-ok tt
parse_files-IsClean (suc fuel) (line ∷ ls) =
    OnOk-if _ _ _
      (OnOk-bind _ _ (parse_file-IsClean line ls) λ found clean.
        OnOk-bind _ _ (parse_files-IsClean fuel found.1) λ more rest. OnOk-ok (clean, rest))
      (parse_files-IsClean fuel ls)

some_edits-IsNormal : (es : List FileEdit) → All IsClean es → OnOk IsNormal (some_edits es)
some_edits-IsNormal [] h = OnOk-err
some_edits-IsNormal (e ∷ es) h = OnOk-ok (refl, h)

parse_unified_diff-IsNormal : (c : Text) → OnOk IsNormal (parse_unified_diff c)
unfolding parse_unified_diff
parse_unified_diff-IsNormal c =
    OnOk-bind _ _ (parse_files-IsClean (length (lines c)) (lines c)) some_edits-IsNormal

edit_at-IsNormal : (o : Option Text) (ls : List Text) → OnOk IsNormal (edit_at o ls)
edit_at-IsNormal none ls = OnOk-err
edit_at-IsNormal (some path) ls =
    OnOk-if _ _ _ OnOk-err (OnOk-ok (refl, ((refl, trim_end_newlines-IsClean (join_lines ls)), tt)))

parse_full_file-IsNormal : (c : Text) → OnOk IsNormal (parse_full_file c)
unfolding parse_full_file
parse_full_file-IsNormal c = full_lines (lines c)
  where
    full_lines : (ls : List Text) → OnOk IsNormal (parse_full_lines ls)
    full_lines [] = unfold parse_full_lines in OnOk-err
    full_lines (line ∷ ls) = unfold parse_full_lines in edit_at-IsNormal (header_path line) ls

parse_as-IsNormal : (deps : Deps) (f : EditFormat) (c : Text) → OnOk IsNormal (parse_as deps f c)
unfolding parse_as
parse_as-IsNormal deps unified_diff c = parse_unified_diff-IsNormal c
parse_as-IsNormal deps json_old_new c = parse_json_edits-IsNormal deps c
parse_as-IsNormal deps full_file c = parse_full_file-IsNormal c

parse-OnOk : (deps : Deps) (input : Text) → OnOk IsNormal (parse deps input)
unfolding parse parse_trimmed
parse-OnOk deps input = search (on_ok_rules, parse_as-IsNormal)

-- An accepted parse has an edit at least, and no text of an edit ends in a line feed.
pub parse-IsNormal :
    (deps : Deps) (input : Text) (p : ParsedEdits) → parse deps input ≡ ok p → IsNormal p
parse-IsNormal deps input p = (parse-OnOk deps input).at p
