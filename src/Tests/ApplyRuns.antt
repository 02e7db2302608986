-- ===== src/Tests/ApplyRuns.antt =====
-- Runs of src/apply_verify on concrete inputs, and its theorems at them.
use loker.Prelude.{
  true, ◌↔◌, ℕ, ◌≡◌, refl, false, none, some, [], ◌∷◌, ◌++◌, ok, arith, if◌then◌else◌, inl, is_ok,
  map, Option,
}
use loker.Prelude.Text.{
  Text, str, trim, lines, replace, starts_with, byte_len, match_count, replace_first,
}
use loker.ApplyVerify.EditParser.Sanitize.{is_clean, read_escape, sanitize_json_strings-clean}
use loker.ApplyVerify.EditParser.{
  is_control, escape_char, sanitize_json_strings, Deps, ParsedEdits, unified_diff, detect_format,
  extract_code_block,
}
use loker.ApplyVerify.EditParser.Diff.{parse_file, parse_files, parse_unified_diff}
use loker.ApplyVerify.EditParser.Entry.{parse}
use loker.ApplyVerify.EditParser.RoundTrip.{
  FileDiff, removed, added, print_files, print_dashed, edit_of, IsPrintable,
  parse_files-print_files, parse_files-dashes,
}
use loker.ApplyVerify.EditParser.Normal.{IsNormal, parse-IsNormal}
use loker.ApplyVerify.Files.{PathBuf, normal, root_dir, SameFiles, Gone, content}
use loker.ApplyVerify.DiffApplier.Effects.{touched}
use loker.ApplyVerify.DiffApplier.{
  ApplyResult, ApplyError, file_not_found, apply, apply_edits, apply_one, apply_full_file,
  apply_find_replace, replace_in, escapes,
}
use loker.ApplyVerify.DiffApplier.Replaced.{Replaces, replace_in-Replaces}
use loker.ApplyVerify.Rollback.{rollback, rollback_each, rollback_one, is_fully_restored}
use loker.ApplyVerify.Rollback.Undo.{rollback-apply, rollback-apply_error}
use loker.ApplyVerify.RetryLoop.{
  RetryLoop, Calls, VerifyResult, execute, retry_from, attempt, after_apply, after_parse_error,
  after_apply_error, requery,
}
use loker.ApplyVerify.RetryLoop.Outcomes.{Sound, execute-Sound, execute_enough}
use loker.ApplyVerify.RetryLoop.Atomic.{Quiet, execute-restores}
use loker.Tests.Disk.{Disk, path_eq, memory, memory-laws, memory-IsUnlinked, memory-Reliable}

abbrev cwd : PathBuf
cwd = root_dir ∷ normal (str "w") ∷ []

abbrev deps : Deps
deps = record { json_wrapper = λ t. none; json_array = λ t. none; to_lowercase = λ t. t }

-- One file with the text "one two".
abbrev start : Disk
start p =
    if path_eq p (root_dir ∷ normal (str "w") ∷ normal (str "a") ∷ [])
    then some (str "one two")
    else none

abbrev raw : Text
raw = str "```diff\n--- a/a\n+++ b/a\n@@ -1 +1 @@\n-two\n+three\n```"

run : Unit {0}
unfolding parse extract_code_block detect_format byte_len parse_file parse_files parse_unified_diff
    trim lines replace apply apply_edits apply_one apply_find_replace apply_full_file replace_in
    match_count replace_first escapes rollback rollback_each rollback_one is_fully_restored execute
    retry_from attempt after_apply after_parse_error after_apply_error requery
run = tt

abbrev three : ParsedEdits
three = record {
  edits = record { file = str "a"; old = str "two"; new = str "three" } ∷ [];
  format = unified_diff;
  summary = none;
}

parsed_raw : parse deps raw ≡ ok three
unfolding run
parsed_raw = refl

abbrev file_a : PathBuf
file_a = root_dir ∷ normal (str "w") ∷ normal (str "a") ∷ []

-- The same edit, and then one of a file that is not there.
abbrev three_and_missing : ParsedEdits
three_and_missing = record {
  edits = three.edits ++ (record { file = str "b"; old = str "x"; new = str "y" } ∷ []);
  format = unified_diff;
  summary = none;
}

abbrev made : ApplyResult
made = record {
  modified_files =
      record {
        path = file_a;
        original_content = some (str "one two");
        new_content = str "one three";
      }
      ∷ [];
  format_applied = unified_diff;
}

abbrev partly : ApplyError
partly = record {
  kind = file_not_found (root_dir ∷ normal (str "w") ∷ normal (str "b") ∷ []);
  partial = made;
}

abbrev changed : Disk
changed p = if path_eq file_a p then some (str "one three") else start p

rollback-apply_example : SameFiles memory memory-laws (rollback memory made changed).1 start
unfolding run
rollback-apply_example =
    rollback-apply memory memory-laws three cwd start changed changed (memory-IsUnlinked start) made
      refl (refl, (λ q g. g), λ q. refl) refl

rollback-apply_error_example :
    (memory-laws.links (rollback memory made changed).1 ≡ memory-laws.links start)
    × ((q : PathBuf) → Gone memory q (rollback memory made changed).1 → Gone memory q start)
    × ((q : PathBuf)
        → touched memory memory-laws (memory-laws.links start) partly.kind q ≡ false
        → content memory q (rollback memory made changed).1 ≡ content memory q start)
unfolding run
rollback-apply_error_example =
    rollback-apply_error memory memory-laws three_and_missing cwd start changed changed
      (memory-IsUnlinked start) partly refl (refl, (λ q g. g), λ q. refl) refl

abbrev failing : VerifyResult
failing = record {
  success = false;
  stdout = [];
  stderr = str "no";
  exit_code = some 1;
  timed_out = false;
  truncated = false;
}

-- The requester has the same edits again.
abbrev calls : Calls memory
calls = record {
  deps = deps;
  verify_run = λ w. (failing, w);
  request_edits = λ c w. (ok raw, w);
  show_apply_error = λ k. str "error";
}

abbrev quiet : Quiet memory memory-laws calls
quiet = record {
  verify_keeps = λ w. (refl, (λ q g. g), λ q. refl);
  request_keeps = λ c w. (refl, (λ q g. g), λ q. refl);
}

abbrev once_more : RetryLoop
once_more = record { max_retries = 1; stop_on_parse_error = false }

execute-restores_example :
    SameFiles memory memory-laws (execute memory calls once_more cwd raw start).1 start
unfolding run
execute-restores_example =
    execute-restores memory memory-laws memory-Reliable calls quiet once_more cwd raw start
      (memory-IsUnlinked start) refl

execute-Sound_example :
    Sound memory calls once_more cwd (execute memory calls once_more cwd raw start).0
execute-Sound_example = execute-Sound memory calls once_more cwd raw start

execute_enough_example :
    retry_from memory calls once_more cwd 7 0 [] raw start
    ≡ execute memory calls once_more cwd raw start
execute_enough_example = execute_enough memory calls once_more cwd raw start 5

parse-IsNormal_example : IsNormal three
parse-IsNormal_example = parse-IsNormal deps raw three parsed_raw

abbrev broken_line : Text
broken_line = str "{\"a\": \"b\n\"}"

sanitize_json_strings-clean_example :
    (is_clean false false (sanitize_json_strings broken_line) ≡ true)
    × ((sanitize_json_strings broken_line ≡ broken_line)
        ↔ (is_clean false false broken_line ≡ true))
    × ((c : ℕ)
        → read_escape (escape_char c ++ broken_line)
          ≡ (if is_control c then some (c, broken_line) else read_escape (c ∷ broken_line)))
sanitize_json_strings-clean_example = sanitize_json_strings-clean broken_line

abbrev diff_a : FileDiff
diff_a = record {
  path = str "a";
  range = str "-1 +1 @@";
  hunk = removed (str "two") ∷ added (str "three") ∷ [];
}

diff_a-IsPrintable : IsPrintable diff_a
unfolding trim starts_with
diff_a-IsPrintable = record { trimmed = refl; plain = (refl, (tt, tt)); changes = inl refl }

parse_files-print_files_example :
    parse_files 10 (print_files (diff_a ∷ diff_a ∷ [])) ≡ ok (map edit_of (diff_a ∷ diff_a ∷ []))
parse_files-print_files_example =
    parse_files-print_files (diff_a ∷ diff_a ∷ []) 10 (omega arith)
      (diff_a-IsPrintable, (diff_a-IsPrintable, tt))

parse_files-dashes_example : is_ok (parse_files 6 (print_dashed diff_a (str "note") [])) ≡ false
parse_files-dashes_example =
    parse_files-dashes diff_a (str "note") [] 6 (omega arith) diff_a-IsPrintable tt

replace_in-Replaces_example :
    Replaces (str "one two") (str "two") (str "three") (str "one three")
    × (◌≡◌ {A = Option Text} (some (str "one two")) (some (str "one two")))
    × (memory.write file_a (str "one three") start ≡ (ok tt, changed))
unfolding replace_in match_count replace_first
replace_in-Replaces_example =
    replace_in-Replaces memory (record { file = str "a"; old = str "two"; new = str "three" })
      file_a unified_diff (str "one two") start changed
      (record {
        path = file_a;
        original_content = some (str "one two");
        new_content = str "one three";
      })
      refl
