-- ===== src/ApplyVerify/DiffApplier.antt =====
-- src/apply_verify/diff_applier.rs. An operation takes the world and returns its result with the
-- world that it leaves; an error carries the backups made so far.
pub mod Effects
pub mod Replaced
use loker.Prelude.{
  ℕ, Bool, ◌||◌, not, Option, none, some, List, [], ◌∷◌, ◌++◌, Result, ok, err, match_result, ◌==◌,
  ltb, if◌then◌else◌, is_nil, take,
}
use loker.Prelude.Text.{Text, str, match_count, replace_first}
use loker.ApplyVerify.EditParser.{
  FileEdit, EditFormat, unified_diff, json_old_new, full_file, ParsedEdits,
}
use loker.ApplyVerify.Files.{
  PathBuf, IoError, not_found, other, FileSystem, is_absolute, components, has_parent_dir, join,
  path_starts_with, parent,
}

abbrev pub snippet_len : ℕ
snippet_len = 80

pub record FileBackup : Type 0 where
  pub path : PathBuf
  pub original_content : Option Text
  pub new_content : Text

pub record ApplyResult : Type 0 where
  pub modified_files : List FileBackup
  pub format_applied : EditFormat

pub data ApplyErrorKind : Type 0 where
  file_not_found : PathBuf → ApplyErrorKind
  read_failed : PathBuf → IoError → ApplyErrorKind
  write_failed : PathBuf → IoError → ApplyErrorKind
  old_text_not_found : PathBuf → (snippet : Text) → ApplyErrorKind
  ambiguous_match : PathBuf → (count : ℕ) → ApplyErrorKind
  multi_hunk_diff_not_contiguous : PathBuf → ApplyErrorKind
  invalid_edit : (reason : Text) → ApplyErrorKind

pub record ApplyError : Type 0 where
  pub kind : ApplyErrorKind
  pub partial : ApplyResult

-- The guard on `edit.file`, which a model has written: `true` refuses it.
unfoldable pub escapes : PathBuf → Text → Bool
unfolding is_absolute components has_parent_dir join path_starts_with
escapes cwd file =
    is_absolute file
    || has_parent_dir (components file)
    || not (path_starts_with (join cwd file) cwd)

-- The error for old text that does not occur.
abbrev pub missing : EditFormat → PathBuf → Text → ApplyErrorKind
missing unified_diff path old = multi_hunk_diff_not_contiguous path
missing _ path old = old_text_not_found path (take snippet_len old)

module _ (fs : FileSystem) where
  open fs use {World, read_to_string, write, create_dir_all}

  abbrev pub Applies : Type 0 → Type 0
  Applies A = World → Result A ApplyErrorKind × World

  -- The write at the end of both functions.
  abbrev pub write_backup : PathBuf → Option Text → Text → Applies FileBackup
  write_backup path original text w =
      match_result (write path text w)
        (λ _ w'. (ok (record { path = path; original_content = original; new_content = text }), w'))
        (λ e w'. (err (write_failed path e), w'))

  abbrev pub make_dir : Option PathBuf → World → Result (Unit {0}) IoError × World
  make_dir none w = (ok tt, w)
  make_dir (some dir) w = if is_nil dir then (ok tt, w) else create_dir_all dir w

  -- `if original_content.is_none() { create_dir_all(parent) }`
  abbrev pub make_parent : PathBuf → World → Result (Unit {0}) IoError × World
  make_parent path w = make_dir (parent path) w

  abbrev pub create_file : PathBuf → Text → Applies FileBackup
  create_file path text w =
      match_result (make_parent path w) (λ _ w'. write_backup path none text w')
        (λ e w'. (err (write_failed path e), w'))

  abbrev pub full_file_over : FileEdit → PathBuf → Result Text IoError → Applies FileBackup
  full_file_over edit path (ok c) w = write_backup path (some c) edit.new w
  full_file_over edit path (err not_found) w = create_file path edit.new w
  full_file_over edit path (err (other e)) w = (err (read_failed path (other e)), w)

  unfoldable pub apply_full_file : FileEdit → PathBuf → Applies FileBackup
  apply_full_file edit path w = full_file_over edit path (read_to_string path w) w

  -- `apply_find_replace` behind the read.
  unfoldable pub replace_in : FileEdit → PathBuf → EditFormat → Text → Applies FileBackup
  replace_in edit path format c w =
      let count = match_count c edit.old in
      if is_nil edit.old
      then (err (invalid_edit (str "find/replace edit requires non-empty old text")), w)
      else if count == 0
      then (err (missing format path edit.old), w)
      else if ltb 1 count
      then (err (ambiguous_match path count), w)
      else write_backup path (some c) (replace_first c edit.old edit.new) w

  abbrev pub find_replace_over :
      FileEdit → PathBuf → EditFormat → Result Text IoError → Applies FileBackup
  find_replace_over edit path format (ok c) w = replace_in edit path format c w
  find_replace_over edit path format (err not_found) w = (err (file_not_found path), w)
  find_replace_over edit path format (err (other e)) w = (err (read_failed path (other e)), w)

  unfoldable pub apply_find_replace : FileEdit → PathBuf → EditFormat → Applies FileBackup
  apply_find_replace edit path format w =
      find_replace_over edit path format (read_to_string path w) w

  abbrev pub apply_as : EditFormat → FileEdit → PathBuf → Applies FileBackup
  apply_as full_file edit path = apply_full_file edit path
  apply_as json_old_new edit path = apply_find_replace edit path json_old_new
  apply_as unified_diff edit path = apply_find_replace edit path unified_diff

  -- The body of the loop of `apply`, for one edit.
  unfoldable pub apply_one : PathBuf → EditFormat → FileEdit → Applies FileBackup
  apply_one cwd format edit w =
      if is_nil edit.file
      then (err (invalid_edit (str "empty file path")), w)
      else if escapes cwd edit.file
      then (err (invalid_edit (str "path escapes working directory: " ++ edit.file)), w)
      else apply_as format edit (join cwd edit.file) w

  abbrev pub Applied : Type 0
  Applied = Result ApplyResult ApplyError × World

  -- The loop of `apply`; `made` are the backups so far.
  unfoldable pub apply_edits :
      PathBuf → EditFormat → (made : List FileBackup) → List FileEdit → World → Applied
  apply_edits cwd format made [] w =
      (ok (record { modified_files = made; format_applied = format }), w)
  apply_edits cwd format made (edit ∷ edits) w =
      match_result (apply_one cwd format edit w)
        (λ backup w'. apply_edits cwd format (made ++ (backup ∷ [])) edits w')
        (λ kind w'. (
          err (record {
            kind = kind;
            partial = record { modified_files = made; format_applied = format };
          }),
          w',
        ))

  unfoldable pub apply : ParsedEdits → PathBuf → World → Applied
  apply parsed cwd w = apply_edits cwd parsed.format [] parsed.edits w
