-- ===== src/ApplyVerify/DiffApplier/Effects.antt =====
-- What one edit does to the files, on success and on each failure.
use loker.Prelude.{
  ◌≡◌, refl, sym, ap, subst, ◌∙◌, Bool, true, false, Option, none, some, [], ◌∷◌, Result, ok, err,
  match_result_ind, if◌then◌else◌, is_nil, ltb, ◌==◌,
}
use loker.Prelude.Text.{Text, match_count}
use loker.ApplyVerify.EditParser.{FileEdit, EditFormat, unified_diff, json_old_new, full_file}
use loker.ApplyVerify.Files.{
  PathBuf, IoError, not_found, other, FileSystem, FileLaws, Gone, content, readable, SameFiles,
  parent,
}
use loker.ApplyVerify.DiffApplier.{
  FileBackup, ApplyErrorKind, missing, ambiguous_match, write_failed, write_backup, make_dir,
  make_parent, create_file, full_file_over, find_replace_over, apply_as, read_failed,
  file_not_found, replace_in, apply_full_file, apply_find_replace, apply_one,
}

module _ (fs : FileSystem) (laws : FileLaws fs) where
  open fs use {World}
  open laws use {Links, links, same}

  -- From `v` to `w` the backup's file was written, and the backup holds what it was before.
  pub record Wrote (b : FileBackup) (v w : World) : Type 0 where
    pub before : content fs b.path v ≡ b.original_content
    pub after :
        (q : PathBuf)
        → content fs q w ≡ (if same (links v) b.path q then some b.new_content else content fs q v)
    pub links_kept : links w ≡ links v
    pub gone : (q : PathBuf) → Gone fs q w → Gone fs q v
    pub created : b.original_content ≡ none → Gone fs b.path v

  -- The file whose write failed: what is in it is not known.
  abbrev pub touched : Links → ApplyErrorKind → PathBuf → Bool
  touched l (write_failed p e) q = same l p q
  touched l _ q = false

  -- After a failure every file is as before, except the one whose write failed.
  pub record Failed (kind : ApplyErrorKind) (v w : World) : Type 0 where
    pub kept : (q : PathBuf) → touched (links v) kind q ≡ false → content fs q w ≡ content fs q v
    pub links_kept : links w ≡ links v
    pub gone : (q : PathBuf) → Gone fs q w → Gone fs q v

  pub record Outcome (v : World) (r : Result FileBackup ApplyErrorKind × World) : Type 0 where
    pub good : (b : FileBackup) (w : World) → r ≡ (ok b, w) → Wrote b v w
    pub bad : (kind : ApplyErrorKind) (w : World) → r ≡ (err kind, w) → Failed kind v w

  abbrev Holds : World → Result FileBackup ApplyErrorKind × World → Type 0
  Holds v (ok b, w) = Wrote b v w
  Holds v (err kind, w) = Failed kind v w

  Outcome-ok : {b : FileBackup} {v w : World} → Wrote b v w → Outcome v (ok b, w)
  Outcome-ok {v = v} h = record { good = λ b w e. subst (Holds v) e h; bad = λ kind w e. cc }

  Outcome-err : {kind : ApplyErrorKind} {v w : World} → Failed kind v w → Outcome v (err kind, w)
  Outcome-err {v = v} h = record { good = λ b w e. cc; bad = λ kind w e. subst (Holds v) e h }

  Outcome-refuse :
      (b : Bool) (kind : ApplyErrorKind) (v : World) (y : Result FileBackup ApplyErrorKind × World)
      → Outcome v y
      → Outcome v (if b then (err kind, v) else y)
  Outcome-refuse true kind v y h =
      Outcome-err (record { kept = λ q k. refl; links_kept = refl; gone = λ q g. g })
  Outcome-refuse false kind v y h = h

  written :
      (p q : PathBuf) (t : Text) (v w w' : World)
      → SameFiles fs laws w v
      → fs.write p t w ≡ (ok tt, w')
      → content fs q w' ≡ (if same (links v) p q then some t else content fs q v)
  written p q t v w w' (l, g, same_files) e =
      rw (← l) (rw (← same_files q) (rw e at (laws.write-ok p q t w (rw e))))

  written-links :
      (p : PathBuf) (t : Text) (v w w' : World) (x : Result Unit IoError)
      → SameFiles fs laws w v
      → fs.write p t w ≡ (x, w')
      → links w' ≡ links v
  written-links p t v w w' x same_files e = rw e at (laws.write-links p t w) ∙ same_files.0

  written-gone :
      (p q : PathBuf) (t : Text) (v w w' : World) (x : Result Unit IoError)
      → SameFiles fs laws w v
      → fs.write p t w ≡ (x, w')
      → Gone fs q w'
      → Gone fs q v
  written-gone p q t v w w' x same_files e g = same_files.1 q (
      laws.write-gone p q t w
        (subst (λ (r : Result Unit IoError × World). Gone fs q r.1) (sym e) g))

  unwritten :
      (p q : PathBuf) (t : Text) (v w w' : World) (x : Result Unit IoError)
      → SameFiles fs laws w v
      → fs.write p t w ≡ (x, w')
      → same (links v) p q ≡ false
      → content fs q w' ≡ content fs q v
  unwritten p q t v w w' x (l, g, same_files) e h =
      rw e at (laws.write-other p q t w (ap (λ k. same k p q) l ∙ h)) ∙ same_files q

  write_backup-Outcome :
      (p : PathBuf) (original : Option Text) (t : Text) (v w : World)
      → content fs p v ≡ original
      → (original ≡ none → Gone fs p v)
      → SameFiles fs laws w v
      → Outcome v (write_backup fs p original t w)
  write_backup-Outcome p original t v w before created same_files =
      match_result_ind (Outcome v) (fs.write p t w)
        (λ u w' e. Outcome-ok (record {
          before = before;
          after = λ q. written p q t v w w' same_files e;
          links_kept = written-links p t v w w' (ok tt) same_files e;
          gone = λ q g. written-gone p q t v w w' (ok tt) same_files e g;
          created = created;
        }))
        (λ x w' e. Outcome-err (record {
          kept = λ q h. unwritten p q t v w w' (err x) same_files e h;
          links_kept = written-links p t v w w' (err x) same_files e;
          gone = λ q g. written-gone p q t v w w' (err x) same_files e g;
        }))

  unchanged : (kind : ApplyErrorKind) (v : World) → Outcome v (err kind, v)
  unchanged kind v = Outcome-err (record { kept = λ q h. refl; links_kept = refl; gone = λ q g. g })

  make_parent-keeps : (p : PathBuf) (v : World) → SameFiles fs laws (make_parent fs p v).1 v
  make_parent-keeps p v = go (parent p)
    where
      go : (dir : Option PathBuf) → SameFiles fs laws (make_dir fs dir v).1 v
      go none = (refl, (λ q g. g), λ q. refl)
      go (some []) = (refl, (λ q g. g), λ q. refl)
      go (some (c ∷ cs)) = (
        laws.create_dir-links (c ∷ cs) v,
        (λ q. laws.create_dir-gone (c ∷ cs) q v),
        λ q. laws.create_dir-keeps (c ∷ cs) q v,
      )

  read_content :
      (p : PathBuf) (v : World) (r : Result Text IoError)
      → fs.read_to_string p v ≡ r
      → content fs p v ≡ readable r
  read_content p v r e = rw e

  create_file-Outcome :
      (p : PathBuf) (t : Text) (v : World) → Gone fs p v → Outcome v (create_file fs p t v)
  create_file-Outcome p t v absent =
      match_result_ind (Outcome v) (make_parent fs p v)
        (λ u w' e.
          write_backup-Outcome p none t v w' (read_content p v (err not_found) absent) (λ u. absent)
            (rw e at (make_parent-keeps p v)))
        (λ x w' e.
          let keeps : SameFiles fs laws w' v = rw e at (make_parent-keeps p v) in
          Outcome-err (record { kept = λ q h. keeps.2 q; links_kept = keeps.0; gone = keeps.1 }))

  apply_full_file-Outcome :
      (edit : FileEdit) (p : PathBuf) (v : World) → Outcome v (apply_full_file fs edit p v)
  unfolding apply_full_file
  apply_full_file-Outcome edit p v = go (fs.read_to_string p v) refl
    where
      go :
          (r : Result Text IoError)
          → fs.read_to_string p v ≡ r
          → Outcome v (full_file_over fs edit p r v)
      go (ok c) e =
          write_backup-Outcome p (some c) edit.new v v (read_content p v (ok c) e) (λ n. cc)
            (refl, (λ q g. g), λ q. refl)
      go (err not_found) e = create_file-Outcome p edit.new v e
      go (err (other x)) e = unchanged (read_failed p (other x)) v

  replace_in-Outcome :
      (edit : FileEdit) (p : PathBuf) (format : EditFormat) (c : Text) (v : World)
      → content fs p v ≡ some c
      → Outcome v (replace_in fs edit p format c v)
  unfolding replace_in
  replace_in-Outcome edit p format c v before =
      let count = match_count c edit.old in
      Outcome-refuse (is_nil edit.old) _ v _ (
        Outcome-refuse (count == 0) (missing format p edit.old) v _ (
          Outcome-refuse (ltb 1 count) (ambiguous_match p count) v _
            (write_backup-Outcome p (some c) _ v v before (λ n. cc) (refl, (λ q g. g), λ q. refl))))

  apply_find_replace-Outcome :
      (edit : FileEdit) (p : PathBuf) (format : EditFormat) (v : World)
      → Outcome v (apply_find_replace fs edit p format v)
  unfolding apply_find_replace
  apply_find_replace-Outcome edit p format v = go (fs.read_to_string p v) refl
    where
      go :
          (r : Result Text IoError)
          → fs.read_to_string p v ≡ r
          → Outcome v (find_replace_over fs edit p format r v)
      go (ok c) e = replace_in-Outcome edit p format c v (read_content p v (ok c) e)
      go (err not_found) e = unchanged (file_not_found p) v
      go (err (other x)) e = unchanged (read_failed p (other x)) v

  apply_as-Outcome :
      (format : EditFormat) (edit : FileEdit) (p : PathBuf) (v : World)
      → Outcome v (apply_as fs format edit p v)
  apply_as-Outcome full_file edit p v = apply_full_file-Outcome edit p v
  apply_as-Outcome json_old_new edit p v = apply_find_replace-Outcome edit p json_old_new v
  apply_as-Outcome unified_diff edit p v = apply_find_replace-Outcome edit p unified_diff v

  pub apply_one-Outcome :
      (cwd : PathBuf) (format : EditFormat) (edit : FileEdit) (v : World)
      → Outcome v (apply_one fs cwd format edit v)
  unfolding apply_one
  apply_one-Outcome cwd format edit v = search (Outcome-refuse, apply_as-Outcome)
