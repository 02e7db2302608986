-- ===== src/ApplyVerify/Rollback/Undo.antt =====
-- A rollback that reports no failure undoes what `apply` did.
use loker.Prelude.{
  ◌≡◌, refl, ap, ◌∙◌, subst, true, false, List, [], ◌∷◌, ◌++◌, Result, ok, err, match_result_ind,
}
use mathlib.Core.List.{reverse, reverse-append}
use loker.ApplyVerify.EditParser.{FileEdit, EditFormat, ParsedEdits}
use loker.ApplyVerify.Files.{PathBuf, FileSystem, FileLaws, content, SameFiles, Gone, IsUnlinked}
use loker.ApplyVerify.DiffApplier.{
  FileBackup, ApplyResult, ApplyError, apply_one, apply_edits, apply,
}
use loker.ApplyVerify.DiffApplier.Effects.{Wrote, touched, apply_one-Outcome}
use loker.ApplyVerify.Rollback.{empty_report, is_fully_restored, rollback}
use loker.ApplyVerify.Rollback.Undoes.{Agree, Undoes, Undoes-nil, Undoes-cons}

reverse-snoc {ℓ} : {A : Type ℓ} (xs : List A) (x : A) → reverse (xs ++ (x ∷ [])) ≡ x ∷ reverse xs
reverse-snoc xs x = reverse-append xs (x ∷ [])

module _ (fs : FileSystem) (laws : FileLaws fs) (Q : PathBuf → Type 0) where
  open fs use {World}
  open laws use {links}

  -- The files of `Q` have the same texts.
  -- What `apply_edits` returns, whose backups are undone from the world that it leaves. After an
  -- error the worlds need agree only where the failed write has not been.
  abbrev Undoable : World → Result ApplyResult ApplyError × World → Type 0
  Undoable v (ok a, d) = Undoes fs laws Q v (reverse a.modified_files) d
  Undoable v (err x, d) =
      ((q : PathBuf) → Q q → touched fs laws (links v) x.kind q ≡ false)
      → Undoes fs laws Q v (reverse x.partial.modified_files) d

  Undoes-later :
      (v m d : World) (bs : List FileBackup)
      → Agree fs laws Q d m
      → Undoes fs laws Q v bs m
      → Undoes fs laws Q v bs d
  Undoes-later v m d bs same_files u = record {
    undo = λ report w agree h.
        u.undo report w
          (
            agree.0 ∙ same_files.0,
            (λ q g. same_files.1 q (agree.1 q g)),
            λ q in_q. agree.2 q in_q ∙ same_files.2 q in_q,
          )
          h;
  }

  Wrote-IsUnlinked :
      (b : FileBackup) (m w : World)
      → IsUnlinked fs laws m
      → Wrote fs laws b m w
      → IsUnlinked fs laws w
  Wrote-IsUnlinked b m w h wrote p g =
      ap (λ l. laws.sole l p) wrote.links_kept ∙ h p (wrote.gone p g)

  apply_edits-Undoable :
      (cwd : PathBuf) (format : EditFormat) (edits : List FileEdit) (made : List FileBackup)
      (v m : World)
      → IsUnlinked fs laws m
      → links m ≡ links v
      → Undoes fs laws Q v (reverse made) m
      → Undoable v (apply_edits fs cwd format made edits m)
  unfolding apply_edits
  apply_edits-Undoable cwd format [] made v m h l u = u
  apply_edits-Undoable cwd format (edit ∷ edits) made v m h l u =
      let outcome = apply_one-Outcome fs laws cwd format edit m in
      match_result_ind (Undoable v) (apply_one fs cwd format edit m)
        (λ b w e.
          let wrote = outcome.good b w e in
          apply_edits-Undoable cwd format edits (made ++ (b ∷ [])) v w
            (Wrote-IsUnlinked b m w h wrote) (wrote.links_kept ∙ l)
            (rw (reverse-snoc made b) (Undoes-cons fs laws Q b (reverse made) v m w u h wrote)))
        (λ kind w e clean.
          let failed = outcome.bad kind w e in
          Undoes-later v m w (reverse made)
            (
              failed.links_kept,
              failed.gone,
              λ q in_q. failed.kept q (ap (λ k. touched fs laws k kind q) l ∙ clean q in_q),
            )
            u)

  apply-Undoable :
      (parsed : ParsedEdits) (cwd : PathBuf) (v : World)
      → IsUnlinked fs laws v
      → Undoable v (apply fs parsed cwd v)
  unfolding apply
  apply-Undoable parsed cwd v h =
      apply_edits-Undoable cwd parsed.format parsed.edits [] v v h refl (Undoes-nil fs laws Q v)

  -- A rollback of `r` from a world that agrees with `d`, if it reports no failure.
  abbrev pub RollsBack : World → ApplyResult → World → Type 0
  RollsBack v r d =
      (w : World)
      → Agree fs laws Q w d
      → is_fully_restored (rollback fs r w).0 ≡ true
      → Agree fs laws Q (rollback fs r w).1 v

  Undoes-RollsBack :
      (v d : World) (r : ApplyResult)
      → Undoes fs laws Q v (reverse r.modified_files) d
      → RollsBack v r d
  unfolding rollback is_fully_restored
  Undoes-RollsBack v d r u w agree h = u.undo empty_report w agree h

  pub rollback-apply_on :
      (parsed : ParsedEdits) (cwd : PathBuf) (v d : World) (r : ApplyResult)
      → IsUnlinked fs laws v
      → apply fs parsed cwd v ≡ (ok r, d)
      → RollsBack v r d
  rollback-apply_on parsed cwd v d r h e =
      Undoes-RollsBack v d r (subst (Undoable v) e (apply-Undoable parsed cwd v h))

  pub rollback-apply_error_on :
      (parsed : ParsedEdits) (cwd : PathBuf) (v d : World) (x : ApplyError)
      → IsUnlinked fs laws v
      → apply fs parsed cwd v ≡ (err x, d)
      → ((q : PathBuf) → Q q → touched fs laws (links v) x.kind q ≡ false)
      → RollsBack v x.partial d
  rollback-apply_error_on parsed cwd v d x h e clean =
      Undoes-RollsBack v d x.partial (subst (Undoable v) e (apply-Undoable parsed cwd v h) clean)

module _ (fs : FileSystem) (laws : FileLaws fs) (parsed : ParsedEdits) (cwd : PathBuf)
    (v d w : fs.World) (unlinked : IsUnlinked fs laws v) where
  -- Where the disk has no dangling links before the `apply`: after a successful `apply`, and from
  -- any world `w` with the links and texts that it left, a rollback that reports no failure leaves
  -- every link and every text as before the `apply`: created files are gone and the others have
  -- their old text.
  pub rollback-apply :
      (r : ApplyResult)
      → apply fs parsed cwd v ≡ (ok r, d)
      → SameFiles fs laws w d
      → is_fully_restored (rollback fs r w).0 ≡ true
      → SameFiles fs laws (rollback fs r w).1 v
  rollback-apply r e same_files h =
      let undone =
        rollback-apply_on fs laws (λ _. Unit) parsed cwd v d r unlinked e w
          (same_files.0, same_files.1, λ p u. same_files.2 p) h in
      (undone.0, undone.1, λ q. undone.2 q tt)

  -- Where the disk has no dangling links before the `apply`: after a failed `apply`, and from any
  -- world `w` with the links and texts that it left, a rollback of the error's `partial` that
  -- reports no failure leaves every link as before, and every text except that of the file whose
  -- write failed, if the failure was that.
  pub rollback-apply_error :
      (x : ApplyError)
      → apply fs parsed cwd v ≡ (err x, d)
      → SameFiles fs laws w d
      → is_fully_restored (rollback fs x.partial w).0 ≡ true
      → (laws.links (rollback fs x.partial w).1 ≡ laws.links v)
        × ((q : PathBuf) → Gone fs q (rollback fs x.partial w).1 → Gone fs q v)
        × ((q : PathBuf)
            → touched fs laws (laws.links v) x.kind q ≡ false
            → content fs q (rollback fs x.partial w).1 ≡ content fs q v)
  rollback-apply_error x e same_files h =
      rollback-apply_error_on fs laws (λ p. touched fs laws (laws.links v) x.kind p ≡ false) parsed
        cwd v d x unlinked e (λ p c. c) w (same_files.0, same_files.1, λ p c. same_files.2 p) h
