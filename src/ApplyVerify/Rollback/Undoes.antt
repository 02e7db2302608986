-- ===== src/ApplyVerify/Rollback/Undoes.antt =====
-- What it takes that rolling backups back gives the files of an earlier world.
use loker.Prelude.{
  ◌≡◌, refl, sym, ap, subst, Result, ◌∙◌, true, false, inl, inr, Bool-cases, Option, none, some,
  List, [], ◌∷◌, ◌++◌, ok, err, match_result_ind, is_nil, if◌then◌else◌,
}
use loker.Prelude.Text.{Text}
use loker.ApplyVerify.Files.{
  PathBuf, IoError, not_found, other, FileSystem, FileLaws, Gone, IsUnlinked, readable, content,
}
use loker.ApplyVerify.DiffApplier.{FileBackup}
use loker.ApplyVerify.DiffApplier.Effects.{Wrote}
use loker.ApplyVerify.Rollback.{
  RollbackFailure, RollbackReport, after_failed_removal, restore, rollback_one, rollback_each,
}

snoc-not_nil {ℓ} : {A : Type ℓ} (xs : List A) (x : A) → is_nil (xs ++ (x ∷ [])) ≡ false
snoc-not_nil [] x = refl
snoc-not_nil (y ∷ xs) x = refl

module _ (fs : FileSystem) (laws : FileLaws fs) (Q : PathBuf → Type 0) where
  open fs use {World}
  open laws use {links, same}

  abbrev pub Agree : World → World → Type 0
  Agree v w =
      (links v ≡ links w)
      × ((q : PathBuf) → Gone fs q v → Gone fs q w)
      × ((q : PathBuf) → Q q → content fs q v ≡ content fs q w)

  content-same :
      (p q : PathBuf) (w : World) → same (links w) p q ≡ true → content fs q w ≡ content fs p w
  content-same p q w s = ap readable (laws.read-same p q w s)

  -- Where the paths of the backup's place have its old text, and the others are as after the write,
  -- all is as before the write.
  old :
      (b : FileBackup) (v d : World)
      → Wrote fs laws b v d
      → (q : PathBuf)
      → (if same (links v) b.path q then b.original_content else content fs q d) ≡ content fs q v
  old b v d wrote q = elim (Bool-cases (same (links v) b.path q)) [
    | inl s ↦ rw s (sym wrote.before ∙ sym (content-same b.path q v s))
    | inr n ↦ rw n (rw n at (wrote.after q))
  ]

  -- Writing the old text back, or removing the file, in a world that agrees with the last one.
  restored :
      (b : FileBackup) (v d w w' : World) (t : Text)
      → b.original_content ≡ some t
      → Wrote fs laws b v d
      → Agree w d
      → fs.write b.path t w ≡ (ok tt, w')
      → Agree w' v
  restored b v d w w' t was wrote (l, gone, agree) e = (
    rw e at (laws.write-links b.path t w) ∙ l ∙ wrote.links_kept,
    (λ q g. wrote.gone q (
        gone q (
          laws.write-gone b.path q t w
            (subst (λ (r : Result (Unit {0}) IoError × World). Gone fs q r.1) (sym e) g)))),
    λ q in_q.
        rw e at (laws.write-ok b.path q t w (rw e))
        ∙ ap (λ k. if same k b.path q then some t else content fs q w) (l ∙ wrote.links_kept)
        ∙ ap (λ o. if same (links v) b.path q then o else content fs q w) (sym was)
        ∙ ap (λ o. if same (links v) b.path q then b.original_content else o) (agree q in_q)
        ∙ old b v d wrote q,
  )

  removed :
      (b : FileBackup) (v d w w' : World)
      → b.original_content ≡ none
      → IsUnlinked fs laws v
      → Wrote fs laws b v d
      → Agree w d
      → fs.remove_file b.path w ≡ (ok tt, w')
      → Agree w' v
  removed b v d w w' was unlinked wrote (l, gone, agree) e = (
    rw e at (laws.remove-links b.path w alone) ∙ to_v,
    (λ q g.
        elim (laws.remove-gone b.path q w alone (rw e)
          (subst (λ (r : Result (Unit {0}) IoError × World). Gone fs q r.1) (sym e) g)) [
            | inl s ↦
                laws.below-gone b.path q v (sym (ap (λ k. laws.below k b.path q) to_v) ∙ s)
                  (wrote.created was)
            | inr still ↦ wrote.gone q (gone q still)
          ]),
    λ q in_q. elim (Bool-cases (same (links v) b.path q)) [
      | inl s ↦ rw s at (texts q) ∙ (sym was ∙ rw s at (old b v d wrote q))
      | inr n ↦ rw n at (texts q) ∙ agree q in_q ∙ rw n at (old b v d wrote q)
    ],
  )
    where
      to_v : links w ≡ links v
      to_v = l ∙ wrote.links_kept

      alone : laws.sole (links w) b.path ≡ true
      alone = ap (λ k. laws.sole k b.path) to_v ∙ unlinked b.path (wrote.created was)

      texts :
          (q : PathBuf)
          → content fs q w' ≡ (if same (links v) b.path q then none else content fs q w)
      texts q =
          rw e at (laws.remove-ok b.path q w alone (rw e))
          ∙ ap (λ k. if same k b.path q then none else content fs q w) to_v

  already_gone :
      (b : FileBackup) (v d w w' : World)
      → b.original_content ≡ none
      → IsUnlinked fs laws v
      → Wrote fs laws b v d
      → Agree w d
      → fs.remove_file b.path w ≡ (err not_found, w')
      → Agree w' v
  already_gone b v d w w' was unlinked wrote (l, gone, agree) e = (
    rw e at (laws.remove-links b.path w alone) ∙ to_v,
    (λ q g. wrote.gone q (gone q (sym (reads q) ∙ g))),
    λ q in_q. ap readable (reads q) ∙ agree q in_q ∙ elim (Bool-cases (same (links v) b.path q)) [
      | inl s ↦
          sym (agree q in_q)
          ∙ content-same b.path q w (ap (λ k. same k b.path q) to_v ∙ s)
          ∙ (laws.remove-missing b.path q w (rw e)).0
          ∙ (sym was ∙ rw s at (old b v d wrote q))
      | inr n ↦ rw n at (old b v d wrote q)
    ],
  )
    where
      to_v : links w ≡ links v
      to_v = l ∙ wrote.links_kept

      alone : laws.sole (links w) b.path ≡ true
      alone = ap (λ k. laws.sole k b.path) to_v ∙ unlinked b.path (wrote.created was)

      reads : (q : PathBuf) → fs.read_to_string q w' ≡ fs.read_to_string q w
      reads q = rw e at ((laws.remove-missing b.path q w (rw e)).1)

  -- A step that adds no failure restores the backup's file.
  pub record Step (b : FileBackup) (report : RollbackReport) (v : World)
      (r : RollbackReport × World) : Type 0 where
    undone : is_nil r.0.failed ≡ true → Agree r.1 v

  not_failed :
      {b : FileBackup} {v w' : World} (report : RollbackReport) (f : RollbackFailure)
      (xs ys : List PathBuf)
      → Step b report v
          (record { restored = xs; failed = report.failed ++ (f ∷ []); deleted = ys }, w')
  not_failed report f xs ys = record { undone = λ h. cc (snoc-not_nil report.failed f, h) }

  restore-Step :
      (b : FileBackup) (report : RollbackReport) (v d w : World) (o : Option Text)
      → b.original_content ≡ o
      → IsUnlinked fs laws v
      → Wrote fs laws b v d
      → Agree w d
      → Step b report v (restore fs b o report w)
  restore-Step b report v d w (some t) was unlinked wrote agree =
      match_result_ind (Step b report v) (fs.write b.path t w)
        (λ u w' e. record { undone = λ h. restored b v d w w' t was wrote agree e })
        (λ x w' e. not_failed report _ _ _)
  restore-Step b report v d w none was unlinked wrote agree =
      match_result_ind (Step b report v) (fs.remove_file b.path w)
        (λ u w' e. record { undone = λ h. removed b v d w w' was unlinked wrote agree e })
        (λ x w' e. failed_removal x w' e)
    where
      failed_removal :
          (x : IoError) (w' : World)
          → fs.remove_file b.path w ≡ (err x, w')
          → Step b report v (after_failed_removal b.path x report, w')
      failed_removal not_found w' e = record {
        undone = λ h. already_gone b v d w w' was unlinked wrote agree e;
      }
      failed_removal (other x) w' e = not_failed report _ _ _

  -- A report with a failure keeps it.
  abbrev Keeps : RollbackReport → RollbackReport × World → Type 0
  Keeps report r = is_nil r.0.failed ≡ true → is_nil report.failed ≡ true

  restore-Keeps :
      (b : FileBackup) (o : Option Text) (report : RollbackReport) (w : World)
      → Keeps report (restore fs b o report w)
  restore-Keeps b (some t) report w =
      match_result_ind (Keeps report) (fs.write b.path t w) (λ u w' e h. h)
        (λ x w' e h. cc (snoc-not_nil report.failed (record { path = b.path; reason = x }), h))
  restore-Keeps b none report w =
      match_result_ind (Keeps report) (fs.remove_file b.path w) (λ u w' e h. h)
        (λ x w' e. failed x w')
    where
      failed : (x : IoError) (w' : World) → Keeps report (after_failed_removal b.path x report, w')
      failed not_found w' h = h
      failed (other x) w' h =
          cc (snoc-not_nil report.failed (record { path = b.path; reason = other x }), h)

  each-Keeps :
      (bs : List FileBackup) (report : RollbackReport) (w : World)
      → Keeps report (rollback_each fs bs report w)
  unfolding rollback_each rollback_one
  each-Keeps [] report w h = h
  each-Keeps (b ∷ bs) report w h =
      let (report', w') = restore fs b b.original_content report w in
      restore-Keeps b b.original_content report w (each-Keeps bs report' w' h)

  -- Rolling `bs` back, from a world that agrees with `d`, gives the files of `v`.
  pub record Undoes (v : World) (bs : List FileBackup) (d : World) : Type 0 where
    pub undo :
        (report : RollbackReport) (w : World)
        → Agree w d
        → is_nil (rollback_each fs bs report w).0.failed ≡ true
        → Agree (rollback_each fs bs report w).1 v

  pub Undoes-nil : (v : World) → Undoes v [] v
  unfolding rollback_each
  Undoes-nil v = record { undo = λ report w agree h. agree }

  pub Undoes-cons :
      (b : FileBackup) (bs : List FileBackup) (u v d : World)
      → Undoes u bs v
      → IsUnlinked fs laws v
      → Wrote fs laws b v d
      → Undoes u (b ∷ bs) d
  unfolding rollback_each rollback_one
  Undoes-cons b bs u v d rest unlinked wrote = record {
    undo = λ report w agree h.
        let (report', w') = restore fs b b.original_content report w in
        let step = restore-Step b report v d w b.original_content refl unlinked wrote agree in
        rest.undo report' w' (step.undone (each-Keeps bs report' w' h)) h;
  }
