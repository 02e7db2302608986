-- ===== src/ApplyVerify/DiffApplier/Replaced.antt =====
-- What a find-and-replace edit writes.
use loker.Prelude.TextOrd.{starts_with-eq}
use loker.Prelude.{
  ◌≡◌, ◌≢◌, refl, ap, subst, Bool, true, false, some, [], ◌∷◌, ◌++◌, if_ind, is_nil, length, drop,
  arith, ◌==◌, ltb, Result, ok, err, match_result_ind,
}
use loker.Prelude.Text.{Text, starts_with, count_from, match_count, replace_first}
use loker.ApplyVerify.EditParser.{FileEdit, EditFormat}
use loker.ApplyVerify.Files.{PathBuf, FileSystem}
use loker.ApplyVerify.DiffApplier.{FileBackup, ApplyErrorKind, replace_in}

-- The text before and the text behind the place that is replaced.
abbrev pub Replaces : Text → Text → Text → Text → Type 0
Replaces s old new result =
    (before : Text) × (after : Text) × (s ≡ before ++ old ++ after)
    × (result ≡ before ++ new ++ after)

replace_first-Replaces :
    (s old new : Text) → match_count s old ≢ 0 → Replaces s old new (replace_first s old new)
unfolding match_count count_from replace_first
replace_first-Replaces [] old new n = absurd (n refl)
replace_first-Replaces (c ∷ s) old new n =
    let rest = replace_first-Replaces s old new in at_head (starts_with (c ∷ s) old) refl rest n
  where
    at_head :
        (hit : Bool)
        → starts_with (c ∷ s) old ≡ hit
        → (match_count s old ≢ 0 → Replaces s old new (replace_first s old new))
        → match_count (c ∷ s) old ≢ 0
        → Replaces (c ∷ s) old new (replace_first (c ∷ s) old new)
    at_head true e rest n = ([], drop (length old) (c ∷ s), starts_with-eq (c ∷ s) old e, rw e refl)
    at_head false e rest n =
        let (before, after, split, result) = rest (rw e at n) in
        (c ∷ before, after, ap (λ t. c ∷ t) split, rw e (ap (λ t. c ∷ t) result))

module _ (fs : FileSystem) where
  open fs use {World}

  abbrev Done :
      FileEdit → PathBuf → Text → World → Result FileBackup ApplyErrorKind × World → Type 0
  Done edit path c w (err kind, w') = Unit
  Done edit path c w (ok b, w') =
      Replaces c edit.old edit.new b.new_content
      × (b.original_content ≡ some c)
      × (fs.write path b.new_content w ≡ (ok tt, w'))

  abbrev Written :
      FileEdit → PathBuf → Text → World → Result FileBackup ApplyErrorKind × World → Type 0
  Written edit path c w r =
      (b : FileBackup) (w' : World)
      → r ≡ (ok b, w')
      → Replaces c edit.old edit.new b.new_content
        × (b.original_content ≡ some c)
        × (fs.write path b.new_content w ≡ (ok tt, w'))

  replace_in-Written :
      (edit : FileEdit) (path : PathBuf) (format : EditFormat) (c : Text) (w : World)
      → Written edit path c w (replace_in fs edit path format c w)
  unfolding replace_in
  replace_in-Written edit path format c w =
      if_ind (Written edit path c w) (is_nil edit.old) _ _ (λ h b w' e. cc)
        (λ h.
          if_ind (Written edit path c w) (match_count c edit.old == 0) _ _ (λ z b w' e. cc)
            (λ z.
              if_ind (Written edit path c w) (ltb 1 (match_count c edit.old)) _ _ (λ g b w' e. cc)
                (λ g.
                  match_result_ind (Written edit path c w)
                    (fs.write path (replace_first c edit.old edit.new) w)
                    (λ u v e b w' q.
                      written v e b w' q
                        (replace_first-Replaces c edit.old edit.new (ground arith)))
                    (λ x v e b w' q. cc))))
    where
      written :
          (v : World)
          → fs.write path (replace_first c edit.old edit.new) w ≡ (ok tt, v)
          → (b : FileBackup) (w' : World)
          → (◌≡◌ {A = Result FileBackup ApplyErrorKind × World}
              (
                ok (record {
                  path = path;
                  original_content = some c;
                  new_content = replace_first c edit.old edit.new;
                }),
                v,
              )
              (ok b, w'))
          → Replaces c edit.old edit.new (replace_first c edit.old edit.new)
          → Replaces c edit.old edit.new b.new_content
            × (b.original_content ≡ some c)
            × (fs.write path b.new_content w ≡ (ok tt, w'))
      written v e b w' q r = subst (Done edit path c w) q (r, refl, e)

  -- When a find-and-replace edit succeeds, the file's text is some text, the old text and some
  -- text, the text that was written has the new text between the same two, the backup holds the
  -- text as it was, and the edit leaves the world that this write leaves.
  pub replace_in-Replaces :
      (edit : FileEdit) (path : PathBuf) (format : EditFormat) (c : Text) (w w' : World)
      (b : FileBackup)
      → replace_in fs edit path format c w ≡ (ok b, w')
      → Replaces c edit.old edit.new b.new_content
        × (b.original_content ≡ some c)
        × (fs.write path b.new_content w ≡ (ok tt, w'))
  replace_in-Replaces edit path format c w w' b e = replace_in-Written edit path format c w b w' e
