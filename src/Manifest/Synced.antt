-- ===== src/Manifest/Synced.antt =====
-- src/manifest.rs: the manifest in memory against its file, and what is looked up after a write.
use mathlib.Core.List.{◌++◌}
use loker.Prelude.{
  ◌↔◌, ◌≤◌, suc, length, arith, Result, err, if_ind, true, Option, none, some, List, [], ◌∷◌, ◌≡◌,
  refl, ap, ◌∙◌, inl, inr, Bool-cases, All, All-append, ok, sym, subst,
}
use loker.Prelude.Names.{mem}
use loker.Prelude.Text.{Text, text_eq}
use loker.Manifest.{
  ManifestEntry, Manifest, ManifestError, WriteEnd, written, failed_before, failed_after, Codec,
  Store, check_entries, checked, load_parsed, swept, retain_referenced, replace_or_push, load,
  append, replace_by_name, with_entries, IsWritable, append_written, replace_written,
}

-- A change of the manifest, with the way in which its write ends.
pub data Change : Type 0 where
  appended : ManifestEntry → WriteEnd → Change
  replaced : ManifestEntry → WriteEnd → Change

-- An entry of the first version that can be written.
abbrev pub IsPlain : ManifestEntry → Type 0
IsPlain e = (e.schema_version ≡ 1) × IsWritable e

module _ {J : Type 0} (c : Codec J) (markers : Option (List Text)) where
  abbrev pub change : Change → Store J → Store J
  change (appended e end) s = (append c e end s).1
  change (replaced e end) s = (replace_by_name c markers e end s).1

  unfoldable pub changes : List Change → Store J → Store J
  changes [] s = s
  changes (x ∷ xs) s = changes xs (change x s)

  -- Where an append fails after the file was renamed, the file has the entry and memory has not. A
  -- replacement is undone from the file, which gives every entry back without markers alone.
  abbrev pub IsMended : WriteEnd → Type 0
  IsMended written = Unit
  IsMended failed_before = markers ≡ none
  IsMended failed_after = markers ≡ none

  abbrev pub IsClean : Change → Type 0
  IsClean (appended e written) = IsPlain e
  IsClean (appended e failed_before) = IsPlain e
  IsClean (appended e failed_after) = ⊥
  IsClean (replaced e end) = IsPlain e × IsMended end

  -- The file is the manifest in memory, which is of the first version and has plain entries alone.
  pub record IsSynced (s : Store J) : Type 0 where
    pub on_disk : s.disk ≡ c.to_json s.memory
    pub version : s.memory.schema_version ≡ 1
    pub versions : All IsPlain s.memory.entries

  check_entries-IsPlain : (es : List ManifestEntry) → All IsPlain es → check_entries es ≡ ok tt
  unfolding check_entries
  check_entries-IsPlain [] h = refl
  check_entries-IsPlain (e ∷ es) h = rw h.0.0 (check_entries-IsPlain es h.1)

  All-IsWritable : (es : List ManifestEntry) → All IsPlain es → All IsWritable es
  All-IsWritable [] h = tt
  All-IsWritable (e ∷ es) h = (h.0.1, All-IsWritable es h.1)

  -- The file of a manifest whose entries are plain loads as that manifest.
  load-to_json :
      (m : Manifest)
      → m.schema_version ≡ 1
      → All IsPlain m.entries
      → load c none (c.to_json m) ≡ ok m
  unfolding load
  load-to_json m v vs =
      let (j, p, q) = c.round_trip m (All-IsWritable m.entries vs) in
      ap (load c none) p
      ∙ (ap (load_parsed none) q ∙ rw v (rw (check_entries-IsPlain m.entries vs, checked) refl))

  replace_or_push-IsPlain :
      (e : ManifestEntry) (es : List ManifestEntry)
      → IsPlain e
      → All IsPlain es
      → All IsPlain (replace_or_push e es)
  unfolding replace_or_push
  replace_or_push-IsPlain e [] h hs = (h, tt)
  replace_or_push-IsPlain e (x ∷ es) h hs = elim (Bool-cases (text_eq x.name e.name)) [
    | inl q ↦ rw q (h, hs.1)
    | inr q ↦ rw q (hs.0, replace_or_push-IsPlain e es h hs.1)
  ]

  append-IsSynced :
      (e : ManifestEntry) (end : WriteEnd) (s : Store J)
      → IsClean (appended e end)
      → IsSynced s
      → IsSynced (append c e end s).1
  unfolding append
  append-IsSynced e end s h i =
      let m = with_entries c (s.memory.entries ++ (e ∷ [])) s in
      let (j, p, q) = c.round_trip m (All-IsWritable m.entries (versions end h)) in
      subst (λ o. IsSynced (append_written c o m end s).1) (sym p) (by_end j p end h)
    where
      versions :
          (end : WriteEnd) → IsClean (appended e end) → All IsPlain (s.memory.entries ++ (e ∷ []))
      versions written h = All-append IsPlain s.memory.entries (e ∷ []) i.versions (h, tt)
      versions failed_before h = All-append IsPlain s.memory.entries (e ∷ []) i.versions (h, tt)
      versions failed_after h = absurd h

      by_end :
          (j : J)
          → c.to_json (with_entries c (s.memory.entries ++ (e ∷ [])) s) ≡ some j
          → (end : WriteEnd) → IsClean (appended e end)
          → IsSynced
              (append_written c (some j) (with_entries c (s.memory.entries ++ (e ∷ [])) s) end s).1
      by_end j p written h = record {
        on_disk = sym p;
        version = i.version;
        versions = versions written h;
      }
      by_end j p failed_before h = i
      by_end j p failed_after h = absurd h

  replace-IsSynced :
      (e : ManifestEntry) (end : WriteEnd) (s : Store J)
      → IsClean (replaced e end)
      → IsSynced s
      → IsSynced (replace_by_name c markers e end s).1
  unfolding replace_by_name
  replace-IsSynced e end s h i =
      let m = with_entries c (replace_or_push e s.memory.entries) s in
      let vs = replace_or_push-IsPlain e s.memory.entries h.0 i.versions in
      let (j, p, q) = c.round_trip m (All-IsWritable m.entries vs) in
      subst (λ o. IsSynced (replace_written c markers o m end s).1) (sym p) (by_end j p vs end h.1)
    where
      by_end :
          (j : J)
          → c.to_json (with_entries c (replace_or_push e s.memory.entries) s) ≡ some j
          → All IsPlain (replace_or_push e s.memory.entries)
          → (end : WriteEnd) → IsMended end
          → IsSynced
              (replace_written c markers
                (some j)
                (with_entries c (replace_or_push e s.memory.entries) s)
                end
                s).1
      by_end j p vs written h = record { on_disk = sym p; version = i.version; versions = vs }
      by_end j p vs failed_before h =
          rw (h, i.on_disk, load-to_json s.memory i.version i.versions)
            (record { on_disk = refl; version = i.version; versions = i.versions })
      by_end j p vs failed_after h =
          let m = with_entries c (replace_or_push e s.memory.entries) s in
          let loaded : load c none (some j) ≡ ok m =
            ap (load c none) (sym p) ∙ load-to_json m i.version vs in
          rw (h, loaded) (record { on_disk = sym p; version = i.version; versions = vs })

  changes-IsSynced :
      (xs : List Change) (s : Store J) → All IsClean xs → IsSynced s → IsSynced (changes xs s)
  unfolding changes
  changes-IsSynced [] s h i = i
  changes-IsSynced (appended e end ∷ xs) s h i =
      changes-IsSynced xs _ h.1 (append-IsSynced e end s h.0 i)
  changes-IsSynced (replaced e end ∷ xs) s h i =
      changes-IsSynced xs _ h.1 (replace-IsSynced e end s h.0 i)

  retain-IsPlain :
      (referenced : List Text) (es : List ManifestEntry)
      → All IsPlain es
      → All IsPlain (retain_referenced referenced es)
  unfolding retain_referenced
  retain-IsPlain referenced [] h = tt
  retain-IsPlain referenced (e ∷ es) h =
      if_ind (All IsPlain) (mem e.sha256 referenced) _ _
        (λ k. (h.0, retain-IsPlain referenced es h.1)) (λ k. retain-IsPlain referenced es h.1)

  swept-IsPlain :
      (now : Option (List Text)) (es : List ManifestEntry)
      → All IsPlain es
      → All IsPlain (swept now es)
  swept-IsPlain none es h = h
  swept-IsPlain (some referenced) es h = retain-IsPlain referenced es h

  -- Every entry's digest is in a marker of a completed phase, or there is no directory of markers.
  abbrev pub AllReferenced : Option (List Text) → List ManifestEntry → Type 0
  AllReferenced none es = Unit
  AllReferenced (some referenced) es =
      All (λ (e : ManifestEntry). mem e.sha256 referenced ≡ true) es

  retain_all :
      (referenced : List Text) (es : List ManifestEntry)
      → AllReferenced (some referenced) es
      → retain_referenced referenced es ≡ es
  unfolding retain_referenced
  retain_all referenced [] h = refl
  retain_all referenced (e ∷ es) h = rw h.0 (ap (λ l. e ∷ l) (retain_all referenced es h.1))

  swept_all :
      (now : Option (List Text)) (es : List ManifestEntry)
      → AllReferenced now es
      → swept now es ≡ es
  swept_all none es h = refl
  swept_all (some referenced) es h = retain_all referenced es h

  length-retain :
      (referenced : List Text) (es : List ManifestEntry)
      → length (retain_referenced referenced es) ≤ length es
  unfolding retain_referenced
  length-retain referenced [] = omega arith
  length-retain referenced (e ∷ es) =
      let le = length-retain referenced es in
      if_ind (λ (l : List ManifestEntry). length l ≤ suc (length es)) (mem e.sha256 referenced) _ _
        (λ k. omega (arith, le)) (λ k. omega (arith, le))

  tail_of : List ManifestEntry → List ManifestEntry
  tail_of [] = []
  tail_of (e ∷ es) = es

  all_retained :
      (referenced : List Text) (es : List ManifestEntry)
      → retain_referenced referenced es ≡ es
      → AllReferenced (some referenced) es
  unfolding retain_referenced tail_of
  all_retained referenced [] h = tt
  all_retained referenced (e ∷ es) h = elim (Bool-cases (mem e.sha256 referenced)) [
    | inl k ↦ (k, all_retained referenced es (ap tail_of (rw k at h)))
    | inr k ↦
        let longer : length (retain_referenced referenced es) ≡ suc (length es) =
          ap length (rw k at h) in
        absurd (omega (arith, length-retain referenced es, longer))
  ]

  swept_iff :
      (now : Option (List Text)) (es : List ManifestEntry)
      → swept now es ≡ es
      → AllReferenced now es
  swept_iff none es h = tt
  swept_iff (some referenced) es h = all_retained referenced es h

  loaded_entries : Result Manifest ManifestError → List ManifestEntry
  loaded_entries (ok m) = m.entries
  loaded_entries (err e) = []

  load-swept :
      (now : Option (List Text)) (m : Manifest)
      → m.schema_version ≡ 1
      → All IsPlain m.entries
      → load c now (c.to_json m) ≡ ok (record m { entries = swept now m.entries })
  unfolding load
  load-swept now m v vs =
      let (j, p, q) = c.round_trip m (All-IsWritable m.entries vs) in
      ap (load c now) p
      ∙ (ap (load_parsed now) q
          ∙ rw v (rw (check_entries-IsPlain _ (swept-IsPlain now m.entries vs), checked) refl))

  -- After any changes, appended or replaced entries of the first version, with kinds that can be
  -- written and are read as themselves, and whatever markers there are then, the file loads as the
  -- manifest in memory without the entries that the sweep takes away, and as the manifest in memory
  -- itself just where every entry's digest is in a marker or there is no directory of markers; if
  -- the file is what is written of the manifest in memory before, of the first version with such
  -- entries alone, no append fails after its file was renamed, and no replacement fails where there
  -- is a directory of markers.
  pub load-changes :
      (xs : List Change) (s : Store J) (now : Option (List Text))
      → All IsClean xs
      → IsSynced s
      → (load c now (changes xs s).disk
          ≡ ok (record (changes xs s).memory { entries = swept now (changes xs s).memory.entries }))
        × ((load c now (changes xs s).disk ≡ ok (changes xs s).memory)
            ↔ AllReferenced now (changes xs s).memory.entries)
  unfolding loaded_entries
  load-changes xs s now h i =
      let j = changes-IsSynced xs s h i in
      let loads =
        ap (load c now) j.on_disk ∙ load-swept now (changes xs s).memory j.version j.versions in
      (
        loads,
        (
          (λ e. swept_iff now (changes xs s).memory.entries (ap loaded_entries (sym loads ∙ e))),
          λ k.
              loads
              ∙ ap (λ es. ok (record (changes xs s).memory { entries = es }))
                  (swept_all now (changes xs s).memory.entries k),
        ),
      )
