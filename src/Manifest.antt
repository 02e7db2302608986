-- ===== src/Manifest.antt =====
-- src/manifest.rs: the registry of a run's artefacts, in memory and in its file. JSON, SHA-256 and
-- the ways in which `atomic_write` ends are parameters.
pub mod FileNames
pub mod Kinds
pub mod Synced
pub mod Lookup
use loker.Manifest.FileNames.{
  Kind, KindError, is_valid_other_md, as_filename, check_other_md, serialize, fixed_kinds,
  first_named, or_other_md, deserialize, IsCanonical,
}
use loker.Prelude.{
  ℕ, ◌+◌, Bool, true, false, ◌&&◌, Option, none, some, List, [], ◌∷◌, ◌++◌, if◌then◌else◌, is_some,
  ltb, ◌≡◌, ◌≢◌, All, In, ◌==◌, Result, ok, err,
}
use loker.Prelude.Text.{Text, str, text_eq, byte_len, strip_suffix}
use loker.Prelude.Names.{mem}
use loker.Prelude.Decimal.{decimal}
use loker.Family.{PhaseError, artefact_schema_mismatch}

pub data Producer : Type 0 where
  single parallel escalating verify_hook hitl : Producer

pub record ManifestEntry : Type 0 where
  pub name : Text
  pub kind : Kind
  pub schema_version : ℕ
  pub sha256 : Text
  pub producer : Producer
  pub phase : Option Text
  pub attempt : Option ℕ
  pub created_at : Option ℕ

pub record Manifest : Type 0 where
  pub run_id : Text
  pub schema_version : ℕ
  pub workflow_name : Option Text
  pub entries : List ManifestEntry

pub data ManifestError : Type 0 where
  io_error : ManifestError
  json_error : ManifestError
  phase_error : PhaseError → ManifestError

abbrev pub mismatch : Text → ManifestError
mismatch detail = phase_error (artefact_schema_mismatch detail)

-- `new`
abbrev pub empty : Text → Option Text → Manifest
empty run_id workflow_name = record {
  run_id = run_id;
  schema_version = 1;
  workflow_name = workflow_name;
  entries = [];
}

-- How `atomic_write` ends: written, or failed before or after the file was renamed.
pub data WriteEnd : Type 0 where
  written failed_before failed_after : WriteEnd

abbrev pub IsWritable : ManifestEntry → Type 0
IsWritable e = (check_other_md e.kind ≡ ok tt) × IsCanonical e.kind

-- `serde_json`, with `J` for the texts of JSON, and the digest of the `sha2` crate. A manifest with
-- kinds that can be written is written as a text that is read as that manifest.
pub record Codec (J : Type 0) : Type 0 where
  pub to_json : Manifest → Option J
  pub from_json : J → Option Manifest
  pub sha256_hex : Text → Text
  pub round_trip :
      (m : Manifest)
      → All IsWritable m.entries
      → (j : J) × (to_json m ≡ some j) × (from_json j ≡ some m)

-- The manifest in memory, and the text of its file if there is one.
pub record Store (J : Type 0) : Type 0 where
  pub memory : Manifest
  pub disk : Option J

-- The file after a write of `text`.
abbrev pub disk_after : {J : Type 0} → WriteEnd → J → Option J → Option J
disk_after written text old = some text
disk_after failed_before text old = old
disk_after failed_after text old = some text

abbrev pub result_of : WriteEnd → Result (Unit {0}) ManifestError
result_of written = ok tt
result_of failed_before = err io_error
result_of failed_after = err io_error

-- The sweep of the entries whose digest no marker of a completed phase has.
unfoldable pub retain_referenced : List Text → List ManifestEntry → List ManifestEntry
retain_referenced referenced [] = []
retain_referenced referenced (e ∷ entries) =
    let rest = retain_referenced referenced entries in
    if mem e.sha256 referenced then e ∷ rest else rest

-- Without a directory of markers nothing is swept.
abbrev pub swept : Option (List Text) → List ManifestEntry → List ManifestEntry
swept none entries = entries
swept (some referenced) entries = retain_referenced referenced entries

abbrev pub unsupported : Text → ℕ → Text → Text
unsupported subject version rest = subject ++ (decimal version ++ rest)

unfoldable pub check_entries : List ManifestEntry → Result (Unit {0}) ManifestError
check_entries [] = ok tt
check_entries (e ∷ entries) =
    let rest = check_entries entries in
    if e.schema_version == 1
    then rest
    else err (
        mismatch (
          unsupported (str "entry '" ++ (e.name ++ str "' has schema_version ")) e.schema_version
            (str "; only v1 is supported")))

abbrev pub checked : Manifest → Result Manifest ManifestError
checked m = elim (check_entries m.entries) [ err e ↦ err e | ok valid ↦ ok m ]

abbrev pub load_parsed : Option (List Text) → Option Manifest → Result Manifest ManifestError
load_parsed markers none = err json_error
load_parsed markers (some m) =
    if m.schema_version == 1
    then checked (record m { entries = swept markers m.entries })
    else err (
        mismatch (
          unsupported (str "manifest schema_version is ") m.schema_version
            (str "; only v1 is supported")))

-- The entry of the name is replaced in its place, or the entry comes last.
unfoldable pub replace_or_push : ManifestEntry → List ManifestEntry → List ManifestEntry
replace_or_push entry [] = entry ∷ []
replace_or_push entry (e ∷ entries) =
    let rest = replace_or_push entry entries in
    if text_eq e.name entry.name then entry ∷ entries else e ∷ rest

unfoldable pub find_entry : Text → List ManifestEntry → Option ManifestEntry
find_entry name [] = none
find_entry name (e ∷ entries) =
    let rest = find_entry name entries in if text_eq e.name name then some e else rest

abbrev pub digest_of : Option ManifestEntry → Option Text
digest_of none = none
digest_of (some e) = some e.sha256

abbrev pub sha256_for : Text → Manifest → Option Text
sha256_for name m = digest_of (find_entry name m.entries)

module _ {J : Type 0} (c : Codec J) where
  -- `markers` are the digests in the markers of completed phases, if there is a directory of markers.
  unfoldable pub load : Option (List Text) → Option J → Result Manifest ManifestError
  unfolding check_entries
  load markers none = err io_error
  load markers (some text) = load_parsed markers (c.from_json text)

  abbrev pub with_entries : List ManifestEntry → Store J → Manifest
  with_entries entries s = record s.memory { entries = entries }

  -- Where the entries cannot be written as JSON, the push is undone.
  abbrev pub append_written :
      Option J → Manifest → WriteEnd → Store J → Result (Unit {0}) ManifestError × Store J
  append_written none pushed end s = (err json_error, s)
  append_written (some j) pushed end s = (
    result_of end,
    record {
      memory = elim end [ written ↦ pushed | failed_before ↦ s.memory | failed_after ↦ s.memory ];
      disk = disk_after end j s.disk;
    },
  )

  unfoldable pub append :
      ManifestEntry → WriteEnd → Store J → Result (Unit {0}) ManifestError × Store J
  append entry end s =
      let pushed = with_entries (s.memory.entries ++ (entry ∷ [])) s in
      append_written (c.to_json pushed) pushed end s

  -- The best-effort rollback: the entries of the file, if it can be loaded.
  abbrev pub reread : Result Manifest ManifestError → Manifest → Manifest
  reread (ok disk) m = record m { entries = disk.entries }
  reread (err e) m = m

  abbrev pub replace_written :
      Option (List Text)
      → Option J
      → Manifest
      → WriteEnd
      → Store J
      → Result (Unit {0}) ManifestError × Store J
  replace_written markers none replaced end s =
      (err json_error, record s { memory = reread (load markers s.disk) replaced })
  replace_written markers (some j) replaced end s =
      let disk = disk_after end j s.disk in
      (
        result_of end,
        record {
          memory = elim end [ written ↦ replaced | _ ↦ reread (load markers disk) replaced ];
          disk = disk;
        },
      )

  unfoldable pub replace_by_name :
      Option (List Text)
      → ManifestEntry
      → WriteEnd
      → Store J
      → Result (Unit {0}) ManifestError × Store J
  unfolding replace_or_push load
  replace_by_name markers entry end s =
      let replaced = with_entries (replace_or_push entry s.memory.entries) s in
      replace_written markers (c.to_json replaced) replaced end s

  abbrev pub verify_against : Text → Text → Option Text → Result (Unit {0}) PhaseError
  verify_against name payload none =
      err (artefact_schema_mismatch (str "entry '" ++ (name ++ str "' not found in manifest")))
  verify_against name payload (some recorded) =
      if text_eq recorded (c.sha256_hex payload)
      then ok tt
      else err (
          artefact_schema_mismatch (
            str "sha256 mismatch for '"
            ++ (name
                ++ (str "': recorded "
                    ++ (recorded ++ (str " vs computed " ++ c.sha256_hex payload))))))

  abbrev pub verify : Text → Text → Manifest → Result (Unit {0}) PhaseError
  verify name payload m = verify_against name payload (sha256_for name m)
