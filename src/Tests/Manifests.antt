-- ===== src/Tests/Manifests.antt =====
-- A manifest at hand, and changes of it whose writes end well and badly.
use loker.Prelude.{none, some, List, [], ◌∷◌, ◌≡◌, ◌↔◌, refl, if◌then◌else◌, ok}
use loker.Prelude.Text.{Text, str, text_eq}
use loker.Manifest.{
  retain_referenced, ManifestEntry, Manifest, single, written, failed_before, failed_after, Codec,
  Store, empty, append, replace_by_name, load, retain_referenced, sha256_for, verify,
}
use loker.Manifest.FileNames.{
  Kind, plan_md, summary_json, other_md, deserialize, serialize, IsCanonical,
}
use loker.Manifest.Kinds.{deserialize_iff}
use loker.Manifest.Synced.{AllReferenced, Change, appended, replaced, changes, load-changes}
use loker.Manifest.Lookup.{replace_by_name-verify}

abbrev codec : Codec Manifest
codec = record {
  to_json = λ m. some m;
  from_json = λ m. some m;
  sha256_hex = λ t. t;
  round_trip = λ m h. (m, refl, refl);
}

abbrev entry_of : Text → Kind → Text → ManifestEntry
entry_of name kind sha = record {
  name = name;
  kind = kind;
  schema_version = 1;
  sha256 = sha;
  producer = single;
  phase = none;
  attempt = none;
  created_at = none;
}

abbrev fresh : Store Manifest
fresh = record { memory = empty (str "r") none; disk = some (empty (str "r") none) }

abbrev the_plan : ManifestEntry
the_plan = entry_of (str "plan.md") plan_md (str "aa")

abbrev the_sum : ManifestEntry
the_sum = entry_of (str "summary.json") summary_json (str "bb")

abbrev planned : Store Manifest
planned = (append codec the_plan written fresh).1

-- A failed replacement reads the file again, and the sweep drops what no completed phase has.
replace_sweeps :
    (replace_by_name codec (some []) the_sum failed_before planned).1.memory.entries ≡ []
unfolding replace_by_name append retain_referenced
replace_sweeps = refl

-- The write of the file was made and its directory could not be synced.
append_kept_on_disk :
    (append codec the_plan failed_after fresh).1.memory.entries ≡ []
    × ((append codec the_plan failed_after fresh).1.disk ≡ some planned.memory)
unfolding append
append_kept_on_disk = (refl, refl)

-- The kind of another Markdown file with the name of a fixed kind is read as that.
other_plan : deserialize (str "plan.md") ≡ ok plan_md
unfolding deserialize text_eq
other_plan = refl

deserialize_iff_example : (deserialize (str "notes.md") ≡ ok (other_md (str "notes.md"))) ↔ (
    (serialize (other_md (str "notes.md")) ≡ ok (str "notes.md"))
    × IsCanonical (other_md (str "notes.md")))
deserialize_iff_example = deserialize_iff (str "notes.md") (other_md (str "notes.md"))

abbrev two_changes : List Change
two_changes = appended the_plan written ∷ replaced the_sum failed_before ∷ []

load-changes_example :
    (load codec (some []) (changes codec none two_changes fresh).disk
      ≡ ok (record (changes codec none two_changes fresh).memory { entries = [] }))
    × ((load codec (some []) (changes codec none two_changes fresh).disk
          ≡ ok (changes codec none two_changes fresh).memory)
        ↔ AllReferenced codec none (some []) (changes codec none two_changes fresh).memory.entries)
unfolding changes retain_referenced append replace_by_name
load-changes_example =
    load-changes codec none two_changes fresh (some [])
      ((refl, (refl, tt)), (((refl, (refl, tt)), refl), tt))
      (record { on_disk = refl; version = refl; versions = tt })

replace_by_name-verify_example :
    ((n : Text)
      → sha256_for n (replace_by_name codec none the_sum written planned).1.memory
        ≡ (if text_eq the_sum.name n then some the_sum.sha256 else sha256_for n planned.memory))
    × ((payload : Text)
        → (verify codec the_sum.name payload
              (replace_by_name codec none the_sum written planned).1.memory
            ≡ ok tt)
          ↔ (the_sum.sha256 ≡ payload))
unfolding replace_by_name
replace_by_name-verify_example =
    replace_by_name-verify codec none planned (replace_by_name codec none the_sum written planned).1
      the_sum written refl
