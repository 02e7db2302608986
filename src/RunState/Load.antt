-- ===== src/RunState/Load.antt =====
-- src/run_state/load.rs: what the markers on disk say of each phase, whatever the order in which the
-- directory is listed.
pub mod Highest
use loker.Manifest.{ManifestEntry}
use loker.Prelude.{
  ℕ, ◌≡◌, Bool, true, false, Option, none, some, List, [], ◌∷◌, ◌++◌, if◌then◌else◌, ltb, or_else,
  is_some, take,
}
use loker.Prelude.Text.{Text, str, text_eq, strip_suffix, find, contains}
use loker.Prelude.Names.{mem}
use loker.Prelude.Assoc.{get, insert}

pub data PhaseStatus : Type 0 where
  started completed failed no_status : PhaseStatus

unfoldable pub status_rank : PhaseStatus → ℕ
status_rank no_status = 0
status_rank started = 1
status_rank failed = 2
status_rank completed = 3

-- A file of the directory `markers`: its name, the digest where it reads as a `CompletedMarker`, and
-- the attempt where it reads as a `StartedMarker`.
pub record MarkerFile : Type 0 where
  pub name : Text
  pub manifest_entry_sha256 : Option Text
  pub attempt : Option ℕ

-- `split(p).next()`
abbrev pub before : Option ℕ → Text → Text
before none s = s
before (some i) s = take i s

abbrev pub before_started : Option Text → Text → Text
before_started (some phase) name = phase
before_started none name = before (find name (str ".started.")) name

unfoldable pub marker_phase : Text → Text
marker_phase name =
    before_started
      (or_else (strip_suffix name (str ".completed"))
        (or_else (strip_suffix name (str ".failed")) (strip_suffix name (str ".started"))))
      name

-- The map of the statuses by their phases.
abbrev pub Statuses : Type 0
Statuses = List (Text × PhaseStatus)

abbrev pub update_over : Option PhaseStatus → Text → PhaseStatus → Statuses → Statuses
update_over none phase status map = insert phase status map
update_over (some current) phase status map =
    if ltb (status_rank current) (status_rank status) then insert phase status map else map

unfoldable pub update_phase_status : Statuses → Text → PhaseStatus → Statuses
update_phase_status map phase status = update_over (get phase map) phase status map

-- What a marker says of its phase; a completed marker that cannot be read says nothing.
abbrev pub completed_status : Option Text → Option PhaseStatus
completed_status none = none
completed_status (some sha) = some completed

unfoldable pub marker_status : MarkerFile → Option PhaseStatus
marker_status m =
    if is_some (strip_suffix m.name (str ".completed"))
    then completed_status m.manifest_entry_sha256
    else if is_some (strip_suffix m.name (str ".failed"))
    then some failed
    else if contains m.name (str ".started")
    then some started
    else none

abbrev pub noted : Option PhaseStatus → Text → Statuses → Statuses
noted none phase map = map
noted (some status) phase map = update_phase_status map phase status

-- The loop of `load_markers` over the directory: the statuses.
unfoldable pub scan : List MarkerFile → Statuses → Statuses
scan [] map = map
scan (m ∷ markers) map = scan markers (noted (marker_status m) (marker_phase m.name) map)

abbrev pub cons_hash : Option Text → List Text → List Text
cons_hash none hashes = hashes
cons_hash (some sha) hashes = sha ∷ hashes

-- The digests that the loop collects.
unfoldable pub completed_hashes : List MarkerFile → List Text
completed_hashes [] = []
completed_hashes (m ∷ markers) =
    let rest = completed_hashes markers in
    if is_some (strip_suffix m.name (str ".completed"))
    then cons_hash m.manifest_entry_sha256 rest
    else rest

-- `orphan_sweep`: the entries kept and those dropped.
unfoldable pub orphan_sweep :
    List ManifestEntry → List Text → List ManifestEntry × List ManifestEntry
orphan_sweep [] hashes = ([], [])
orphan_sweep (e ∷ entries) hashes =
    let (kept, dropped) = orphan_sweep entries hashes in
    if mem e.sha256 hashes then (e ∷ kept, dropped) else (kept, e ∷ dropped)
