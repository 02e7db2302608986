-- ===== src/RunState/Lock.antt =====
-- src/run_state/phase_lock.rs: the advisory lock of one phase, as the steps of its callers between
-- which others may run. A caller is one handle: the operating system's lock belongs to it, and is
-- given to one caller at a time. Time, the probe of a process and the failures of calls are in
-- `Env`, and the callers' names and lives in `Caller`.

pub mod Exclusive
pub mod Reclaimed
pub mod Recorded
use loker.Prelude.{
  ℕ, ◌+◌, Bool, true, false, ◌||◌, ◌&&◌, not, Option, none, some, List, [], ◌∷◌, if◌then◌else◌,
  is_nil, leb, ltb, ◌==◌, unwrap_or, Result, ok, err,
}
use loker.Prelude.Text.{Text, str, text_eq, contains, trim}

pub record PhaseLockBody : Type 0 where
  pub phase : Text
  pub run_id : Text
  pub writer_pid : ℕ
  pub writer_host : Text
  pub acquired_at : ℕ
  pub ttl_seconds : ℕ

pub data PhaseLockError : Type 0 where
  lock_in_use : (phase : Text) → (pid : ℕ) → (host : Text) → (since : ℕ) → PhaseLockError
  invalid_phase_name : (phase : Text) → PhaseLockError
  io_error : PhaseLockError
  json_error : PhaseLockError

-- What the lock file holds: white space alone, a body, or what is no body.
pub data Content : Type 0 where
  blank : Content
  body : PhaseLockBody → Content
  corrupt : Content

abbrev pub default_phase_lock_ttl_seconds : ℕ
default_phase_lock_ttl_seconds = 60

unfoldable pub validate_phase_name : Text → Result (Unit {0}) PhaseLockError
unfolding contains trim text_eq
validate_phase_name phase =
    if is_nil phase
      || contains phase (str "/")
      || contains phase (str "\\")
      || contains phase (0 ∷ [])
      || text_eq (trim phase) (str ".")
      || text_eq (trim phase) (str "..")
    then err (invalid_phase_name phase)
    else ok tt

abbrev pub read_lock_body : Content → Result (Option PhaseLockBody) PhaseLockError
read_lock_body blank = ok none
read_lock_body (body b) = ok (some b)
read_lock_body corrupt = err json_error

-- `PhaseLock::inspect`, of the file's content if there is a file
unfoldable pub inspect : Text → Option Content → Result (Option PhaseLockBody) PhaseLockError
unfolding validate_phase_name
inspect phase content = elim (validate_phase_name phase) [
  | err e ↦ err e
  | ok valid ↦ elim content [ none ↦ ok none | some c ↦ read_lock_body c ]
]

-- `age_secs >= ttl_seconds as i64`: the cast makes a large number of seconds negative.
abbrev pub is_expired : ℕ → PhaseLockBody → Bool
is_expired now b =
    if ltb b.ttl_seconds 9223372036854775808
    then leb (b.acquired_at + b.ttl_seconds) now
    else leb (b.acquired_at + b.ttl_seconds) (now + 18446744073709551616)

-- `gone` is whether the probe says that there is no process of the writer's number.
abbrev pub is_lock_body_live : (now : ℕ) → (gone : Bool) → PhaseLockBody → Bool
is_lock_body_live now gone b = if is_expired now b then false else not gone

pub record Caller : Type 0 where
  pub run_id : Text
  pub pid : ℕ
  pub host : Text
  pub ttl_seconds : Option ℕ

-- What the surroundings answer to a call: the time, the probe, and whether the call fails.
pub record Env : Type 0 where
  pub now : ℕ
  pub gone : Bool
  pub fails : Bool

-- Where a caller stands: what it has done last.
pub data Stage : Type 0 where
  idle : Stage
  checked : Stage
  opened : Stage
  locked : Stage
  truncated : Stage
  written : Stage
  holding : Stage
  cleared : Stage
  unlocked : Stage
  dropping : Stage
  done : Stage
  refused : PhaseLockError → Stage

pub record State : Type 0 where
  pub stages : ℕ → Stage
  pub content : Option Content
  pub owner : Option ℕ

pub data Act : Type 0 where
  go : Env → Act
  release : Env → Act
  drop : Env → Act
  crash : Act

-- The place of `who` is now `stage`.
abbrev pub put : ℕ → Stage → (ℕ → Stage) → ℕ → Stage
put who stage stages q = if q == who then stage else stages q

abbrev pub is_owner : ℕ → Option ℕ → Bool
is_owner who none = false
is_owner who (some q) = q == who

-- Closing the file gives the lock of this handle back.
abbrev pub closed : ℕ → Option ℕ → Option ℕ
closed who owner = if is_owner who owner then none else owner

abbrev pub in_use : Text → PhaseLockBody → PhaseLockError
in_use phase b = lock_in_use phase b.writer_pid b.writer_host b.acquired_at

-- `set_len(0)`
abbrev pub emptied : Env → Option Content → Option Content
emptied env none = none
emptied env (some c) = if env.fails then some c else some blank

module _ (phase : Text) (callers : ℕ → Caller) where
  abbrev pub body_of : ℕ → ℕ → PhaseLockBody
  body_of who now = record {
    phase = phase;
    run_id = (callers who).run_id;
    writer_pid = (callers who).pid;
    writer_host = (callers who).host;
    acquired_at = now;
    ttl_seconds = unwrap_or (callers who).ttl_seconds default_phase_lock_ttl_seconds;
  }

  -- The look at the file before the lock is tried; what is no body counts as stale.
  abbrev pub look : Env → Option Content → Stage
  look env (some (body b)) =
      if is_lock_body_live env.now env.gone b then refused (in_use phase b) else checked
  look env (some blank) = checked
  look env (some corrupt) = checked
  look env none = checked

  abbrev pub begin : Env → Option Content → Stage
  begin env content = elim (validate_phase_name phase) [
    | err e ↦ refused e
    | ok valid ↦ if env.fails then refused io_error else look env content
  ]

  -- The error where another has the lock, from what the file says then.
  abbrev pub blocked : Env → Option Content → Stage
  blocked env (some (body b)) = refused (in_use phase b)
  blocked env (some blank) = refused (lock_in_use phase 0 (str "unknown") env.now)
  blocked env (some corrupt) = refused (lock_in_use phase 0 (str "unknown") env.now)
  blocked env none = refused (lock_in_use phase 0 (str "unknown") env.now)

  abbrev pub created : Option Content → Option Content
  created none = some blank
  created (some c) = some c

  abbrev pub try_lock : Env → ℕ → Option ℕ → State → State
  try_lock env who none s =
      if env.fails
      then record s { stages = put who (refused io_error) s.stages }
      else record s { stages = put who locked s.stages; owner = some who }
  try_lock env who (some q) s = record s { stages = put who (blocked env s.content) s.stages }

  -- A call of `acquire` that fails closes the file.
  abbrev pub give_up : ℕ → Option Content → State → State
  give_up who content s = record {
    stages = put who (refused io_error) s.stages;
    content = content;
    owner = closed who s.owner;
  }

  -- The next call of a caller: those of `acquire`, of the rest of `release` and of the rest of `drop`.
  abbrev pub advance : Env → ℕ → Stage → State → State
  advance env who idle s = record s { stages = put who (begin env s.content) s.stages }
  advance env who checked s =
      if env.fails
      then record s { stages = put who (refused io_error) s.stages }
      else record s { stages = put who opened s.stages; content = created s.content }
  advance env who opened s = try_lock env who s.owner s
  advance env who locked s =
      if env.fails
      then give_up who s.content s
      else record s { stages = put who truncated s.stages; content = emptied env s.content }
  advance env who truncated s = if env.fails then give_up who (some corrupt) s else record s {
    stages = put who written s.stages;
    content = some (body (body_of who env.now));
  }
  advance env who written s =
      if env.fails then give_up who s.content s else record s { stages = put who holding s.stages }
  advance env who cleared s = record s {
    stages = put who unlocked s.stages;
    owner = closed who s.owner;
  }
  advance env who unlocked s = record s {
    stages = put who done s.stages;
    content = emptied env s.content;
  }
  advance env who dropping s = record s {
    stages = put who done s.stages;
    owner = closed who s.owner;
  }
  advance env who holding s = s
  advance env who done s = s
  advance env who (refused e) s = s

  abbrev pub let_go : Env → ℕ → Stage → Stage → State → State
  let_go env who next holding s = record s {
    stages = put who next s.stages;
    content = emptied env s.content;
  }
  let_go env who next other s = s

  abbrev pub act_on : Act → ℕ → State → State
  act_on (go env) who s = advance env who (s.stages who) s
  act_on (release env) who s = let_go env who cleared (s.stages who) s
  act_on (drop env) who s = let_go env who dropping (s.stages who) s
  act_on crash who s = record s { stages = put who done s.stages; owner = closed who s.owner }

  -- The callers' steps in the order in which they are made.
  unfoldable pub run : List (ℕ × Act) → State → State
  run [] s = s
  run (e ∷ es) s = run es (act_on e.1 e.0 s)

-- No caller has begun, whatever a file from earlier holds.
abbrev pub start : Option Content → State
start content = record { stages = λ q. idle; content = content; owner = none }
