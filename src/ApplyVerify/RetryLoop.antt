-- ===== src/ApplyVerify/RetryLoop.antt =====
-- src/apply_verify/retry_loop.rs: parse, apply, verify, roll back and ask again.
-- The verification command and the requester of new edits run outside of the repository: `Calls`
-- has them as functions of the world.
pub mod Advances
pub mod Outcomes
pub mod Atomic
use loker.Prelude.{
  ℕ, zero, suc, ◌+◌, ◌%◌, ◌^◌, Bool, true, false, not, ◌||◌, Option, none, some, List, [], ◌∷◌,
  ◌++◌, map, Result, ok, err, match_result, ◌==◌, if◌then◌else◌, is_nil,
}
use loker.Prelude.Text.{Text}
use loker.ApplyVerify.EditParser.{Deps, ParsedEdits, EditParseError}
use loker.ApplyVerify.EditParser.Entry.{parse}
use loker.ApplyVerify.Files.{PathBuf, FileSystem}
use loker.ApplyVerify.DiffApplier.{FileBackup, ApplyErrorKind, ApplyError, ApplyResult, apply}
use loker.ApplyVerify.Rollback.{rollback}

-- src/apply_verify/verification.rs
pub record VerifyResult : Type 0 where
  pub success : Bool
  pub stdout : Text
  pub stderr : Text
  pub exit_code : Option ℕ
  pub timed_out : Bool
  pub truncated : Bool

pub record AttemptRecord : Type 0 where
  pub attempt_num : ℕ
  pub raw_output : Text
  pub parse_error : Option EditParseError
  pub apply_error : Option Text
  pub verify_result : Option VerifyResult
  pub rolled_back : Bool

pub data RetryReason : Type 0 where
  parse_error : EditParseError → RetryReason
  apply_error : (message : Text) (partial_paths : List PathBuf) → RetryReason
  verify_error : VerifyResult → RetryReason

pub record RetryContext : Type 0 where
  pub attempt : ℕ
  pub previous_raw : Text
  pub reason : RetryReason

pub record RetryLoopOutcome : Type 0 where
  pub success : Bool
  pub attempts : List AttemptRecord
  pub final_verify : Option VerifyResult
  pub final_apply : Option ApplyResult

pub record RetryLoop : Type 0 where
  pub max_retries : ℕ
  pub stop_on_parse_error : Bool

abbrev pub u32_mod : ℕ
u32_mod = 2 ^ 32

-- `Verification::run`, `EditRequester::request_edits`, and the text of an error's `Display`.
pub record Calls (fs : FileSystem) : Type 0 where
  pub deps : Deps
  pub verify_run : fs.World → VerifyResult × fs.World
  pub request_edits : RetryContext → fs.World → Result Text Text × fs.World
  pub show_apply_error : ApplyErrorKind → Text

abbrev pub failure : List AttemptRecord → Option VerifyResult → RetryLoopOutcome
failure attempts verify = record {
  success = false;
  attempts = attempts;
  final_verify = verify;
  final_apply = none;
}

-- What the requester is told of a failed attempt.
abbrev pub context_of : AttemptRecord → RetryReason → RetryContext
context_of rec reason = record {
  attempt = (rec.attempt_num + 2) % u32_mod;
  previous_raw = rec.raw_output;
  reason = reason;
}

-- The record of an attempt before anything has run.
abbrev pub fresh_record : ℕ → Text → AttemptRecord
fresh_record n raw = record {
  attempt_num = n;
  raw_output = raw;
  parse_error = none;
  apply_error = none;
  verify_result = none;
  rolled_back = false;
}

-- What an attempt comes to: the loop returns, or it goes on with new text.
pub data Step (W : Type 0) : Type 0 where
  stop : RetryLoopOutcome → W → Step W
  again : (attempts : List AttemptRecord) (raw : Text) → W → Step W

-- Goes on from a step that does not stop.
abbrev pub follow :
    {W : Type 0}
    → Step W
    → (List AttemptRecord → Text → W → RetryLoopOutcome × W)
    → RetryLoopOutcome × W
follow (stop outcome w) next = (outcome, w)
follow (again attempts raw w) next = next attempts raw w

module _ (fs : FileSystem) (calls : Calls fs) (loop : RetryLoop) (cwd : PathBuf) where
  open fs use {World}
  open calls use {deps, verify_run, request_edits, show_apply_error}
  open loop use {max_retries, stop_on_parse_error}

  -- The query for new edits at the end of a failed attempt.
  unfoldable pub requery :
      List AttemptRecord → AttemptRecord → RetryReason → Option VerifyResult → World → Step World
  requery attempts rec reason final_verify w =
      match_result (request_edits (context_of rec reason) w)
        (λ raw w'. again (attempts ++ (rec ∷ [])) raw w')
        (λ e w'.
          stop (failure (attempts ++ (record rec { apply_error = some e } ∷ [])) final_verify) w')

  unfoldable pub after_parse_error :
      List AttemptRecord → AttemptRecord → EditParseError → World → Step World
  after_parse_error attempts rec e w =
      let rec' : AttemptRecord = record rec { parse_error = some e } in
      if stop_on_parse_error || rec.attempt_num == max_retries
      then stop (failure (attempts ++ (rec' ∷ [])) none) w
      else requery attempts rec' (parse_error e) none w

  -- Rolls the partial result back, if there is one.
  abbrev pub undo_partial : ApplyResult → AttemptRecord → World → AttemptRecord × World
  undo_partial partial rec w =
      if is_nil partial.modified_files
      then (rec, w)
      else (record rec { rolled_back = true }, (rollback fs partial w).1)

  unfoldable pub after_apply_error :
      List AttemptRecord → AttemptRecord → ApplyError → World → Step World
  after_apply_error attempts rec e w =
      let message = show_apply_error e.kind in
      let (rec', w') = undo_partial e.partial (record rec { apply_error = some message }) w in
      let paths = map (λ (b : FileBackup). b.path) e.partial.modified_files in
      if rec.attempt_num == max_retries
      then stop (failure (attempts ++ (rec' ∷ [])) none) w'
      else requery attempts rec' (apply_error message paths) none w'

  unfoldable pub after_apply : List AttemptRecord → AttemptRecord → ApplyResult → World → Step World
  after_apply attempts rec applied w =
      let (result, w') = verify_run w in
      let verified : AttemptRecord = record rec { verify_result = some result } in
      let undone : AttemptRecord = record verified { rolled_back = true } in
      let w'' = (rollback fs applied w').1 in
      if result.success
      then stop
          (record {
            success = true;
            attempts = attempts ++ (verified ∷ []);
            final_verify = some result;
            final_apply = some applied;
          })
          w'
      else if rec.attempt_num == max_retries
      then stop (failure (attempts ++ (undone ∷ [])) (some result)) w''
      else requery attempts undone (verify_error result) (some result) w''

  abbrev pub attempt_parsed :
      List AttemptRecord → AttemptRecord → Result ParsedEdits EditParseError → World → Step World
  attempt_parsed attempts rec (err e) w = after_parse_error attempts rec e w
  attempt_parsed attempts rec (ok parsed) w =
      match_result (apply fs parsed cwd w) (λ r w'. after_apply attempts rec r w')
        (λ e w'. after_apply_error attempts rec e w')

  -- The body of the `for` loop.
  unfoldable pub attempt : List AttemptRecord → ℕ → Text → World → Step World
  attempt attempts n raw w = attempt_parsed attempts (fresh_record n raw) (parse deps raw) w

  -- The loop from attempt `n` on, with `left` attempts left. At none left the source has an
  -- outcome that its bounds never reach.
  unfoldable pub retry_from :
      (left n : ℕ) → List AttemptRecord → Text → World → RetryLoopOutcome × World
  retry_from zero n attempts raw w = (failure attempts none, w)
  retry_from (suc left) n attempts raw w =
      follow (attempt attempts n raw w)
        (λ attempts' raw' w'. retry_from left (suc n) attempts' raw' w')

  -- `for attempt_num in 0..=self.max_retries`
  unfoldable pub execute : Text → World → RetryLoopOutcome × World
  execute initial_raw w = retry_from (suc max_retries) 0 [] initial_raw w
