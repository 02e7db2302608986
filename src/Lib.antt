-- ===== src/Lib.antt =====
-- Verification of loker, a command-line program that runs phases of work by language models: it
-- asks models for edits, applies them to a working tree, verifies them and rolls them back.
--
-- The files follow the program's parts:
--
--   Prelude: Boolean tests on the native numbers, options, results with their rules, lists, and
--     texts as lists of code points with the operations of `str` that the program calls.
--   ApplyVerify/EditParser: src/apply_verify/edit_parser.rs, from a model's raw text to edits.
--     EditParser has the fence, format and JSON parts, EditParser/Diff the unified diffs,
--     EditParser/FullFile whole files, EditParser/Entry the function `parse`. RoundTrip, Normal and
--     Sanitize prove.
--   ApplyVerify/Files: paths and the disk, as a parameter.
--   ApplyVerify/DiffApplier and ApplyVerify/Rollback: src/apply_verify/diff_applier.rs and
--     rollback.rs; DiffApplier/Replaced and Effects prove what an edit writes, and Rollback/Undoes,
--     Undo and Reliable what a rollback undoes.
--   ApplyVerify/RetryLoop: src/apply_verify/retry_loop.rs, `RetryLoop::execute` as steps that stop
--     or go on. RetryLoop/Advances, Outcomes and Atomic prove.
--   Family: src/family.rs, with Family/Distinct on `enforce_cross_family` and Family/Gateway on the
--     fuel of `family_of`.
--   Aggregator: the branch types of src/aggregator/concat.rs, in Aggregator/Concat the rest of that
--     file, in Aggregator/Verdict src/aggregator/mod.rs, in Aggregator/Judge
--     src/aggregator/llm_judge.rs, and in Aggregator/Vote src/aggregator/vote.rs: Vote counts and
--     resolves ties, Vote/Tally has `aggregate_vote` and the text that it writes, Concat/Heading,
--     Sits and Folded, Judge/Checks and Choice, Vote/Count, Vote/Ties and Vote/Elects prove.
--   RunState/Order: src/run_state/order.rs, the guard on the life cycle of a phase; RunState/Load:
--     src/run_state/load.rs, what the markers say of each phase; RunState/Resume: src/resume.rs,
--     the plan of a resumption, with `next_attempt` of src/run_state/markers.rs. RunState/Lock:
--     src/run_state/phase_lock.rs, callers whose steps interleave. Load/Highest, Resume/Above,
--     Resume/Planned, Lock/Exclusive, Recorded and Reclaimed prove.
--   Strategy: the records of src/strategy/mod.rs, in Strategy/Envelope the truncation and the
--     failure envelope of src/strategy/escalating_retry.rs, and in Strategy/Escalating its ladder,
--     in Strategy/Retry src/backend/retry.rs, and in Strategy/FanOut
--     src/strategy/parallel_fanout.rs, the loop in FanOut and what follows it in FanOut/Conclude;
--     Envelope/Bounds, FanOut/Fanned, Gathered, Concluded and Floor, Escalating/Climbed and Climb,
--     and Retry/Trail prove.
--   Workflow: src/workflow/mod.rs. Workflow has the records, Workflow/Depth the grouping by depth,
--     Workflow/Validate the checks at load time, Workflow/Merge what `extends` does and
--     Workflow/Run the loop over the levels. Depth/Path, Insert, Visit, Search, Levels, Checks and
--     Grouped, Validate/Bounds and Capable, Merge/Places, Overrides and Chain, and Run/Settled,
--     Kept, Prepared and Levels prove.
--   Grammar: src/workflow/grammar.rs, workflows of phases: references, validation and `from_str`.
--     Grammar/References, Places, Parsed, Fits and Accepted prove.
--   Manifest: src/manifest.rs, the registry of artefacts in memory and in its file;
--     Manifest/FileNames has the kinds and the names they are written by. Manifest/Kinds, Synced
--     and Lookup prove.
--   Tests: runs on concrete inputs, on a disk in memory.
--
-- Code that is not of the repository is a parameter: the disk (`FileSystem`, with what the program
-- relies on in `FileLaws`, where a write follows links and a removal takes away a name alone),
-- `serde_json` and the lower-case table (`Deps`), the verification command and the requester of
-- edits (`Calls`), the seeded generator of the `rand` crate (`Deps` of the vote). The ladder takes
-- its backends, its verification hook, the template engine, `redact_secrets` and the texts of
-- errors as parameters (`Services`, `Texts`), the retried query its backend, the clock and the
-- jitter (`Inner`). The judge and the verdicts take `serde_json` as the parameter `Json`, and the
-- ends of the parallel queries are a list in the order in which they end. The advisory lock of the
-- operating system belongs to one handle at a time, and is given back when the handle is closed;
-- time, the probe of a process and the failures of calls are in `Env`. The texts of JSON are a type
-- `J` with `Codec`, and the ways in which `atomic_write` ends are `WriteEnd`. The parser of TOML is
-- the parameter of `from_str`. A workflow's sources are the parameter `Sources`, and the template
-- engine and the execution of one prepared step the parameter `Runner`. A `HashMap` is an
-- association list in the order of insertion. `BTreeMap` is an association list in the order of its
-- keys (Prelude/Sorted).
--
-- Loops over lists are structural. `parse_files` takes fuel, and the number of lines is enough,
-- since each round takes a line. `heading_from` takes fuel, and one more than the length of the
-- template is enough. `family_from` takes fuel, and the length of the identifier is enough.
-- `shrink` takes fuel, and the rounds that the two budgets allow are enough. `retry_from` takes the
-- number of attempts that are left. `calc_depth` takes fuel, and one more than the number of steps
-- is enough, since what is being visited are different steps. `load_with_depth` takes fuel, and
-- twelve is enough, since the code gives up at a depth above ten.
--
-- The `u32` of an attempt number wraps around as in a release build (`u32_mod`, `after_highest`).
--
-- Not modelled: the strategy of a single model, the runner of a resumption, heartbeats, the phase
-- runner, the execution of one step of a workflow. Process, network and terminal I/O is not
-- modelled. Of the disk, what a path reads that goes by `..` through a directory that is created
-- only later is left out.
pub mod Prelude
pub mod Aggregator
pub mod ApplyVerify
pub mod Family
pub mod Grammar
pub mod Manifest
pub mod RunState
pub mod Strategy
pub mod Workflow
pub mod Tests
