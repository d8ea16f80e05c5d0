-- ===== src/Lib.antt =====
-- rlab: what a local research runtime promises of its durable state.
--
-- The runtime keeps everything in files: a registry of what a project declares, plans of jobs
-- made from experiments and studies, a directory for each run with its lock, manifest, status and
-- results, and a store of artifacts. The core is the crate crates/rlab-core; the command line and
-- the Python bindings call it. A registry record is decoded into designs, a design is planned as
-- jobs, a job is run in a session that owns its run directory, and finished runs are trimmed and
-- pruned by the storage policy.
--
-- Prelude: lists, texts (code points), maps in key order (BTreeMap), decimal numbers, the
-- comparisons of floats given as bits, and the errors of crates/rlab-core/src/error/kind.rs with
-- the propagation of errors by `?`; a panic is one error more, since it ends its callers in the
-- same way. Effect has actions over files: an action takes the files and a count of steps and
-- gives an outcome, the files and the new count; which steps fail is a function of the count, so
-- that a theorem for all such functions is one for every place of a failure. Effect/Triple has
-- the rules by which outcomes are proved, with one postcondition for a return and one for an
-- error.
-- Json: the values of serde_json, their equality, and paths into them.
-- Documents: crates/rlab-core/src/config/documents. merge.rs is `merge`, overrides.rs is
-- `set_path`, diff.rs is `diff_values`, load.rs is `load` and `apply_dotted_overrides`. A folder
-- is a map from names to what its files parse to. `load` has fuel; as each step adds a name to
-- the stack and a name on the stack is refused, one more than the number of files is enough, and
-- this is proved.
-- Registry: crates/rlab-core/src/registry. A registry is the list of its records; `insert` gives
-- the outcome and the registry that it leaves. Cache is schema.rs, with the digest of bytes as a
-- parameter. A path in a cache is the text of its components joined by single slashes, since
-- paths are compared by components.
-- Experiments: crates/rlab-core/src/experiments. Matrix is matrix.rs, Retry is retry.rs, Planner
-- is model.rs and planner.rs. A `usize` has 64 bits, and the checked products are written out. A
-- list of rows or of jobs that asks for more than isize::MAX bytes panics, at 24 bytes a row and
-- 160 bytes a job.
-- Study: crates/rlab-core/src/study/registry.rs. Decode is what the metadata of a record decodes
-- to, Cases is `study_experiment_cases` and `plan_registry_study`, Jobs has the loops of
-- `append_study_jobs`. What serde says of a value that does not decode is left out of the
-- messages. Jobs/Slots says independently of the loops which jobs a study has, in which order,
-- and with which parameters.
-- Migrate: crates/rlab-core/src/migrate. The scans of runs.rs and registry.rs, the plan of
-- plan.rs. A file is the outcome of reading and parsing it.
-- Storage: Glob is `glob_match` of run/storage.rs and `wildcard_match` of run/query.rs; Retention
-- is `apply_output_retention` of run/storage.rs; Collect is `prune_runs_keep_per_experiment` and
-- Cache is `enforce_materialized_cap` of artifact/gc.rs (both below crates/rlab-core/src).
-- Directories are lists of entries in the order of the system, and listing and removing may fail.
-- Artifact: crates/rlab-core/src/artifact. Reference is the parsing of manifest.rs, Layout its
-- records and the paths of store.rs, Store is `promote` and `ingest_path`, Lookup is `describe`
-- and `list`, Sweep is `sweep_unreachable_objects` of gc.rs, Resolve is resolve.rs. The store is
-- a map from paths to files, a file being what its contents parse to; a copy that fails may leave
-- a part of the file, and a line of the index is appended whole or not at all. Folders are not
-- modelled, and the JSON `Value` of a run line is one of Json.
-- Fs: crates/rlab-core/src/fs/safety.rs, the checks that a path stays below a root, on Unix
-- paths.
-- Jobs: crates/rlab-core/src/jobs/store.rs. The rows of `jobs.jsonl` and the logs are the files;
-- what the shell does with a command is a parameter.
-- Run: crates/rlab-core/src/run. State is state.rs, Metric is result/metric.rs and the sums of
-- run/store.rs, Files is the state of a run directory and the actions on it, Session and Create
-- are `RunSession` of lifecycle.rs with the lock of fs/lock.rs, Query is query.rs and Compare is
-- compare/runs.rs, over a directory of runs that is only read. A write that fails leaves its
-- target as it was, which is what the atomic writes of fs/atomic.rs are for. The storage policy
-- of a completed run is a parameter, which gives what it leaves of the files of the run and how
-- it ends; it may remove any of them.
--
-- Not modelled: parsing of YAML, JSON and TOML, digests, the clock and the file system itself are
-- parameters. The materialized trees of the store, configuration loading, journals, statistics
-- and reports are left out. The command line and the Python bindings are glue. Error messages are
-- a format string and its arguments. The order in which `run_finalize_storage` calls the parts of
-- the storage policy is not modelled, only most of these parts, under Storage and Artifact.
pub mod Prelude
pub mod Json
pub mod Documents
pub mod Registry
pub mod Experiments
pub mod Study
pub mod Storage
pub mod Artifact
pub mod Fs
pub mod Jobs
pub mod Run
pub mod Migrate
