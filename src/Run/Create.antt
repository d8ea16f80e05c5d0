-- ===== src/Run/Create.antt =====
-- `RunSession::create` of crates/rlab-core/src/run/lifecycle.rs, with the lock of fs/lock.rs.
pub mod Fresh
use research_lab.Prelude.{
  ℕ, Bool, true, false, Option, none, some, List, [], ◌∷◌, ◌++◌, any, if◌then◌else◌, ◌≡◌, refl, inl,
  inr, ◌⊎◌, sym, ◌∙◌, arith,
}
use research_lab.Prelude.Text.{Text, txt, text_eq}
use research_lab.Prelude.Outcome.{RlabResult, ok, err, run, format}
use research_lab.Json.{Value}
use research_lab.Run.State.{RunStatus, created, running, as_str}
use research_lab.Run.Files.{
  RunDirectory, RunFiles, World, Environment, Exec, effect, attempt, now_utc,
}
use research_lab.Prelude.Effect.{pure, raise, lift, reads, ◌>>=◌, ◌>>◌}
use research_lab.Run.Session.{transition, run_schema_version}

-- What the caller and the process environment give: the id is what `RunId::new` makes of the
-- operation, the name and the time.
pub record Request : Type 0 where
  pub id : RlabResult Text
  pub operation : Text
  pub name : Text
  pub runs : Text
  pub command : List Text
  pub parameters : Value
  pub parent_run_id : Option Text
  pub parent_target : Option Text

abbrev pub run_dirs : List Text
run_dirs =
    txt "logs"
    ∷ txt "artifacts"
    ∷ txt "tables"
    ∷ txt "figures"
    ∷ txt "results"
    ∷ txt "external"
    ∷ txt "reproducibility"
    ∷ []

add_dir : Text → List Text → List Text
add_dir dir dirs = if any (text_eq dir) dirs then dirs else dirs ++ dir ∷ []

module _ (env : Environment) where
  ensure_dirs : List Text → Exec (Unit {0})
  unfolding add_dir
  ensure_dirs [] = pure tt
  ensure_dirs (dir ∷ dirs) = do
    effect env (λ f. record f { directories = add_dir dir f.directories })
    ensure_dirs dirs

  -- `RunLock::acquire`: the file is opened, then locked if nobody holds the lock.
  acquire : Exec (Unit {0})
  acquire = do
    effect env (λ f. f)
    held ← reads (λ f. ok f.locked)
    let unavailable = run (format "run directory is already locked or unavailable" [])
    if held then raise unavailable else effect env (λ f. record f { locked = true })

  write_initial_run_files : RunDirectory → Exec (Unit {0})
  write_initial_run_files d = do
    effect env (λ f. record f { manifest = some d })
    effect env (λ f. record f { manifest_yaml = some d })
    effect env (λ f. record f { status = some (as_str created) })
    effect env (λ f. record f { params = some d.parameters })
    effect env (λ f. record f { notes = [] })

  initial_directory : Request → Text → ℕ → RunDirectory
  initial_directory r id now = record {
    schema_version = run_schema_version;
    id = id;
    operation = r.operation;
    name = r.name;
    status = created;
    path = r.runs ++ b'/' ∷ id;
    created_at = now;
    updated_at = now;
    command = r.command;
    parameters = r.parameters;
    notes = none;
    parent_run_id = r.parent_run_id;
    parent_target = r.parent_target;
  }

  -- What follows the lock: an error in it drops the lock again.
  populate : Request → Text → Exec RunDirectory
  unfolding write_initial_run_files initial_directory
  populate r id = do
    now ← now_utc env
    let d : RunDirectory = initial_directory r id now
    write_initial_run_files d
    effect env (λ f. record f { reproducibility = true })
    transition env d running

  unlock_after : {A : Type 0} → RlabResult A → Exec A
  unlock_after (ok a) w = (ok a, w)
  unlock_after (err e) w = (err e, attempt env (λ f. record f { locked = false }) w)

  or_unlock : {A : Type 0} → Exec A → Exec A
  unfolding unlock_after
  or_unlock m w = let (r, w') = m w in unlock_after r w'

  pub create : Request → Exec RunDirectory
  unfolding ensure_dirs acquire populate or_unlock
  create r = do
    effect env (λ f. f)
    effect env (λ f. f)
    effect env (λ f. f)
    id ← lift r.id
    ensure_dirs ([] ∷ run_dirs)
    acquire
    or_unlock (populate r id)
