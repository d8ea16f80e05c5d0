-- ===== src/Jobs/Tests.antt =====
-- A job that is started, and asked to be cancelled.
use research_lab.Prelude.{◌≡◌, true, false, none, some, []}
use research_lab.Prelude.Text.{txt}
use research_lab.Prelude.Outcome.{ok, is_ok}
use research_lab.Jobs.{Environment, World, start_job, cancel_job}
use research_lab.Jobs.Cancelled.{History, cancel_job-refused}

abbrev env : Environment
env = record {
  failure = λ n. none;
  clock = λ n. n;
  run_shell =
      λ command n. ok (record { stdout = txt "hi"; stderr = []; success = true; code = some 0 });
  cache = txt "cache";
}

abbrev start : World
start = record { files = record { rows = []; logs = [] }; steps = 0 }

abbrev after_one : World
after_one = (start_job env (txt "echo hi") start).1

cancel_job-refused_example :
    (is_ok (cancel_job env (txt "job_0") after_one).0 ≡ false)
    × ((cancel_job env (txt "job_0") after_one).1.files ≡ after_one.files)
cancel_job-refused_example =
    cancel_job-refused env (txt "job_0") after_one
      (History.started env (txt "echo hi") start History.fresh)
