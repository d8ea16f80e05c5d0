-- ===== src/Study/Jobs/Explicit.antt =====
-- Explicit parameters win in every job of a study.
use research_lab.Prelude.{ℕ, Option, some, List, [], ◌∷◌, ◌++◌, All, All-append, ◌≡◌, false}
use research_lab.Prelude.Text.{Text, has_char}
use research_lab.Prelude.Outcome.{RlabResult, ok}
use research_lab.Prelude.Assoc
use research_lab.Prelude.Assoc.{Assoc}
use research_lab.Json.{Value}
use research_lab.Experiments.Planner.{ExperimentJob}
use research_lab.Study.{
  StudyMode, ExperimentDesign, StudyDesign, ExperimentCase, Qualification, RegistryStudyPlan,
}
use research_lab.Study.Jobs.Each.{plan_study-All}
use research_lab.Study.Overrides.{IsApart, final_params}
use research_lab.Study.Jobs.{Jobs, push_study_job, plan_study}

-- The job holds the value at the key.
abbrev pub Holds : Text → Value → ExperimentJob → Type 0
Holds k v job = Assoc.get k job.params ≡ some v

push-Holds :
    (k : Text) (v : Value) (output : Jobs) (experiment : Text) (condition variant : Option Text)
    (cell : ℕ) (params : Assoc Value) (seed : Option ℕ)
    → All (Holds k v) output
    → Assoc.get k params ≡ some v
    → All (Holds k v) (push_study_job output experiment condition variant cell params seed)
unfolding push_study_job
push-Holds k v output experiment condition variant cell params seed h e =
    All-append (Holds k v) output (_ ∷ []) h (e, tt)

-- An explicit parameter whose name has no dots is what every job of the planned study runs with,
-- in both modes and whatever the defaults, designs, variants, conditions and qualification say,
-- when the explicit parameters after it start with other keys.
pub plan_study-Holds :
    (k : Text) (v : Value) (before after : Assoc Value) (study : StudyDesign) (mode : StudyMode)
    (qualified : Qualification) (designs : Text → Option (RlabResult ExperimentDesign))
    (name : Text) (default_params : Assoc Value) (cases : List ExperimentCase)
    (plan : RegistryStudyPlan)
    → has_char b'.' k ≡ false
    → All (IsApart k) after
    → plan_study designs name study mode qualified default_params (before ++ (k, v) ∷ after) cases
      ≡ ok plan
    → All (Holds k v) plan.jobs
plan_study-Holds k v before after study mode qualified designs name default_params cases plan flat
      apart e =
    plan_study-All (Holds k v) (before ++ (k, v) ∷ after) study mode qualified designs name
      default_params cases plan
      (λ case d m known output variant cell params final seed h f.
        push-Holds k v output d.name case.condition variant cell final seed h
          (final_params k v before after params final flat apart f))
      e
