-- ===== src/Study/Cases/Planned.antt =====
-- What the jobs of a registered study run.
use research_lab.Prelude.{
  Option, none, some, List, [], ◌∷◌, All, All-append, Member, Member-keep_if, ◌≡◌, ◌⊎◌, inl, inr,
  refl, sym, ap, subst, ◌∙◌, Ordering, ℕ,
}
use research_lab.Prelude.Text.{Text, txt, text_eq, text_eq_iff, text_cmp, text_cmp_eq}
use research_lab.Prelude.Outcome.{RlabError, ok, bind-eq-ok, ok_or}
use research_lab.Prelude.Assoc
use research_lab.Prelude.Assoc.{Assoc, get-insert}
use research_lab.Json.{Value, array, nil, object, end}
use research_lab.Experiments.Matrix.{Axes}
use research_lab.Experiments.Planner.{ExperimentJob}
use research_lab.Registry.{RegistryRecord, Registry, find_ref, records_by_kind_ref}
use research_lab.Study.{StudyMode, ExperimentDesign, StudyDesign, ExperimentCase, RegistryStudyPlan}
use research_lab.Study.Decode.{
  parse_study_design, parse_qualification, parse_experiment_design, decode_record_metadata,
  decode_params, decode_axes, decode_seeds,
}
use research_lab.Study.Jobs.{Jobs, push_study_job}
use research_lab.Study.Jobs.Each.{plan_study-All}
use research_lab.Study.Cases.{
  experiment_lookup, lookup_from, experiment_designs, study_experiment_cases, plan_registry_study,
}
use research_lab.Study.Cases.Labels.{AreDistinct, study_experiment_cases-AreDistinct}

-- The name is that of one of the records.
abbrev Named : List RegistryRecord → Text → RegistryRecord → Type 0
Named rs name r = Member r rs × (r.name ≡ name)

lookup_from-Named :
    (name : Text) (found : Assoc RegistryRecord) (rs : List RegistryRecord) (r : RegistryRecord)
    → Assoc.get name (lookup_from found rs) ≡ some r
    → (Assoc.get name found ≡ some r) ⊎ Named rs name r
unfolding lookup_from
lookup_from-Named name found [] r e = inl e
lookup_from-Named name found (x ∷ rs) r e =
    elim (lookup_from-Named name (Assoc.insert x.name x found) rs r e) [
      | inr (m, n) ↦ inr (inr m, n)
      | inl here ↦ at (text_cmp name x.name) refl (sym (get-insert name x.name x found) ∙ here)
    ]
  where
    at :
        (o : Ordering)
        → text_cmp name x.name ≡ o
        → elim o [ Ordering.eq ↦ some x | _ ↦ Assoc.get name found ] ≡ some r
        → (Assoc.get name found ≡ some r) ⊎ Named (x ∷ rs) name r
    at Ordering.lt c k = inl k
    at Ordering.gt c k = inl k
    at Ordering.eq c k =
        let same : x ≡ r = cc k in
        inr (inl (sym same), ap (λ r. r.name) (sym same) ∙ sym ((text_cmp_eq name x.name).0 c))

-- An experiment of the registry has the name.
abbrev pub IsExperiment : Registry → Text → Type 0
IsExperiment g name =
    (r : RegistryRecord) × Member r g.records × (r.kind ≡ txt "experiment") × (r.name ≡ name)

experiment_lookup-IsExperiment :
    (g : Registry) (name : Text) (r : RegistryRecord)
    → Assoc.get name (experiment_lookup g) ≡ some r
    → Member r g.records × (r.kind ≡ txt "experiment") × (r.name ≡ name)
unfolding experiment_lookup records_by_kind_ref Assoc.get
experiment_lookup-IsExperiment g name r e =
    elim (lookup_from-Named name [] (records_by_kind_ref g (txt "experiment")) r e) [
      | inl k ↦ absurd (cc k)
      | inr (m, n) ↦
          let (k, t) = (Member-keep_if r (λ r. text_eq r.kind (txt "experiment")) g.records).0 m in
          (k, (text_eq_iff r.kind (txt "experiment")).0 t, n)
    ]

design_name :
    (r : RegistryRecord) (d : ExperimentDesign) → parse_experiment_design r ≡ ok d → r.name ≡ d.name
unfolding parse_experiment_design
design_name r d e =
    let (params, f0, e0) =
      bind-eq-ok (decode_record_metadata decode_params r (txt "params") (object end)) _ e in
    let (matrix, f1, e1) =
      bind-eq-ok (decode_record_metadata decode_axes r (txt "matrix") (object end)) _ e0 in
    let (seeds, f2, e2) =
      bind-eq-ok (decode_record_metadata decode_seeds r (txt "seeds") (array nil)) _ e1 in
    kept r.name params matrix seeds d e2
  where
    kept :
        (name : Text) (params : Assoc Value) (matrix : Axes) (seeds : List ℕ) (d : ExperimentDesign)
        → ok (record { name = name; params = params; matrix = matrix; seeds = seeds }) ≡ ok d
        → name ≡ d.name
    kept name params matrix seeds d e =
        let made : ExperimentDesign = record {
          name = name;
          params = params;
          matrix = matrix;
          seeds = seeds;
        } in
        let same : made ≡ d = cc e in ap (λ d. d.name) same

experiment_designs-IsExperiment :
    (g : Registry) (name : Text) (d : ExperimentDesign)
    → experiment_designs g name ≡ some (ok d)
    → IsExperiment g name × (name ≡ d.name)
unfolding experiment_designs
experiment_designs-IsExperiment g name d e = at (Assoc.get name (experiment_lookup g)) refl e
  where
    at :
        (o : Option RegistryRecord)
        → Assoc.get name (experiment_lookup g) ≡ o
        → elim o [ none ↦ none | some r ↦ some (parse_experiment_design r) ] ≡ some (ok d)
        → IsExperiment g name × (name ≡ d.name)
    at none found e = absurd (cc e)
    at (some r) found e =
        let decoded : parse_experiment_design r ≡ ok d = cc e in
        let (m, k, n) = experiment_lookup-IsExperiment g name r found in
        ((r, m, k, n), sym n ∙ design_name r d decoded)

-- The job is for one of the cases, and runs an experiment of the registry.
abbrev pub Runs : Registry → List ExperimentCase → ExperimentJob → Type 0
Runs g cases job =
    IsExperiment g job.experiment
    × ((case : ExperimentCase) × Member case cases
        × (case.condition ≡ job.condition)
        × (case.experiment ≡ job.experiment))

push-Runs :
    (g : Registry) (cases : List ExperimentCase) (case : ExperimentCase) (d : ExperimentDesign)
    (output : Jobs) (variant : Option Text) (cell : ℕ) (final : Assoc Value) (seed : Option ℕ)
    → Member case cases
    → experiment_designs g case.experiment ≡ some (ok d)
    → All (Runs g cases) output
    → All (Runs g cases) (push_study_job output d.name case.condition variant cell final seed)
unfolding push_study_job
push-Runs g cases case d output variant cell final seed m known h =
    let (found, same) = experiment_designs-IsExperiment g case.experiment d known in
    All-append (Runs g cases) output (_ ∷ []) h
      ((subst (IsExperiment g) same found, (case, m, refl, same)), tt)

-- What a planned study is made of.
abbrev pub PlannedFrom : Registry → Text → RegistryStudyPlan → Type 0
PlannedFrom g study_name plan =
    (study : RegistryRecord) × (design : StudyDesign) × (cases : List ExperimentCase) × (find_ref g
        (txt "study") study_name
      ≡ some study)
    × (parse_study_design study ≡ ok design)
    × (study_experiment_cases g study design ≡ ok cases)
    × AreDistinct cases
    × All (Runs g cases) plan.jobs

found_record :
    (o : Option RegistryRecord) (r : RegistryRecord) (x : RlabError) → ok_or o x ≡ ok r → o ≡ some r
found_record none r x e = cc
found_record (some a) r x e = let same : a ≡ r = cc e in ap some same

-- A study is planned only if it is registered. Each of its jobs is then for one of the cases that its
-- record declares and runs an experiment that is registered under the name that the case gives; and
-- no two cases are for the same condition and experiment.
pub plan_registry_study-PlannedFrom :
    (g : Registry) (study_name : Text) (mode : StudyMode)
    (default_params explicit_params : Assoc Value) (plan : RegistryStudyPlan)
    → plan_registry_study g study_name mode default_params explicit_params ≡ ok plan
    → PlannedFrom g study_name plan
unfolding plan_registry_study
plan_registry_study-PlannedFrom g study_name mode default_params explicit_params plan e =
    let (study, f0, e0) = bind-eq-ok (ok_or (find_ref g (txt "study") study_name) _) _ e in
    let (qualified, f1, e1) = bind-eq-ok (parse_qualification study) _ e0 in
    let (design, f2, e2) = bind-eq-ok (parse_study_design study) _ e1 in
    let (cases, f3, e3) = bind-eq-ok (study_experiment_cases g study design) _ e2 in
    (
      study,
      design,
      cases,
      found_record (find_ref g (txt "study") study_name) study _ f0,
      f2,
      f3,
      study_experiment_cases-AreDistinct g study design cases f2 f3,
      plan_study-All (Runs g cases) explicit_params design mode qualified (experiment_designs g)
          study_name default_params cases plan
          (λ case d m known output variant cell params final seed h f.
            push-Runs g cases case d output variant cell final seed m known h)
          e3,
    )
