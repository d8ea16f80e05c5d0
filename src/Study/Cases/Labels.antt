-- ===== src/Study/Cases/Labels.antt =====
-- That no two cases of a study are for the same condition and experiment.
use research_lab.Prelude.{
  List, [], ◌∷◌, ◌++◌, map, any, All, ◌≡◌, ◌≢◌, inl, inr, ap, subst, Bool-cases, not,
}
use research_lab.Prelude.Text.{Text, txt, text_eq, is_blank}
use research_lab.Prelude.Outcome.{ok, bind-eq-ok, ok_or, ensure}
use research_lab.Prelude.Distinct.{IsDistinct, any-text_eq-false}
use research_lab.Json.{Value, array, nil, object, end, get_field, as_object, as_array, as_str}
use research_lab.Registry.{RegistryRecord, Registry}
use research_lab.Study.{StudyDesign, ConditionDesign, ExperimentCase}
use research_lab.Study.Decode.{
  field_as, optional_params, parse_condition, conditions_from, parse_conditions, parse_study_design,
  metadata_value, parse_variants, decode_record_metadata, decode_axes, decode_params, decode_seeds,
}
use research_lab.Experiments.Matrix.{validate_axes, Axes}
use research_lab.Prelude.{ℕ, ◌∙◌, ◌&&◌}
use research_lab.Prelude.Assoc
use research_lab.Prelude.Assoc.{Assoc}
use research_lab.Study.Cases
use research_lab.Study.Cases.{
  retain_unseen, study_experiments, condition_case, experiment_case, cases_of,
  study_experiment_cases,
}

-- The conditions differ or the experiments do.
abbrev pub Differ : ExperimentCase → ExperimentCase → Type 0
Differ c d = (c.condition ≡ d.condition) × (c.experiment ≡ d.experiment) → ⊥

abbrev pub AreDistinct : List ExperimentCase → Type 0
AreDistinct [] = Unit
AreDistinct (c ∷ cs) = All (Differ c) cs × AreDistinct cs

-- A condition that is read has a name that none before it has.
parse_condition-fresh :
    (names : List Text) (value : Value) (condition : ConditionDesign)
    → parse_condition names value ≡ ok condition
    → All (λ n. n ≢ condition.name) names
unfolding parse_condition
parse_condition-fresh names value condition e =
    let (fields, f0, e0) = bind-eq-ok (ok_or (as_object value) _) _ e in
    let (name, f1, e1) =
      bind-eq-ok (ok_or (field_as as_str (get_field (txt "name") fields)) _) _ e0 in
    let (u2, f2, e2) = bind-eq-ok (ensure (not (is_blank name)) _) _ e1 in
    let (u3, f3, e3) = bind-eq-ok (ensure (not (any (λ n. text_eq n name) names)) _) _ e2 in
    let (experiment, f4, e4) =
      bind-eq-ok (ok_or (field_as as_str (get_field (txt "experiment") fields)) _) _ e3 in
    let (u5, f5, e5) = bind-eq-ok (ensure (not (is_blank experiment)) _) _ e4 in
    let (params, f6, e6) = bind-eq-ok (optional_params (get_field (txt "params") fields) _) _ e5 in
    let same : name ≡ condition.name = named name experiment params condition e6 in
    subst (λ t. All (λ n. n ≢ t) names) same
      (any-text_eq-false names name (elim (Bool-cases (any (λ n. text_eq n name) names)) [
        | inl t ↦ absurd (cc (rw t at f3))
        | inr t ↦ t
      ]))
  where
    named :
        (name experiment : Text) (params : Assoc Value) (condition : ConditionDesign)
        → ok (record { name = name; experiment = experiment; params = params }) ≡ ok condition
        → name ≡ condition.name
    named name experiment params condition e =
        let made : ConditionDesign = record {
          name = name;
          experiment = experiment;
          params = params;
        } in
        let same : made ≡ condition = cc e in ap (λ c. c.name) same

condition_names : List ConditionDesign → List Text
condition_names cs = map (λ c. c.name) cs

-- All of the texts differ from each of the names.
abbrev Avoid : List Text → List Text → Type 0
Avoid names ts = All (λ t. All (λ n. n ≢ t) names) ts

Avoid-cons : (t : Text) (names ts : List Text) → Avoid (t ∷ names) ts → Avoid names ts
Avoid-cons t names [] h = tt
Avoid-cons t names (u ∷ ts) h = (h.0.1, Avoid-cons t names ts h.1)

Avoid-head : (t : Text) (names ts : List Text) → Avoid (t ∷ names) ts → All (λ u. t ≢ u) ts
Avoid-head t names [] h = tt
Avoid-head t names (u ∷ ts) h = (h.0.0, Avoid-head t names ts h.1)

conditions_from-IsDistinct :
    (names : List Text) (values : List Value) (cs : List ConditionDesign)
    → conditions_from names values ≡ ok cs
    → Avoid names (condition_names cs) × IsDistinct (condition_names cs)
unfolding conditions_from condition_names
conditions_from-IsDistinct names [] cs e =
    let same : [] ≡ cs = cc e in
    subst (λ cs. Avoid names (condition_names cs) × IsDistinct (condition_names cs)) same (tt, tt)
conditions_from-IsDistinct names (value ∷ values) cs e =
    let (c, f, e1) = bind-eq-ok (parse_condition names value) _ e in
    let (rest, g, e2) = bind-eq-ok (conditions_from (c.name ∷ names) values) _ e1 in
    let (avoid, distinct) = conditions_from-IsDistinct (c.name ∷ names) values rest g in
    let same : c ∷ rest ≡ cs = cc e2 in
    subst (λ cs. Avoid names (condition_names cs) × IsDistinct (condition_names cs)) same
      (
        (
          parse_condition-fresh names value c f,
          Avoid-cons c.name names (condition_names rest) avoid,
        ),
        (Avoid-head c.name names (condition_names rest) avoid, distinct),
      )

retain_unseen-IsDistinct :
    (seen names : List Text)
    → Avoid seen (retain_unseen seen names) × IsDistinct (retain_unseen seen names)
unfolding retain_unseen
retain_unseen-IsDistinct seen [] = (tt, tt)
retain_unseen-IsDistinct seen (name ∷ names) = elim (Bool-cases (any (λ n. text_eq n name) seen)) [
  | inl t ↦ rw (retain_unseen, t) (retain_unseen-IsDistinct seen names)
  | inr t ↦
      let (avoid, distinct) = retain_unseen-IsDistinct (name ∷ seen) names in
      let rest = retain_unseen (name ∷ seen) names in
      rw (retain_unseen, t)
        (
          (any-text_eq-false seen name t, Avoid-cons name seen rest avoid),
          (Avoid-head name seen rest avoid, distinct),
        )
]

distinct_conditions :
    (cs : List ConditionDesign)
    → IsDistinct (condition_names cs)
    → AreDistinct (map condition_case cs)
unfolding condition_names
distinct_conditions [] d = tt
distinct_conditions (c ∷ cs) d = (differ c cs d.0, distinct_conditions cs d.1)
  where
    differ :
        (c : ConditionDesign) (cs : List ConditionDesign)
        → All (λ y. c.name ≢ y) (map (λ c. c.name) cs)
        → All (Differ (condition_case c)) (map condition_case cs)
    differ c [] h = tt
    differ c (d ∷ cs) h = (λ e. h.0 (cc e.0), differ c cs h.1)

distinct_experiments :
    (names : List Text) → IsDistinct names → AreDistinct (map experiment_case names)
distinct_experiments [] d = tt
distinct_experiments (name ∷ names) d = (differ name names d.0, distinct_experiments names d.1)
  where
    differ :
        (name : Text) (names : List Text)
        → All (λ y. name ≢ y) names
        → All (Differ (experiment_case name)) (map experiment_case names)
    differ name [] h = tt
    differ name (n ∷ names) h = (λ e. h.0 e.1, differ name names h.1)

cases_of-AreDistinct :
    (g : Registry) (study : RegistryRecord) (cs : List ConditionDesign)
    (cases : List ExperimentCase)
    → IsDistinct (condition_names cs)
    → cases_of g study cs ≡ ok cases
    → AreDistinct cases
unfolding cases_of study_experiments
cases_of-AreDistinct g study [] cases d e =
    let (names, f, e1) = bind-eq-ok (study_experiments g study) _ e in
    let (listed, f1, g1) = bind-eq-ok (Cases.string_array study) _ f in
    let (others, f2, g2) = bind-eq-ok (Cases.selector_experiments g study) _ g1 in
    let kept : retain_unseen [] (listed ++ others) ≡ names = cc g2 in
    let same : map experiment_case names ≡ cases = cc e1 in
    subst AreDistinct same (
      distinct_experiments names
        (subst IsDistinct kept (retain_unseen-IsDistinct [] (listed ++ others)).1))
cases_of-AreDistinct g study (c ∷ cs) cases d e =
    let (listed, f1, e1) = bind-eq-ok (Cases.string_array study) _ e in
    let (u, f2, e2) =
      bind-eq-ok
        (ensure
          (Cases.is_empty listed
            && not (Assoc.contains_key (txt "experiment_selector") study.metadata))
          _)
        _ e1 in
    let same : map condition_case (c ∷ cs) ≡ cases = cc e2 in
    subst AreDistinct same (distinct_conditions (c ∷ cs) d)

parse_conditions-IsDistinct :
    (study : RegistryRecord) (cs : List ConditionDesign)
    → parse_conditions study ≡ ok cs
    → IsDistinct (condition_names cs)
unfolding parse_conditions
parse_conditions-IsDistinct study cs e =
    let (values, f, e1) =
      bind-eq-ok (ok_or (as_array (metadata_value study (txt "conditions") (array nil))) _) _ e in
    (conditions_from-IsDistinct [] values cs e1).1

design_conditions :
    (study : RegistryRecord) (design : StudyDesign)
    → parse_study_design study ≡ ok design
    → parse_conditions study ≡ ok design.conditions
unfolding parse_study_design
design_conditions study design e =
    let (axes, f0, e0) =
      bind-eq-ok (decode_record_metadata decode_axes study (txt "axes") (object end)) _ e in
    let (u, f1, e1) = bind-eq-ok (validate_axes axes) _ e0 in
    let (params, f2, e2) =
      bind-eq-ok (decode_record_metadata decode_params study (txt "params") (object end)) _ e1 in
    let (variants, f3, e3) = bind-eq-ok (parse_variants study) _ e2 in
    let (conditions, f4, e4) = bind-eq-ok (parse_conditions study) _ e3 in
    let (seeds, f5, e5) =
      bind-eq-ok (decode_record_metadata decode_seeds study (txt "seeds") (array nil)) _ e4 in
    f4 ∙ ap ok (kept params axes variants conditions seeds design e5)
  where
    kept :
        (params : Assoc Value) (axes : Axes) (variants : Assoc (Assoc Value))
        (conditions : List ConditionDesign) (seeds : List ℕ) (design : StudyDesign)
        → ok (record {
          params = params;
          axes = axes;
          variants = variants;
          conditions = conditions;
          seeds = seeds;
        })
          ≡ ok design
        → conditions ≡ design.conditions
    kept params axes variants conditions seeds design e =
        let made : StudyDesign = record {
          params = params;
          axes = axes;
          variants = variants;
          conditions = conditions;
          seeds = seeds;
        } in
        let same : made ≡ design = cc e in ap (λ d. d.conditions) same

-- The cases of a study differ in their condition or in their experiment.
pub study_experiment_cases-AreDistinct :
    (g : Registry) (study : RegistryRecord) (design : StudyDesign) (cases : List ExperimentCase)
    → parse_study_design study ≡ ok design
    → study_experiment_cases g study design ≡ ok cases
    → AreDistinct cases
unfolding study_experiment_cases
study_experiment_cases-AreDistinct g study design cases d e =
    cases_of-AreDistinct g study design.conditions cases
      (parse_conditions-IsDistinct study design.conditions (design_conditions study design d)) e
