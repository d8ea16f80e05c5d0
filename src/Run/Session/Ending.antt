-- ===== src/Run/Session/Ending.antt =====
-- What a run that ends leaves in its directory, whichever file operations fail.
use research_lab.Prelude.{
  ℕ, suc, ◌≡◌, refl, sym, ap, ◌∙◌, ◌⊎◌, inl, inr, Option, some, List, [], ◌∷◌, ◌++◌, Bool, false,
  Option-cases,
}
use research_lab.Prelude.Text.{Text}
use research_lab.Prelude.Outcome.{RlabError, ok, err, RlabResult-cases}
use research_lab.Json.{Value}
use research_lab.Prelude.Effect.{perform}
use research_lab.Run.State.{RunStatus, completed, failed, as_str}
use research_lab.Run.Metric.{Metric, MetricLine, read_metrics, summarize}
use research_lab.Run.Files.{
  RunDirectory, RunFiles, World, Environment, Exec, effect, now_utc, dropping_lock,
}
use research_lab.Run.Triple.{Triple-effect, Triple-dropping_lock}
use research_lab.Prelude.Effect.Triple.{
  Triple, Triple-reads, Triple-weaken, Triple-pure, Triple-bind,
}
use research_lab.Run.Session.Move.{Records, transition-Triple}
use research_lab.Run.Session.{
  transition, write_metric_summary, write_report, close, complete, fail, fail_with_result,
  finalize_storage, lines_of, skipped,
}

-- The summary is that of the metrics that were logged, all of them well formed.
abbrev pub Summarized : Option (List MetricLine) → RunFiles → Type 0
Summarized lines f =
    (ms : List Metric) × (read_metrics (lines_of lines) ≡ ok ms)
    × (f.summary ≡ some (summarize [] ms))

abbrev pub Reported : RunDirectory → RunFiles → Type 0
Reported d f =
    f.report
    ≡ some (record { id = d.id; operation = d.operation; name = d.name; status = as_str d.status })

-- What an ending in the status `s` leaves: `X` is what the operation wrote before it.
abbrev pub Ended :
    RunStatus → Option (List MetricLine) → (RunFiles → Type 0) → RunDirectory → RunFiles → Type 0
Ended s lines X d f = (d.status ≡ s) × Records d f × Summarized lines f × X f

module _ (env : Environment) where
  -- What the storage policy leaves of the files `g` of a run, but for the lock: what it makes of
  -- them, with at most one note, of the error that it ended with.
  abbrev pub Managed : RunFiles → RunFiles → Type 0
  Managed g f =
      let left = env.finalize g in
      (notes : List (Text × ℕ)) × (locked : Bool) × (f
        ≡ record left.1 { notes = notes; locked = locked })
      × ((notes ≡ left.1.notes)
          ⊎ ((error : RlabError) × (now : ℕ) × (left.0 ≡ err error)
              × (notes ≡ left.1.notes ++ (skipped error, now) ∷ [])))

  finalize_storage-Managed : (w : World) → Managed w.files (finalize_storage env w).files
  unfolding finalize_storage effect now_utc perform
  finalize_storage-Managed w = elim (RlabResult-cases (env.finalize w.files).0) [
    | inl (u, e) ↦ rw (e, finalize_storage) (_, _, refl, inl refl)
    | inr (x, e) ↦ elim (Option-cases (env.failure (suc w.steps))) [
      | inl e' ↦ rw (e, finalize_storage) (rw (e', perform) (_, _, refl, inr (x, _, refl, refl)))
      | inr (y, e') ↦ rw (e, finalize_storage) (rw (e', perform) (_, _, refl, inl refl))
    ]
  ]

module _ (env : Environment) (lines : Option (List MetricLine)) (st : Option Text) where
  -- Files with the wanted results or error, that still have the old status.
  abbrev Open : (RunFiles → Type 0) → RunFiles → Type 0
  Open X f = (f.status ≡ st) × (f.metrics ≡ lines) × X f

  -- A broken-off ending has the old status, or everything but the report.
  abbrev pub Broken : RunStatus → (RunFiles → Type 0) → RunFiles → Type 0
  Broken s X f = (f.status ≡ st) ⊎ ((d : RunDirectory) × Ended s lines X d f)

  -- What the operation wrote is in `results.json` or `error.txt`, which the ending leaves alone.
  abbrev pub Stable : (RunFiles → Type 0) → Type 0
  Stable X = (f g : RunFiles) → f.results ≡ g.results → f.error ≡ g.error → X f → X g

  summary-Triple :
      (s : RunStatus) (X : RunFiles → Type 0)
      → Stable X
      → Triple
          (Open X)
          (write_metric_summary env)
          (λ _ f. Open X f × Summarized lines f)
          (Broken s X)
  unfolding write_metric_summary
  summary-Triple s X stable =
      Triple-bind {R = λ _ f. Open X f} _ _ (Triple-effect env _ (λ f h. h) (λ f h. inl h.0)) λ _.
        Triple-bind {R = λ ms f. Open X f × (read_metrics (lines_of lines) ≡ ok ms)} _ _
          (Triple-reads _ (λ ms f e h. (h, ap (λ l. read_metrics (lines_of l)) (sym h.1) ∙ e))
            (λ f h. inl h.0))
          λ ms.
            Triple-effect env _
              (λ f h. ((h.0.0, h.0.1, stable f _ refl refl h.0.2), (ms, h.1, refl)))
              (λ f h. inl h.0.0)

  ending_transition :
      (d : RunDirectory) (s : RunStatus) (X : RunFiles → Type 0)
      → Stable X
      → Triple
          (λ f. Open X f × Summarized lines f)
          (transition env d s)
          (λ d' f. Ended s lines X d' f)
          (Broken s X)
  ending_transition d s X stable =
      Triple-weaken _ (λ f h. ((h.0.2, h.1), h.0.0)) (λ d' f h. (h.2, h.1, h.0.1, h.0.0))
        (λ f h. inl h.1)
        (transition-Triple env (λ f. X f × Summarized lines f)
          (record {
            manifest = λ f m h. (stable f _ refl refl h.0, h.1);
            yaml = λ f m h. (stable f _ refl refl h.0, h.1);
            status = λ f m h. (stable f _ refl refl h.0, h.1);
          })
          st d s)

  close-Triple :
      (d : RunDirectory) (s : RunStatus) (X : RunFiles → Type 0)
      → Stable X
      → Triple (Open X) (close env d s) (λ d' f. Ended s lines X d' f × Reported d' f) (Broken s X)
  unfolding close write_report
  close-Triple d s X stable =
      Triple-bind {R = λ _ f. Open X f × Summarized lines f} _ _ (summary-Triple s X stable) λ _.
        Triple-bind {R = λ d' f. Ended s lines X d' f} _ _ (ending_transition d s X stable) λ d'.
          Triple-bind {R = λ _ f. Ended s lines X d' f × Reported d' f} _ _
            (Triple-effect env _ (λ f h. ((h.0, h.1, h.2, stable f _ refl refl h.3), refl))
              (λ f h. inr (d', h)))
            λ _. Triple-pure d' (λ f h. h)

  -- What a completion leaves: what the storage policy makes of a run that has ended and reported.
  abbrev pub Completed : (RunFiles → Type 0) → RunDirectory → RunFiles → Type 0
  Completed X d f = (g : RunFiles) × Ended completed lines X d g × Reported d g × Managed env g f

  finalize-Triple :
      (d : RunDirectory) (X : RunFiles → Type 0)
      → Triple
          (λ f. Ended completed lines X d f × Reported d f)
          (λ w. (ok d, finalize_storage env w))
          (Completed X)
          (Broken completed X)
  finalize-Triple d X = record { at = λ w p. (w.files, p.0, p.1, finalize_storage-Managed env w) }

  -- The drop of the lock changes nothing that an ending promises.
  ending-Triple :
      (m : Exec RunDirectory) (s : RunStatus) (X : RunFiles → Type 0)
      (Q : RunDirectory → RunFiles → Type 0)
      → Stable X
      → ((d : RunDirectory) (f : RunFiles) → Q d f → Q d (record f { locked = false }))
      → Triple (λ f. (f.status ≡ st) × (f.metrics ≡ lines)) m Q (Broken s X)
      → Triple (λ f. (f.status ≡ st) × (f.metrics ≡ lines)) (dropping_lock env m) Q (Broken s X)
  ending-Triple m s X Q stable unlocked t = Triple-dropping_lock env m t unlocked λ f. elim [
    | inl same ↦ inl same
    | inr (d, h) ↦ inr (d, (h.0, h.1, h.2, stable f _ refl refl h.3))
  ]

  Reported-unlocked :
      (s : RunStatus) (X : RunFiles → Type 0)
      → Stable X
      → (d : RunDirectory) (f : RunFiles) → Ended s lines X d f × Reported d f
      → Ended s lines X d (record f { locked = false }) × Reported d (record f { locked = false })
  Reported-unlocked s X stable d f h = ((h.0.0, h.0.1, h.0.2, stable f _ refl refl h.0.3), h.1)

  pub complete-Triple :
      (d : RunDirectory) (result : Value)
      → Triple
          (λ f. (f.status ≡ st) × (f.metrics ≡ lines))
          (complete env d result)
          (Completed (λ f. f.results ≡ some result))
          (Broken completed (λ f. f.results ≡ some result))
  unfolding complete
  complete-Triple d result =
      let X : RunFiles → Type 0 = λ f. f.results ≡ some result in
      let stable : Stable X = λ f g r e x. sym r ∙ x in
      ending-Triple _ completed X (Completed X) stable
        (λ d f (g, ended, reported, (notes, locked, same, why)). (
          g,
          ended,
          reported,
          (notes, false, ap {A = RunFiles} (λ f. record f { locked = false }) same, why),
        ))
        (Triple-bind {R = λ _ f. Open X f} _ _
          (Triple-effect env (λ f. record f { results = some result }) (λ f h. (h.0, h.1, refl))
            (λ f h. inl h.0))
          λ _.
            Triple-bind {R = λ d' f. Ended completed lines X d' f × Reported d' f} _ _
              (close-Triple d completed X stable) λ d'. finalize-Triple d' X)

  pub fail-Triple :
      (d : RunDirectory) (message : Text)
      → Triple
          (λ f. (f.status ≡ st) × (f.metrics ≡ lines))
          (fail env d message)
          (λ d' f. Ended failed lines (λ f. f.error ≡ some message) d' f × Reported d' f)
          (Broken failed (λ f. f.error ≡ some message))
  unfolding fail
  fail-Triple d message =
      let X : RunFiles → Type 0 = λ f. f.error ≡ some message in
      let stable : Stable X = λ f g r e x. sym e ∙ x in
      ending-Triple _ failed X (λ d f. Ended failed lines X d f × Reported d f) stable
        (Reported-unlocked failed X stable)
        (Triple-bind {R = λ _ f. Open X f} _ _
          (Triple-effect env (λ f. record f { error = some message }) (λ f h. (h.0, h.1, refl))
            (λ f h. inl h.0))
          λ _. close-Triple d failed X stable)

  pub fail_with_result-Triple :
      (d : RunDirectory) (message : Text) (result : Value)
      → Triple
          (λ f. (f.status ≡ st) × (f.metrics ≡ lines))
          (fail_with_result env d message result)
          (λ d' f.
            Ended failed lines (λ f. (f.results ≡ some result) × (f.error ≡ some message)) d' f
            × Reported d' f)
          (Broken failed (λ f. (f.results ≡ some result) × (f.error ≡ some message)))
  unfolding fail_with_result
  fail_with_result-Triple d message result =
      let X : RunFiles → Type 0 = λ f. (f.results ≡ some result) × (f.error ≡ some message) in
      let stable : Stable X = λ f g r e x. (sym r ∙ x.0, sym e ∙ x.1) in
      ending-Triple _ failed X (λ d f. Ended failed lines X d f × Reported d f) stable
        (Reported-unlocked failed X stable)
        (Triple-bind {R = λ _ f. (f.status ≡ st) × (f.metrics ≡ lines) × (f.results ≡ some result)}
          _ _
          (Triple-effect env (λ f. record f { results = some result }) (λ f h. (h.0, h.1, refl))
            (λ f h. inl h.0))
          λ _.
            Triple-bind {R = λ _ f. Open X f} _ _
              (Triple-effect env (λ f. record f { error = some message })
                (λ f h. (h.0, h.1, (h.2, refl))) (λ f h. inl h.0))
              λ _. close-Triple d failed X stable)
