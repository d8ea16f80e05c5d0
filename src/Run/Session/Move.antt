-- ===== src/Run/Session/Move.antt =====
-- A change of status, seen by an assertion that does not look at the manifest or the status.
use research_lab.Prelude.{◌≡◌, refl, some, Option}
use research_lab.Prelude.Text.{Text}
use research_lab.Run.State.{RunStatus, as_str, can_transition_to}
use research_lab.Run.Files.{RunDirectory, RunFiles, Environment}
use research_lab.Prelude.Effect.{raise}
use research_lab.Run.Triple.{Triple-effect, Triple-now_utc}
use research_lab.Prelude.Effect.Triple.{Triple, Triple-pure, Triple-raise, Triple-if, Triple-bind}
use research_lab.Run.Session.{transition, enter, write_manifest}

-- The files that hold a run's manifest and status say what the directory says.
abbrev pub Records : RunDirectory → RunFiles → Type 0
Records d f =
    (f.manifest ≡ some d) × (f.manifest_yaml ≡ some d) × (f.status ≡ some (as_str d.status))

-- Nothing that `transition` writes matters to `K`.
pub record Unmoved (K : RunFiles → Type 0) : Type 0 where
  pub manifest : (f : RunFiles) (m : Option RunDirectory) → K f → K (record f { manifest = m })
  pub yaml : (f : RunFiles) (m : Option RunDirectory) → K f → K (record f { manifest_yaml = m })
  pub status : (f : RunFiles) (s : Option Text) → K f → K (record f { status = s })

module _ (env : Environment) (K : RunFiles → Type 0) (u : Unmoved K) (st : Option Text) where
  manifest-Triple :
      (d : RunDirectory)
      → Triple
          (λ f. K f × (f.status ≡ st))
          (write_manifest env d)
          (λ _ f. K f × (f.status ≡ st) × (f.manifest ≡ some d) × (f.manifest_yaml ≡ some d))
          (λ f. K f × (f.status ≡ st))
  unfolding write_manifest
  manifest-Triple d =
      Triple-bind {R = λ _ f. K f × (f.status ≡ st) × (f.manifest ≡ some d)} _ _
        (Triple-effect env _ (λ f h. (u.manifest f _ h.0, h.1, refl)) (λ f h. h))
        λ _. Triple-effect env _ (λ f h. (u.yaml f _ h.0, h.1, h.2, refl)) (λ f h. (h.0, h.1))

  -- A change of status that fails leaves the status file as it was.
  pub enter-Triple :
      (d : RunDirectory) (s : RunStatus)
      → Triple
          (λ f. K f × (f.status ≡ st))
          (enter env d s)
          (λ d' f. K f × Records d' f × (d'.status ≡ s))
          (λ f. K f × (f.status ≡ st))
  unfolding enter
  enter-Triple d s =
      Triple-bind {R = λ now f. K f × (f.status ≡ st)} _ _ (Triple-now_utc env (λ now f h. h))
        λ now.
          let d' : RunDirectory = record d { status = s; updated_at = now } in
          Triple-bind
            {R = λ _ f.
              K f × (f.status ≡ st) × (f.manifest ≡ some d') × (f.manifest_yaml ≡ some d')}
            _ _ (manifest-Triple d')
            λ _.
              Triple-bind {R = λ _ f. K f × Records d' f × (d'.status ≡ s)} _ _
                (Triple-effect env (λ f. record f { status = some (as_str s) })
                  (λ f h. (u.status f _ h.0, (h.2, h.3, refl), refl)) (λ f h. (h.0, h.1)))
                λ _. Triple-pure d' (λ f h. h)

  pub transition-Triple :
      (d : RunDirectory) (s : RunStatus)
      → Triple
          (λ f. K f × (f.status ≡ st))
          (transition env d s)
          (λ d' f. K f × Records d' f × (d'.status ≡ s))
          (λ f. K f × (f.status ≡ st))
  unfolding transition
  transition-Triple d s =
      Triple-if (can_transition_to d.status s) (enter env d s) (raise _) (λ _. enter-Triple d s)
        (λ _. Triple-raise _ (λ f h. h))
