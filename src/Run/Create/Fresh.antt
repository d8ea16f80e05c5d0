-- ===== src/Run/Create/Fresh.antt =====
-- What creating a run leaves in its directory, whichever file operations fail.
use research_lab.Prelude.{
  Bool, true, false, Option, some, List, [], ◌∷◌, ◌≡◌, refl, inl, inr, ◌⊎◌, sym, ◌∙◌,
}
use research_lab.Prelude.Text.{Text}
use research_lab.Prelude.Outcome.{RlabResult, ok, err}
use research_lab.Run.State.{created, running, as_str}
use research_lab.Run.Files.{RunDirectory, RunFiles, World, Environment, Exec}
use research_lab.Run.Triple.{attempt-keeps, Triple-effect, Triple-now_utc}
use research_lab.Prelude.Effect.Triple.{
  Post, Triple, Triple-weaken, Triple-pure, Triple-raise, Triple-lift, Triple-reads, Triple-if,
  Triple-bind,
}
use research_lab.Run.Session.Move.{Records, transition-Triple}
use research_lab.Run.Create.{
  Request, run_dirs, create, ensure_dirs, acquire, populate, or_unlock, unlock_after,
  write_initial_run_files, initial_directory,
}

-- The lock is held and the parameters are those of the request.
abbrev pub Held : Request → RunFiles → Type 0
Held r f =
    (f.locked ≡ true) × (f.params ≡ some r.parameters) × (f.notes ≡ []) × (f.reproducibility ≡ true)

module _ (env : Environment) (r : Request) (st : Option Text) (man : Option RunDirectory)
    (lock : Bool) where
  abbrev Untouched : RunFiles → Type 0
  Untouched f = (f.status ≡ st) × (f.manifest ≡ man) × (f.locked ≡ lock)

  -- A creation that fails after it took the lock.
  abbrev Started : RunFiles → Type 0
  Started f = (lock ≡ false) × ((f.status ≡ st) ⊎ (f.status ≡ some (as_str created)))

  abbrev pub Refused : RunFiles → Type 0
  Refused f = Untouched f ⊎ Started f

  dirs-Triple :
      (dirs : List Text) → Triple Untouched (ensure_dirs env dirs) (λ _ f. Untouched f) Refused
  unfolding ensure_dirs
  dirs-Triple [] = Triple-pure tt (λ f h. h)
  dirs-Triple (dir ∷ dirs) =
      Triple-bind {R = λ _ f. Untouched f} _ _ (Triple-effect env _ (λ f h. h) (λ f h. inl h))
        λ _. dirs-Triple dirs

  acquire-Triple :
      Triple Untouched
        (acquire env)
        (λ _ f. (f.status ≡ st) × (lock ≡ false) × (f.locked ≡ true))
        Refused
  unfolding acquire
  acquire-Triple =
      Triple-bind {R = λ _ f. Untouched f} _ _ (Triple-effect env _ (λ f h. h) (λ f h. inl h)) λ _.
        Triple-bind {R = λ held f. Untouched f × (lock ≡ held)} _ _
          (Triple-reads (λ f. ok f.locked) (λ held f e h. (h, sym h.2 ∙ cc)) (λ f h. inl h))
          λ held.
            Triple-if held _ _ (λ _. Triple-raise _ (λ f h. inl h.0))
              λ free.
                Triple-effect env (λ f. record f { locked = true })
                  (λ f h. (h.0.0, h.1 ∙ free, refl)) (λ f h. inl h.0)

  abbrev Begun : RunFiles → Type 0
  Begun f = (lock ≡ false) × (f.locked ≡ true)

  abbrev Writing : RunFiles → Type 0
  Writing f = Begun f × ((f.status ≡ st) ⊎ (f.status ≡ some (as_str created)))

  initial-Triple :
      (d : RunDirectory)
      → Triple
          (λ f. Begun f × (f.status ≡ st))
          (write_initial_run_files env d)
          (λ _ f.
            Begun f
            × (f.status ≡ some (as_str created))
            × (f.params ≡ some d.parameters)
            × (f.notes ≡ []))
          Writing
  unfolding write_initial_run_files
  initial-Triple d =
      Triple-bind {R = λ _ f. Begun f × (f.status ≡ st)} _ _
        (Triple-effect env (λ f. record f { manifest = some d }) (λ f h. h) (λ f h. (h.0, inl h.1)))
        λ _.
          Triple-bind {R = λ _ f. Begun f × (f.status ≡ st)} _ _
            (Triple-effect env (λ f. record f { manifest_yaml = some d }) (λ f h. h)
              (λ f h. (h.0, inl h.1)))
            λ _.
              Triple-bind {R = λ _ f. Begun f × (f.status ≡ some (as_str created))} _ _
                (Triple-effect env (λ f. record f { status = some (as_str created) })
                  (λ f h. (h.0, refl)) (λ f h. (h.0, inl h.1)))
                λ _.
                  Triple-bind
                    {R = λ _ f.
                      Begun f × (f.status ≡ some (as_str created)) × (f.params ≡ some d.parameters)}
                    _ _
                    (Triple-effect env (λ f. record f { params = some d.parameters })
                      (λ f h. (h.0, h.1, refl)) (λ f h. (h.0, inr h.1)))
                    λ _.
                      Triple-effect env (λ f. record f { notes = [] })
                        (λ f h. (h.0, h.1, h.2, refl)) (λ f h. (h.0, inr h.1))

  populate-Triple :
      (id : Text)
      → Triple
          (λ f. Begun f × (f.status ≡ st))
          (populate env r id)
          (λ d f. Held r f × Records d f × (d.status ≡ running))
          Writing
  unfolding populate
  populate-Triple id =
      Triple-bind {R = λ now f. Begun f × (f.status ≡ st)} _ _ (Triple-now_utc env (λ now f h. h))
        λ now.
          Triple-bind
            {R = λ _ f.
              Begun f
              × (f.status ≡ some (as_str created))
              × (f.params ≡ some r.parameters)
              × (f.notes ≡ [])}
            _ _ (initial-Triple (initial_directory env r id now))
            λ _.
              Triple-bind
                {R = λ _ f. (Held r f × (lock ≡ false)) × (f.status ≡ some (as_str created))} _ _
                (Triple-effect env (λ f. record f { reproducibility = true })
                  (λ f h. (((h.0.1, h.2, h.3, refl), h.0.0), h.1)) (λ f h. (h.0, inr h.1)))
                λ _.
                  Triple-weaken _ (λ f h. h) (λ d f h. (h.0.0, h.1, h.2))
                    (λ f h. ((h.0.1, h.0.0.0), inr h.1))
                    (transition-Triple env (λ f. Held r f × (lock ≡ false))
                      (record { manifest = λ f m h. h; yaml = λ f m h. h; status = λ f s h. h })
                      (some (as_str created)) _ running)

  unlock-Triple :
      {A : Type 0} (m : Exec A) (P : RunFiles → Type 0) (Q : A → RunFiles → Type 0)
      → Triple P m Q Writing
      → Triple P (or_unlock env m) Q Refused
  unfolding or_unlock
  unlock-Triple {A} m P Q t = record { at = λ w p. let (x, w') = m w in after x w' (t.at w p) }
    where
      after :
          (x : RlabResult A) (w : World)
          → Post Q Writing x w.files
          → Post Q Refused (unlock_after env x w).0 (unlock_after env x w).1.files
      after (ok a) w p = p
      after (err e) w p =
          inr
            (attempt-keeps env (λ f. record f { locked = false }) Started w (λ f h. h) (p.0.0, p.1))

  create-Triple :
      Triple Untouched (create env r) (λ d f. Held r f × Records d f × (d.status ≡ running)) Refused
  unfolding create
  create-Triple =
      Triple-bind {R = λ _ f. Untouched f} _ _ (Triple-effect env _ (λ f h. h) (λ f h. inl h)) λ _.
        Triple-bind {R = λ _ f. Untouched f} _ _ (Triple-effect env _ (λ f h. h) (λ f h. inl h))
          λ _.
            Triple-bind {R = λ _ f. Untouched f} _ _ (Triple-effect env _ (λ f h. h) (λ f h. inl h))
              λ _.
                Triple-bind {R = λ _ f. Untouched f} _ _
                  (Triple-lift r.id (λ id f e h. h) (λ f h. inl h))
                  λ id. Triple-bind {R = λ _ f. Untouched f} _ _ (dirs-Triple ([] ∷ run_dirs)) λ _.
                    Triple-bind {R = λ _ f. (f.status ≡ st) × (lock ≡ false) × (f.locked ≡ true)} _
                      _ acquire-Triple
                      λ _. unlock-Triple _ _ _ (
                        Triple-weaken _ (λ f h. ((h.1, h.2), h.0)) (λ d f h. h) (λ f h. h)
                          (populate-Triple id))

-- Whichever file operations fail: a creation that returns leaves a locked directory whose manifest
-- and status say `running`, with the parameters of the request and empty notes. One that does not
-- return leaves the lock, the manifest and the status as they were, or it found the directory
-- unlocked and its status is the old one or `created`: another session's run is never disturbed.
pub create_outcome :
    (env : Environment) (r : Request) (w : World)
    → let c = create env r w in
      Post
        (λ d f. Held r f × Records d f × (d.status ≡ running))
        (Refused env r w.files.status w.files.manifest w.files.locked)
        c.0
        c.1.files
create_outcome env r w =
    (create-Triple env r w.files.status w.files.manifest w.files.locked).at w (refl, refl, refl)
