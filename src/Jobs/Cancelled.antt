-- ===== src/Jobs/Cancelled.antt =====
-- Why no job is ever cancelled.
use research_lab.Prelude.{
  false, Option, none, some, List, [], ◌∷◌, All, All-append, find, find-All, reverse, ◌≡◌, inl, inr,
  refl, sym, subst, Bool-cases,
}
use mathlib.Core.List.{reverse_aux}
use research_lab.Prelude.Text.{Text, text_eq}
use research_lab.Prelude.Outcome.{
  RlabResult, RlabError, ok, err, is_ok, ensure, ok_or, validation, format,
}
use research_lab.Prelude.Effect.{lift}
use research_lab.Prelude.Effect.Triple.{
  Triple, Post, Triple-pure, Triple-lift, Triple-reads, Triple-perform, Triple-ask, Triple-bind,
  Triple-given, Triple-always,
}
use research_lab.Jobs.{
  JobRecord, JobFiles, Output, Environment, World, is_running, outcome, validate_command,
  append_row, write_log, start_job, list_jobs, latest_row, cancel_job,
}

-- The job has ended.
abbrev pub HasEnded : JobRecord → Type 0
HasEnded r = is_running r.status ≡ false

abbrev pub AllEnded : JobFiles → Type 0
AllEnded f = All HasEnded f.rows

-- The files after any operations on jobs, whichever of them fail.
pub data History : JobFiles → Type 0 where
  fresh : History (record { rows = []; logs = [] })
  started :
      (env : Environment) (command : Text) (w : World)
      → History w.files
      → History (start_job env command w).1.files
  asked_to_cancel :
      (env : Environment) (id : Text) (w : World)
      → History w.files
      → History (cancel_job env id w).1.files

append_row-AllEnded :
    (env : Environment) (r : JobRecord)
    → HasEnded r
    → Triple AllEnded (append_row env r) (λ _ f. AllEnded f) AllEnded
unfolding append_row
append_row-AllEnded env r ended =
    Triple-perform env.failure _ (λ f h. All-append HasEnded f.rows (r ∷ []) h (ended, tt))
      (λ f h. h)

outcome-ended : (o : Output) → is_running (outcome o) ≡ false
outcome-ended o = elim (Bool-cases o.success) [ inl e ↦ rw e refl | inr e ↦ rw e refl ]

start_job-AllEnded :
    (env : Environment) (command : Text)
    → Triple AllEnded (start_job env command) (λ _ f. AllEnded f) AllEnded
unfolding start_job write_log
start_job-AllEnded env command =
    Triple-bind _ _ (Triple-lift (validate_command command) (λ a f e h. h) (λ f h. h)) (λ u.
      Triple-bind _ _ (Triple-ask env.clock (λ a f h. h)) (λ nanos.
        Triple-bind _ _ (Triple-ask env.clock (λ a f h. h)) (λ started_at.
          Triple-bind _ _ (Triple-ask (env.run_shell command) (λ a f h. h)) (λ result.
            Triple-bind _ _ (Triple-lift result (λ a f e h. h) (λ f h. h)) (λ output.
              Triple-bind _ _ (Triple-perform env.failure _ (λ f h. h) (λ f h. h)) (λ u.
                Triple-bind _ _ (Triple-ask env.clock (λ a f h. h)) (λ now.
                  Triple-bind _ _ (append_row-AllEnded env _ (outcome-ended output))
                    (λ u. Triple-pure _ (λ f h. h)))))))))

All-reverse_aux :
    (rs acc : List JobRecord)
    → All HasEnded rs
    → All HasEnded acc
    → All HasEnded (reverse_aux rs acc)
All-reverse_aux [] acc h k = k
All-reverse_aux (r ∷ rs) acc h k = All-reverse_aux rs (r ∷ acc) h.1 (h.0, k)

latest_row-ended :
    (id : Text) (rows : List JobRecord) (r : JobRecord)
    → All HasEnded rows
    → latest_row id rows ≡ ok r
    → HasEnded r
unfolding latest_row
latest_row-ended id rows r h = from (find (λ r. text_eq r.id id) (reverse rows)) _ refl
  where
    from :
        (o : Option JobRecord) (x : RlabError)
        → find (λ r. text_eq r.id id) (reverse rows) ≡ o
        → ok_or o x ≡ ok r
        → HasEnded r
    from none x found e = absurd (cc e)
    from (some a) x found e =
        let same : a ≡ r = cc e in
        subst HasEnded same
          (find-All HasEnded _ (reverse rows) (All-reverse_aux rows [] h tt) found)

abbrev not_running : Text → RlabError
not_running id = validation (format "job {} is not running and cannot be cancelled" (id ∷ []))

refused :
    (r : JobRecord) (id : Text) {u : Unit {0}}
    → HasEnded r
    → ensure (is_running r.status) (not_running id) ≡ ok u
    → ⊥
refused r id over e = cc (rw over at e)

-- Of ended jobs none is cancelled: the action never gets to its second half.
cancel_job-AllEnded :
    (env : Environment) (id : Text) (g : JobFiles)
    → AllEnded g
    → Triple (λ f. f ≡ g) (cancel_job env id) (λ _ f. ⊥) (λ f. f ≡ g)
unfolding cancel_job list_jobs
cancel_job-AllEnded env id g all_ended =
    Triple-bind {R = λ rows f. (f ≡ g) × All HasEnded rows} _ _
      (Triple-bind {R = λ u f. f ≡ g} _ _ (Triple-perform env.failure _ (λ f h. h) (λ f h. h))
        (λ u. Triple-reads _ (λ rows f e h. (h, ended_rows f rows e h)) (λ f h. h)))
      (λ rows. Triple-given _ (λ ended.
        Triple-bind {R = λ r f. (f ≡ g) × HasEnded r} _ _
          (Triple-lift (latest_row id rows) (λ r f e h. (h, latest_row-ended id rows r ended e))
            (λ f h. h))
          (λ latest. Triple-given _ (λ over.
            Triple-bind {R = λ u f. ⊥} (lift (ensure (is_running latest.status) (not_running id))) _
              (Triple-lift (ensure (is_running latest.status) (not_running id))
                (λ u f e h. refused latest id over e) (λ f h. h))
              (λ u. record { at = λ w p. absurd p })))))
  where
    ended_rows :
        (f : JobFiles) (rows : List JobRecord) → ok f.rows ≡ ok rows → f ≡ g → All HasEnded rows
    ended_rows f rows e h =
        let same : f.rows ≡ rows = cc e in
        subst (All HasEnded) same (subst AllEnded (sym h) all_ended)

unchanged :
    (env : Environment) (id : Text) (w : World)
    → AllEnded w.files
    → (is_ok (cancel_job env id w).0 ≡ false) × ((cancel_job env id w).1.files ≡ w.files)
unchanged env id w before =
    let (r, w') = cancel_job env id w in
    outcome_of r w'.files ((cancel_job-AllEnded env id w.files before).at w refl)
  where
    outcome_of :
        (r : RlabResult JobRecord) (f : JobFiles)
        → Post (λ _ g. ⊥) (λ f. f ≡ w.files) r f
        → (is_ok r ≡ false) × (f ≡ w.files)
    outcome_of (ok a) f p = absurd p
    outcome_of (err e) f p = (refl, p)

-- Every row that is written is that of a job that has ended.
History-AllEnded : (f : JobFiles) → History f → AllEnded f
History-AllEnded f fresh = tt
History-AllEnded f (started env command w h) =
    Triple-always (start_job-AllEnded env command) w (History-AllEnded w.files h)
History-AllEnded f (asked_to_cancel env id w h) =
    let before = History-AllEnded w.files h in
    subst AllEnded (sym (unchanged env id w before).1) before

-- After any jobs have been started and any asked to be cancelled, whichever operations failed, no job
-- can be cancelled: asking for it is refused, and leaves the files as they were.
pub cancel_job-refused :
    (env : Environment) (id : Text) (w : World)
    → History w.files
    → (is_ok (cancel_job env id w).0 ≡ false) × ((cancel_job env id w).1.files ≡ w.files)
cancel_job-refused env id w h = unchanged env id w (History-AllEnded w.files h)
