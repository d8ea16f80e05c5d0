-- ===== src/Run/Triple.antt =====
-- The rules of `Effect.Triple` for the operations of a session.
use research_lab.Prelude.{ℕ, false, Option-cases, inl, inr}
use research_lab.Prelude.Outcome.{RlabResult, ok, err}
use research_lab.Prelude.Effect.{World}
use research_lab.Prelude.Effect.Triple.{Triple, Post, Triple-perform}
use research_lab.Run.Files.{RunFiles, Environment, Exec, effect, attempt, now_utc, dropping_lock}

-- An operation whose failure is not looked at keeps what the change keeps.
pub attempt-keeps :
    (env : Environment) (change : RunFiles → RunFiles) (P : RunFiles → Type 0) (w : World RunFiles)
    → ((f : RunFiles) → P f → P (change f))
    → P w.files
    → P (attempt env change w).files
unfolding attempt
attempt-keeps env change P w h p = elim (Option-cases (env.failure w.steps)) [
  | inl e ↦ rw (e, attempt) (h w.files p)
  | inr (x, e) ↦ rw (e, attempt) p
]

module _ {A : Type 0} {P : RunFiles → Type 0} {Q : A → RunFiles → Type 0}
    {E : RunFiles → Type 0} where
  pub Triple-dropping_lock :
      (env : Environment) (m : Exec A)
      → Triple P m Q E
      → ((a : A) (f : RunFiles) → Q a f → Q a (record f { locked = false }))
      → ((f : RunFiles) → E f → E (record f { locked = false }))
      → Triple P (dropping_lock env m) Q E
  unfolding dropping_lock
  Triple-dropping_lock env m t hq he = record {
    at = λ w p. let (r, w') = m w in after r w' (t.at w p);
  }
    where
      after :
          (r : RlabResult A) (w : World RunFiles)
          → Post Q E r w.files
          → Post Q E r (attempt env (λ f. record f { locked = false }) w).files
      after (ok a) w p = attempt-keeps env _ (Q a) w (hq a) p
      after (err e) w p = attempt-keeps env _ E w he p

module _ {P E : RunFiles → Type 0} where
  pub Triple-now_utc :
      (env : Environment) {Q : ℕ → RunFiles → Type 0}
      → ((now : ℕ) (f : RunFiles) → P f → Q now f)
      → Triple P (now_utc env) Q E
  unfolding now_utc
  Triple-now_utc env h = record { at = λ w p. h _ w.files p }

  pub Triple-effect :
      (env : Environment) (change : RunFiles → RunFiles) {Q : Unit {0} → RunFiles → Type 0}
      → ((f : RunFiles) → P f → Q tt (change f))
      → ((f : RunFiles) → P f → E f)
      → Triple P (effect env change) Q E
  unfolding effect
  Triple-effect env change h k = Triple-perform env.failure change h k
