-- ===== src/Prelude/Effect/Triple.antt =====
-- Assertions about the files before an action, after it has returned, and after it has failed.
use Prim.Native.Nat.{ℕ}
use mathlib.Core.Path.{◌≡◌, refl}
use mathlib.Core.Logic.{inl, inr}
use mathlib.Core.Bool.{Bool, true, false}
use research_lab.Prelude.Tests.{if◌then◌else◌, Option-cases}
use research_lab.Prelude.Outcome.{RlabError, RlabResult, ok, err}
use research_lab.Prelude.Effect.{
  World, Exec, Failures, pure, raise, lift, reads, next, ◌>>=◌, perform, ask,
}

abbrev pub Post : {S A : Type 0} → (A → S → Type 0) → (S → Type 0) → RlabResult A → S → Type 0
Post Q E (ok a) f = Q a f
Post Q E (err e) f = E f

pub record Triple {S A : Type 0} (P : S → Type 0) (m : Exec S A) (Q : A → S → Type 0)
    (E : S → Type 0) : Type 0 where
  pub at : (w : World S) → P w.files → Post Q E (m w).0 (m w).1.files

module _ {S A : Type 0} {P : S → Type 0} {Q : A → S → Type 0} {E : S → Type 0} where
  pub Triple-pure : (a : A) → ((f : S) → P f → Q a f) → Triple P (pure a) Q E
  Triple-pure a h = record { at = λ w p. h w.files p }

  pub Triple-raise : (e : RlabError) → ((f : S) → P f → E f) → Triple P (raise e) Q E
  Triple-raise e h = record { at = λ w p. h w.files p }

  pub Triple-lift :
      (r : RlabResult A)
      → ((a : A) (f : S) → r ≡ ok a → P f → Q a f)
      → ((f : S) → P f → E f)
      → Triple P (lift r) Q E
  Triple-lift (ok a) h k = record { at = λ w p. h a w.files refl p }
  Triple-lift (err e) h k = record { at = λ w p. k w.files p }

  pub Triple-reads :
      (g : S → RlabResult A)
      → ((a : A) (f : S) → g f ≡ ok a → P f → Q a f)
      → ((f : S) → P f → E f)
      → Triple P (reads g) Q E
  Triple-reads g h k = record { at = λ w p. after w (g w.files) refl p }
    where
      after : (w : World S) (r : RlabResult A) → g w.files ≡ r → P w.files → Post Q E r w.files
      after w (ok a) e p = h a w.files e p
      after w (err x) e p = k w.files p

  pub Triple-if :
      (b : Bool) (m n : Exec S A)
      → (b ≡ true → Triple P m Q E)
      → (b ≡ false → Triple P n Q E)
      → Triple P (if b then m else n) Q E
  Triple-if true m n h k = h refl
  Triple-if false m n h k = k refl

  -- A fact that does not speak of the files is a hypothesis of the rule.
  pub Triple-given :
      {F : Type 0} (m : Exec S A) → (F → Triple P m Q E) → Triple (λ f. P f × F) m Q E
  Triple-given m t = record { at = λ w (p, fact). (t fact).at w p }

  -- The rule of consequence.
  pub Triple-weaken :
      {P' : S → Type 0} {Q' : A → S → Type 0} {E' : S → Type 0} (m : Exec S A)
      → ((f : S) → P f → P' f)
      → ((a : A) (f : S) → Q' a f → Q a f)
      → ((f : S) → E' f → E f)
      → Triple P' m Q' E'
      → Triple P m Q E
  Triple-weaken {P'} {Q'} {E'} m hp hq he t = record {
    at = λ w p. let (r, w') = m w in after r w'.files (t.at w (hp w.files p));
  }
    where
      after : (r : RlabResult A) (f : S) → Post Q' E' r f → Post Q E r f
      after (ok a) f p = hq a f p
      after (err e) f p = he f p

module _ {S : Type 0} {P E : S → Type 0} where
  pub Triple-perform :
      (failure : Failures) (change : S → S) {Q : Unit {0} → S → Type 0}
      → ((f : S) → P f → Q tt (change f))
      → ((f : S) → P f → E f)
      → Triple P (perform failure change) Q E
  unfolding perform
  Triple-perform failure change {Q} h k = record {
    at = λ w p. elim (Option-cases (failure w.steps)) [
      | inl e ↦ rw (e, perform) (h w.files p)
      | inr (x, e) ↦ rw (e, perform) (k w.files p)
    ];
  }

  pub Triple-ask :
      {A : Type 0} (answer : ℕ → A) {Q : A → S → Type 0}
      → ((a : A) (f : S) → P f → Q a f)
      → Triple P (ask answer) Q E
  unfolding ask
  Triple-ask answer h = record { at = λ w p. h _ w.files p }

module _ {S A B : Type 0} {P : S → Type 0} {E : S → Type 0} {R : A → S → Type 0}
    {Q : B → S → Type 0} where
  pub Triple-bind :
      (m : Exec S A) (k : A → Exec S B)
      → Triple P m R E
      → ((a : A) → Triple (R a) (k a) Q E)
      → Triple P (m >>= k) Q E
  Triple-bind m k t h = record { at = λ w p. let (r, w') = m w in after r w' (t.at w p) }
    where
      after :
          (r : RlabResult A) (w : World S)
          → Post R E r w.files
          → Post Q E (next (r, w) k).0 (next (r, w) k).1.files
      after (ok a) w p = (h a).at w p
      after (err e) w p = p

-- An invariant holds whatever the outcome.
pub Triple-always :
    {S A : Type 0} {I : S → Type 0} {m : Exec S A}
    → Triple I m (λ _ f. I f) I
    → (w : World S) → I w.files
    → I (m w).1.files
Triple-always {S} {A} {I} {m} t w i = let (r, w') = m w in same r (t.at w i)
  where
    same : (r : RlabResult A) {f : S} → Post (λ _ g. I g) I r f → I f
    same (ok a) h = h
    same (err e) h = h
