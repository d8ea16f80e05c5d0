-- ===== src/Prelude/Effect.antt =====
-- Actions on files that may fail at every step: the files `S` of some part of the program, the count
-- of the file operations done, and an outcome. Which operations fail is a function of the count,
-- so that a theorem for all such functions is one for every place of a failure. An operation that
-- fails leaves the files as they were.
pub mod Triple
use Prim.Native.Nat.{ℕ, suc}
use mathlib.Core.Option.{Option, none, some}
use research_lab.Prelude.Outcome.{RlabError, RlabResult, ok, err}

pub record World (S : Type 0) : Type 0 where
  pub files : S
  pub steps : ℕ

abbrev pub Exec : Type 0 → Type 0 → Type 0
Exec S A = World S → RlabResult A × World S

-- How the n-th file operation fails, if it does.
abbrev pub Failures : Type 0
Failures = ℕ → Option RlabError

module _ {S : Type 0} where
  abbrev pub pure : {A : Type 0} → A → Exec S A
  pure a w = (ok a, w)

  abbrev pub raise : {A : Type 0} → RlabError → Exec S A
  raise e w = (err e, w)

  abbrev pub lift : {A : Type 0} → RlabResult A → Exec S A
  lift r w = (r, w)

  -- What is computed from the contents of the files.
  abbrev pub reads : {A : Type 0} → (S → RlabResult A) → Exec S A
  reads g w = (g w.files, w)

  abbrev pub next :
      {A B : Type 0} → RlabResult A × World S → (A → Exec S B) → RlabResult B × World S
  next (ok a, w) f = f a w
  next (err e, w) f = (err e, w)

  infixl 5 ◌>>=◌ ◌>>◌
  abbrev pub ◌>>=◌ : {A B : Type 0} → Exec S A → (A → Exec S B) → Exec S B
  ◌>>=◌ m f w = next (m w) f

  abbrev pub ◌>>◌ : {B : Type 0} → Exec S (Unit {0}) → Exec S B → Exec S B
  m >> k = m >>= λ _. k

  -- One file operation.
  unfoldable pub perform : Failures → (S → S) → Exec S (Unit {0})
  perform failure change w = elim (failure w.steps) [
    | none ↦ (ok tt, record { files = change w.files; steps = suc w.steps })
    | some e ↦ (err e, record { files = w.files; steps = suc w.steps })
  ]

  -- What the environment answers at this step.
  unfoldable pub ask : {A : Type 0} → (ℕ → A) → Exec S A
  ask answer w = (ok (answer w.steps), record { files = w.files; steps = suc w.steps })
