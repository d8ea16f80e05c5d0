-- ===== src/Run/Order.antt =====
-- Histories of statuses: how long they get, and where they end.
use research_lab.Prelude.{
  ap, ◌∙◌, ◌⊎◌, ◌≢◌, if◌then◌else◌, ℕ, zero, suc, ◌+◌, ◌≤◌, ◌<◌, ◌≡◌, ◌↔◌, inl, inr, refl, true,
  arith, Bool-cases,
}
use research_lab.Prelude.Text.{Text, text_eq, text_eq_iff}
use research_lab.Prelude.Outcome.{RlabResult, ok}
use research_lab.Run.State.{
  RunStatus, created, planned, running, completed, failed, cancelled, stale, reproduced, as_str,
  parse, can_transition_to,
}

-- The statuses that a run passes through from one to another, the first left out.
pub data History : RunStatus → RunStatus → ℕ → Type 0 where
  start : {s : RunStatus} → History s s zero
  step :
      {s t u : RunStatus} {n : ℕ}
      → History s t n
      → can_transition_to t u ≡ true
      → History s u (suc n)

rank : RunStatus → ℕ
rank created = 0
rank planned = 1
rank running = 2
rank completed = 3
rank failed = 3
rank cancelled = 4
rank stale = 4
rank reproduced = 4

rank-lt : (s t : RunStatus) → can_transition_to s t ≡ true → rank s < rank t
unfolding rank can_transition_to
rank-lt created t e = ground arith
rank-lt planned t e = ground arith
rank-lt running t e = ground arith
rank-lt completed t e = ground arith
rank-lt failed t e = ground arith
rank-lt cancelled t e = ground arith
rank-lt stale t e = ground arith
rank-lt reproduced t e = ground arith

rank-le : (s : RunStatus) → rank s ≤ 4
unfolding rank
rank-le created = omega arith
rank-le planned = omega arith
rank-le running = omega arith
rank-le s = omega arith

History-rank : {s t : RunStatus} {n : ℕ} → History s t n → rank s + n ≤ rank t
History-rank start = omega arith
History-rank (step {t = t} {u = u} h e) = omega (arith, History-rank h, rank-lt t u e)

-- No history has more than four transitions, and none comes back to a status that it has left.
pub History-short : (s t : RunStatus) (n : ℕ) → History s t n → (n ≤ 4) × ((n ≡ 0) ⊎ (s ≢ t))
History-short s t zero h = (omega arith, inl refl)
History-short s t (suc n) h = (
  omega (arith, History-rank h, rank-le t),
  inr λ e. absurd (omega (arith, History-rank h, ap rank e)),
)

parse-as_str : (s : RunStatus) → parse (as_str s) ≡ ok s
unfolding parse as_str text_eq
parse-as_str created = refl
parse-as_str planned = refl
parse-as_str running = refl
parse-as_str completed = refl
parse-as_str failed = refl
parse-as_str cancelled = refl
parse-as_str stale = refl
parse-as_str reproduced = refl

-- A test for one text in a chain of such tests.
text_case :
    (value word : Text) (s : RunStatus) (rest : RlabResult RunStatus) {r : RunStatus}
    → word ≡ as_str s
    → (if text_eq value word then ok s else rest) ≡ ok r
    → (rest ≡ ok r → value ≡ as_str r)
    → value ≡ as_str r
text_case value word s rest is_word e later = elim (Bool-cases (text_eq value word)) [
  | inl t ↦ (text_eq_iff value word).0 t ∙ is_word ∙ ap as_str (cc (rw t at e))
  | inr f ↦ later (rw f at e)
]

as_str-parse : (value : Text) (s : RunStatus) → parse value ≡ ok s → value ≡ as_str s
unfolding parse as_str
as_str-parse value s e = text_case value _ created _ refl e λ e.
    text_case value _ planned _ refl e λ e. text_case value _ running _ refl e λ e.
      text_case value _ completed _ refl e λ e. text_case value _ failed _ refl e λ e.
        text_case value _ cancelled _ refl e
          λ e. text_case value _ stale _ refl e λ e. text_case value _ reproduced _ refl e λ e. cc

-- The text of a status reads back as the status, and no other text reads as it.
pub parse-eq-ok_iff : (value : Text) (s : RunStatus) → (parse value ≡ ok s) ↔ (value ≡ as_str s)
parse-eq-ok_iff value s = (as_str-parse value s, λ e. ap parse e ∙ parse-as_str s)
