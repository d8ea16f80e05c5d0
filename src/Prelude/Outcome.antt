-- ===== src/Prelude/Outcome.antt =====
-- crates/rlab-core/src/error/kind.rs: the errors, and `RlabResult` with the `?` operator.
use Prim.Native.String.{String}
use mathlib.Core.Path.{◌≡◌, refl}
use mathlib.Core.Bool.{Bool, true, false, ◌&&◌}
use mathlib.Core.Logic.{◌⊎◌, inl, inr}
use mathlib.Core.Option.{Option, none, some}
use mathlib.Core.List.{List, [], ◌∷◌, ◌++◌}
use research_lab.Prelude.Text.{Text, txt}
use research_lab.Prelude.Lists.{All}
use research_lab.Prelude.Tests.{◌==◌}

-- A message as its format string and the arguments that fill the places.
pub data Message : Type 0 where
  format : String → List Text → Message

pub data RlabError : Type 0 where
  config registry reference run artifact host validation not_found unsupported : Message → RlabError
  io : Text → Message → RlabError
  serialization : Message → RlabError
  -- A panic, which the source's enum does not have: it ends every caller, as an error under `?` does.
  panic : Message → RlabError

pub data RlabResult {ℓ} (A : Type ℓ) : Type ℓ where
  ok : A → RlabResult A
  err : RlabError → RlabResult A

-- The text of a message: each `{}` is the next argument.
unfoldable pub fill : Text → List Text → Text
fill [] args = []
fill (c ∷ []) args = c ∷ []
fill (c ∷ d ∷ rest) [] = c ∷ d ∷ rest
fill (c ∷ d ∷ rest) (arg ∷ args) = elim (c == b'{' && d == b'}') [
  | true ↦ arg ++ fill rest args
  | false ↦ c ∷ fill (d ∷ rest) (arg ∷ args)
]

unfoldable pub message_text : Message → Text
unfolding fill
message_text (format template args) = fill (txt template) args

-- The errors as they are printed.
unfoldable pub display : RlabError → Text
unfolding message_text
display (config m) = txt "configuration error: " ++ message_text m
display (registry m) = txt "registry error: " ++ message_text m
display (reference m) = txt "invalid reference: " ++ message_text m
display (run m) = txt "run error: " ++ message_text m
display (artifact m) = txt "artifact error: " ++ message_text m
display (host m) = txt "host protocol error: " ++ message_text m
display (validation m) = txt "validation error: " ++ message_text m
display (not_found m) = txt "not found: " ++ message_text m
display (unsupported m) = txt "unsupported feature: " ++ message_text m
display (io path m) = txt "io error at " ++ path ++ txt ": " ++ message_text m
display (serialization m) = txt "serialization error: " ++ message_text m
display (panic m) = message_text m

-- `e?` and what follows it.
infixl 5 ◌>>=◌ ◌>>◌
abbrev pub ◌>>=◌ {ℓ κ} :
    {A : Type ℓ} {B : Type κ} → RlabResult A → (A → RlabResult B) → RlabResult B
ok a >>= f = f a
err e >>= f = err e

abbrev pub ◌>>◌ {ℓ} : {B : Type ℓ} → RlabResult (Unit {0}) → RlabResult B → RlabResult B
m >> k = m >>= λ _. k

-- `if !test { return Err(e) }`
abbrev pub ensure : Bool → RlabError → RlabResult (Unit {0})
ensure true e = ok tt
ensure false e = err e

-- `option.ok_or_else(|| e)`
abbrev pub ok_or {ℓ} : {A : Type ℓ} → Option A → RlabError → RlabResult A
ok_or none e = err e
ok_or (some a) e = ok a

abbrev pub is_ok {ℓ} : {A : Type ℓ} → RlabResult A → Bool
is_ok (ok a) = true
is_ok (err e) = false

-- Inversion of a successful bind.
pub bind-eq-ok {ℓ κ} :
    {A : Type ℓ} {B : Type κ} (m : RlabResult A) (f : A → RlabResult B) {b : B}
    → (m >>= f) ≡ ok b
    → (a : A) × (m ≡ ok a) × (f a ≡ ok b)
bind-eq-ok (ok a) f h = (a, refl, h)
bind-eq-ok (err e) f h = cc

-- `for x in xs { check(x)?; }`
abbrev pub check_all {ℓ} :
    {A : Type ℓ} → (A → RlabResult (Unit {0})) → List A → RlabResult (Unit {0})
check_all check [] = ok tt
check_all check (x ∷ xs) = check x >> check_all check xs

pub check_all-All {ℓ} :
    {A : Type ℓ} (P : A → Type 0) (check : A → RlabResult (Unit {0})) (xs : List A)
    → ((x : A) → check x ≡ ok tt → P x)
    → check_all check xs ≡ ok tt
    → All P xs
check_all-All P check [] h e = tt
check_all-All P check (x ∷ xs) h e =
    let (u, here, later) = bind-eq-ok (check x) (λ _. check_all check xs) e in
    (h x here, check_all-All P check xs h later)

pub RlabResult-cases {ℓ} :
    {A : Type ℓ} (m : RlabResult A) → ((a : A) × (m ≡ ok a)) ⊎ ((e : RlabError) × (m ≡ err e))
RlabResult-cases (ok a) = inl (a, refl)
RlabResult-cases (err e) = inr (e, refl)
