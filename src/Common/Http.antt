-- ===== src/Common/Http.antt =====
-- The outcome of a request handler: a value, or the HTTPException that it raises.
use Prim.Native.Nat.{ℕ}
use Prim.Native.String.{String}
use mathlib.Core.Path.{◌≡◌, refl}
use mathlib.Core.Logic.{◌⊎◌, inl, inr}
use mathlib.Core.Bool.{Bool, true, false}
use rag_foundation.Common.Tests.{if◌then◌else◌}

-- fastapi's HTTPException, by its status code and detail.
pub record HttpError : Type 0 where
  pub status : ℕ
  pub detail : String

pub data Outcome {ℓ} (A : Type ℓ) : Type ℓ where
  raised : HttpError → Outcome A
  answered : A → Outcome A

abbrev pub http : ℕ → String → HttpError
http s d = record { status = s; detail = d }

abbrev pub answer_of {ℓ} : {A : Type ℓ} → A → Outcome A → A
answer_of default (raised e) = default
answer_of default (answered a) = a

pub Outcome-cases {ℓ} :
    {A : Type ℓ} (o : Outcome A) → ((e : HttpError) × (o ≡ raised e)) ⊎ ((a : A) × (o ≡ answered a))
Outcome-cases (raised e) = inl (e, refl)
Outcome-cases (answered a) = inr (a, refl)

-- A test that guards an answer has passed where it is given.
pub if-answered {ℓ} :
    {A : Type ℓ} (b : Bool) (a c : A) (e : HttpError)
    → (if b then answered a else raised e) ≡ answered c
    → (a ≡ c) × (b ≡ true)
if-answered true a c e h = (cc, refl)
if-answered false a c e h = absurd cc
