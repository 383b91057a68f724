-- ===== src/Base/Errors.antt =====
-- Python exceptions as values.
use Prim.Native.String.{String}
use mathlib.Core.Path.{◌≡◌, refl}
use mathlib.Core.Logic.{◌⊎◌, inl, inr}

-- The exception classes that the code raises, catches or lets through.
pub data ExnKind : Type 0 where
  value_error type_error key_error runtime_error buffer_error : ExnKind
  row_error database_error http_exception permanent_rejection transient_error : ExnKind
  kafka_exception psycopg_error other_error : ExnKind

pub record Exn : Type 0 where
  pub kind : ExnKind
  pub message : String

abbrev pub exn : ExnKind → String → Exn
exn k m = record { kind = k; message = m }

pub data Result {ℓ} (A : Type ℓ) : Type ℓ where
  ok : A → Result A
  raised : Exn → Result A

infixl 5 ◌>>=◌
abbrev pub ◌>>=◌ {ℓ κ} : {A : Type ℓ} {B : Type κ} → Result A → (A → Result B) → Result B
ok a >>= f = f a
raised e >>= f = raised e

-- To split on the result of a call and keep the equation.
pub Result-cases {ℓ} :
    {A : Type ℓ} (r : Result A) → ((a : A) × (r ≡ ok a)) ⊎ ((e : Exn) × (r ≡ raised e))
Result-cases (ok a) = inl (a, refl)
Result-cases (raised e) = inr (e, refl)
