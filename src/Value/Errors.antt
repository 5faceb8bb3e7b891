-- ===== src/Value/Errors.antt =====
-- Python exceptions: a computation that may raise returns a `Result`.
use harness_runtime.Base.{String, Bool, true, false}

pub data Error : Type 0 where
  attribute_error type_error key_error value_error index_error : Error
  -- An exception of code outside the repository, with its text.
  raised : String → Error

pub data Result {ℓ} (A : Type ℓ) : Type ℓ where
  ok : A → Result A
  err : Error → Result A

infixl 5 ◌>>=◌
abbrev pub ◌>>=◌ {ℓ κ} : {A : Type ℓ} {B : Type κ} → Result A → (A → Result B) → Result B
ok a >>= f = f a
err e >>= f = err e

abbrev pub is_ok {ℓ} : {A : Type ℓ} → Result A → Bool
is_ok (ok a) = true
is_ok (err e) = false
