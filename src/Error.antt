-- ===== src/Error.antt =====
-- crates/cbna-core/src/error.rs: what a decoder reports, and how a call can end.
use custom_built_network_ana.Base.{ℕ, String}

-- `DecodeError`
pub data DecodeError : Type 0 where
  truncated : String → ℕ → ℕ → DecodeError
  unsupported : String → ℕ → DecodeError
  malformed : String → String → DecodeError

-- `DecodeError::layer`
pub layer : DecodeError → String
layer (truncated l need have) = l
layer (unsupported l value) = l
layer (malformed l reason) = l

-- `Result<T>`, and the panic of an index or a slice out of range.
pub data Outcome {ℓ} (A : Type ℓ) : Type ℓ where
  ok : A → Outcome A
  err : DecodeError → Outcome A
  panic : Outcome A

-- `?` on a result.
infixl 5 ◌>>=◌
unfoldable pub ◌>>=◌ {ℓ κ} : {A : Type ℓ} {B : Type κ} → Outcome A → (A → Outcome B) → Outcome B
ok a >>= f = f a
err e >>= f = err e
panic >>= f = panic
