-- ===== src/Prelude/Outcome.antt =====
-- What a fallible Rust call does: it returns `Ok`, returns an `anyhow` error, or panics. An error
-- is the kind of the message; its text, and what only goes to the log, is left out.
use mathlib.Core.Path.{◌≡◌, refl}
use mathlib.Core.Logic.{◌⊎◌, inl, inr}
use mathlib.Core.Bool.{Bool, true, false}

pub data Error : Type 0 where
  full : Error
  page_not_found : Error
  backend_not_found : Error
  size_mismatch : Error
  bad_data : Error
  not_connected : Error
  circuit_open : Error
  io_failed : Error
  refused : Error
  no_evictable : Error
  full_after_eviction : Error
  no_candidate : Error
  invalid_config : Error
  bad_address : Error
  not_root : Error
  no_device : Error
  no_module_file : Error

pub data Outcome {ℓ} (A : Type ℓ) : Type ℓ where
  ok : A → Outcome A
  err : Error → Outcome A
  panic : Outcome A

infixl 5 ◌>>=◌ ◌>>◌
abbrev pub ◌>>=◌ {ℓ κ} : {A : Type ℓ} {B : Type κ} → Outcome A → (A → Outcome B) → Outcome B
ok a >>= f = f a
err e >>= f = err e
panic >>= f = panic

abbrev pub ◌>>◌ {ℓ κ} : {A : Type ℓ} {B : Type κ} → Outcome A → Outcome B → Outcome B
m >> k = m >>= λ _. k

abbrev pub is_ok {ℓ} : {A : Type ℓ} → Outcome A → Bool
is_ok (ok a) = true
is_ok (err e) = false
is_ok panic = false

-- How a value or an error came about.
pub Outcome-cases {ℓ} :
    {A : Type ℓ} (r : Outcome A)
    → ((a : A) × (r ≡ ok a)) ⊎ ((x : Error) × (r ≡ err x)) ⊎ (r ≡ panic)
Outcome-cases (ok a) = inl (a, refl)
Outcome-cases (err x) = inr (inl (x, refl))
Outcome-cases panic = inr (inr refl)
