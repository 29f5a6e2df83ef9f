-- ===== src/Prelude/Modular.antt =====
-- Indices that wrap at the end of a ring.
use Prim.Native.Nat.{ℕ, suc, ◌+◌, ◌-◌, ◌%◌, ◌<◌, ◌≤◌}
use mathlib.Core.Path.{◌≡◌, ap}
use mathlib.Core.Logic.{◌≢◌, ◌⊎◌, inl, inr}
use native.Mathlib.Omega.{arith}
use native.Mathlib.Decide.{dec_lt}
use native.Mathlib.Nat.{mod-add-mod, mod-eq_of_lt, mod-eq-sub-mod}

pub mod_cases : (a c : ℕ) → a < c + c → ((a < c) × (a % c ≡ a)) ⊎ ((c ≤ a) × (a % c + c ≡ a))
mod_cases a c h = elim (dec_lt a c) [
  | yes p ↦ inl (p, mod-eq_of_lt p)
  | no p ↦ inr (
    omega arith,
    omega (
      arith,
      mod-eq-sub-mod {n = a} {m = c} (omega arith),
      mod-eq_of_lt {n = a - c} {m = c} (omega arith),
    ),
  )
]

-- Fewer than `c` steps round the ring do not meet.
pub mod_apart : (h m n c : ℕ) → h < c → m < n → n < c → (h + m) % c ≢ (h + n) % c
mod_apart h m n c hh hm hn e =
    omega (arith, mod_cases (h + m) c (omega arith), mod_cases (h + n) c (omega arith))

pub mod_shift : (h n c : ℕ) → ((h + 1) % c + n) % c ≡ (h + suc n) % c
mod_shift h n c = rw mod-add-mod (ap (λ (k : ℕ). k % c) (omega arith))
