-- ===== src/Prelude/Bits/Flags.antt =====
-- Sets of flags as bits: what or-ing a flag in, and masking it out, do to a later test.
use Prim.Native.Nat.{ℕ, zero, suc, ◌+◌, ◌-◌, ◌/◌, ◌^◌, ◌≤◌, ◌<◌, bit_and, bit_or}
use mathlib.Core.Path.{◌≡◌, ap}
use native.Mathlib.Nat.{pow-suc}
use native.Mathlib.Omega.{arith}
use distributed_uvm.Prelude.Bits.{bit_and_step, bit_or_step, bit_and-zero, pow_pos}

-- The halves of an or, under an and.
or_half : (a b : ℕ) → bit_or a b / 2 ≡ bit_or (a / 2) (b / 2)
or_half a b = omega (arith, bit_or_step a b)

and_half : (a b : ℕ) → bit_and a b / 2 ≡ bit_and (a / 2) (b / 2)
and_half a b = omega (arith, bit_and_step a b)

-- A flag that was or-ed in is there.
and_or_absorb_fuel : (n a b : ℕ) → a ≤ n → b ≤ n → bit_and (bit_or a b) b ≡ b
and_or_absorb_fuel zero a b p q = let e : b ≡ 0 = omega arith in rw e (bit_and-zero (bit_or a 0))
and_or_absorb_fuel (suc n) a b p q = omega (
  arith,
  bit_and_step (bit_or a b) b,
  bit_or_step a b,
  ap (λ x. bit_and x (b / 2)) (or_half a b),
  and_or_absorb_fuel n (a / 2) (b / 2) (omega arith) (omega arith),
)

pub bit_and-bit_or_self : (a b : ℕ) → bit_and (bit_or a b) b ≡ b
bit_and-bit_or_self a b = and_or_absorb_fuel (a + b) a b (omega arith) (omega arith)

-- A test of other bits does not see the flag that was or-ed in.
and_or_other_fuel : (n a f g : ℕ) → g ≤ n → bit_and f g ≡ 0 → bit_and (bit_or a f) g ≡ bit_and a g
and_or_other_fuel zero a f g p h =
    let e : g ≡ 0 = omega arith in rw e (omega (arith, bit_and-zero (bit_or a f), bit_and-zero a))
and_or_other_fuel (suc n) a f g p h = omega (
  arith,
  bit_and_step (bit_or a f) g,
  bit_and_step a g,
  bit_or_step a f,
  bit_and_step f g,
  ap (λ x. bit_and x (g / 2)) (or_half a f),
  and_or_other_fuel n (a / 2) (f / 2) (g / 2) (omega arith) (omega (arith, bit_and_step f g)),
)

pub bit_and-bit_or_other : (a f g : ℕ) → bit_and f g ≡ 0 → bit_and (bit_or a f) g ≡ bit_and a g
bit_and-bit_or_other a f g h = and_or_other_fuel g a f g (omega arith) h

-- `!f` on `k` bits is `2 ^ k - 1 - f`: masking by it clears `f`.
pub bit_and_clear : (k a f : ℕ) → f < 2 ^ k → bit_and (bit_and a (2 ^ k - 1 - f)) f ≡ 0
bit_and_clear zero a f h =
    let e : f ≡ 0 = omega arith in rw e (bit_and-zero (bit_and a (1 - 1 - 0)))
bit_and_clear (suc k) a f h = omega (
  arith,
  pow_pos k,
  pow-suc 2 k,
  bit_and_step (bit_and a (2 ^ suc k - 1 - f)) f,
  bit_and_step a (2 ^ suc k - 1 - f),
  ap (λ x. bit_and x (f / 2)) (and_half a (2 ^ suc k - 1 - f)),
  ap (λ x. bit_and (bit_and (a / 2) x) (f / 2)) half,
  bit_and_clear k (a / 2) (f / 2) (omega (arith, pow-suc 2 k)),
)
  where
    half : (2 ^ suc k - 1 - f) / 2 ≡ 2 ^ k - 1 - f / 2
    half = omega (arith, pow-suc 2 k, pow_pos k)

-- And it leaves a test of disjoint bits alone.
pub bit_and_clear_other :
    (k a f g : ℕ)
    → f < 2 ^ k
    → g < 2 ^ k
    → bit_and f g ≡ 0
    → bit_and (bit_and a (2 ^ k - 1 - f)) g ≡ bit_and a g
bit_and_clear_other zero a f g hf hg h =
    let e : g ≡ 0 = omega arith in
    rw e (omega (arith, bit_and-zero (bit_and a (1 - 1 - f)), bit_and-zero a))
bit_and_clear_other (suc k) a f g hf hg h = omega (
  arith,
  pow_pos k,
  pow-suc 2 k,
  bit_and_step f g,
  bit_and_step a g,
  bit_and_step (bit_and a (2 ^ suc k - 1 - f)) g,
  bit_and_step a (2 ^ suc k - 1 - f),
  ap (λ x. bit_and x (g / 2)) (and_half a (2 ^ suc k - 1 - f)),
  ap (λ x. bit_and (bit_and (a / 2) x) (g / 2)) half,
  bit_and_clear_other k (a / 2) (f / 2) (g / 2) (omega (arith, pow-suc 2 k))
      (omega (arith, pow-suc 2 k)) (omega (arith, bit_and_step f g)),
)
  where
    half : (2 ^ suc k - 1 - f) / 2 ≡ 2 ^ k - 1 - f / 2
    half = omega (arith, pow-suc 2 k, pow_pos k)
