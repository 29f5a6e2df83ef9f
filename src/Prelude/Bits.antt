-- ===== src/Prelude/Bits.antt =====
-- Bit operations at variables, from the digit recursion that the native operations stand for.
pub mod Flags
use Prim.Native.Nat.{
  ℕ, zero, suc, ◌+◌, ◌-◌, ◌*◌, ◌/◌, ◌%◌, ◌^◌, ◌≤◌, ◌<◌, min, max, bit_and, bit_or, digits,
  bit_and-bitwise, bit_or-bitwise,
}
use mathlib.Core.Path.{◌≡◌, refl, sym, ap, ◌∙◌}
use native.Mathlib.Nat.{pow-suc}
use native.Mathlib.Omega.{arith}

-- The recursion on the digits of two numbers, for a digit operation and what is left at 0.
module _ (left : ℕ → ℕ) (op : ℕ → ℕ → ℕ) where
  digits_at_zero : (count b : ℕ) → digits left op count 0 b ≡ left b
  digits_at_zero zero b = refl
  digits_at_zero (suc count) b = refl

  -- The number of digits does not matter where it covers the first number.
  digits_enough :
      (count count' a b : ℕ)
      → a ≤ count
      → a ≤ count'
      → digits left op count a b ≡ digits left op count' a b
  digits_enough count count' zero b h h' = digits_at_zero count b ∙ sym (digits_at_zero count' b)
  digits_enough zero count' (suc a) b h h' = absurd (ground (arith, h))
  digits_enough (suc count) zero (suc a) b h h' = absurd (ground (arith, h'))
  digits_enough (suc count) (suc count') (suc a) b h h' =
      ap (λ high. high * 2 + op (suc a % 2) (b % 2))
        (digits_enough count count' (suc a / 2) (b / 2) (omega (arith, h)) (omega (arith, h')))

  digits_halve :
      (a b : ℕ)
      → digits left op (suc a) (suc a) b
        ≡ digits left op (suc a / 2) (suc a / 2) (b / 2) * 2 + op (suc a % 2) (b % 2)
  digits_halve a b =
      ap (λ high. high * 2 + op (suc a % 2) (b % 2))
        (digits_enough a (suc a / 2) (suc a / 2) (b / 2) (omega arith) (omega arith))

-- The lowest digit by itself.
pub bit_and_step : (a b : ℕ) → bit_and a b ≡ bit_and (a / 2) (b / 2) * 2 + min (a % 2) (b % 2)
bit_and_step zero b = omega (arith, bit_and-bitwise 0 b, bit_and-bitwise 0 (b / 2))
bit_and_step (suc a) b =
    bit_and-bitwise (suc a) b
    ∙ digits_halve (λ x. 0) min a b
    ∙ ap (λ high. high * 2 + min (suc a % 2) (b % 2)) (sym (bit_and-bitwise (suc a / 2) (b / 2)))

pub bit_or_step : (a b : ℕ) → bit_or a b ≡ bit_or (a / 2) (b / 2) * 2 + max (a % 2) (b % 2)
bit_or_step zero b = omega (arith, bit_or-bitwise 0 b, bit_or-bitwise 0 (b / 2))
bit_or_step (suc a) b =
    bit_or-bitwise (suc a) b
    ∙ digits_halve (λ x. x) max a b
    ∙ ap (λ high. high * 2 + max (suc a % 2) (b % 2)) (sym (bit_or-bitwise (suc a / 2) (b / 2)))

and_digits-zero : (count a : ℕ) → digits (λ x. 0) min count a 0 ≡ 0
and_digits-zero zero a = refl
and_digits-zero (suc count) zero = refl
and_digits-zero (suc count) (suc a) = omega (arith, and_digits-zero count (suc a / 2))

pub bit_and-zero : (a : ℕ) → bit_and a 0 ≡ 0
bit_and-zero a = bit_and-bitwise a 0 ∙ and_digits-zero a a

pub pow_pos : (k : ℕ) → 0 < 2 ^ k
pow_pos zero = omega arith
pow_pos (suc k) = omega (arith, pow_pos k, pow-suc 2 k)

-- Reducing by twice `n` reduces the half by `n` and keeps the lowest digit.
mod_double : (a n : ℕ) → 0 < n → a % (n * 2) ≡ a / 2 % n * 2 + a % 2
mod_double a n h = grind arith

bit_and_odd : (a m b : ℕ) → b ≡ m * 2 + 1 → bit_and a b ≡ bit_and (a / 2) m * 2 + a % 2
bit_and_odd a m b e = rw e (omega (arith, bit_and_step a (m * 2 + 1), half))
  where
    half : bit_and (a / 2) ((m * 2 + 1) / 2) ≡ bit_and (a / 2) m
    half = ap (bit_and (a / 2)) (omega arith)

-- Masking with `k` ones is the remainder modulo `2 ^ k`.
pub bit_and_mask : (k a : ℕ) → bit_and a (2 ^ k - 1) ≡ a % 2 ^ k
bit_and_mask zero a = omega (arith, bit_and-zero a)
bit_and_mask (suc k) a = omega (
  arith,
  pow_pos k,
  bit_and_odd a (2 ^ k - 1) (2 ^ suc k - 1) (omega (arith, pow_pos k, pow-suc 2 k)),
  bit_and_mask k (a / 2),
  mod_double a (2 ^ k) (pow_pos k),
  ap (λ m. a % m) (pow-suc 2 k),
)

bit_or_even : (a b c : ℕ) → c ≡ a * 2 → bit_or c b ≡ bit_or a (b / 2) * 2 + b % 2
bit_or_even a b c e = rw e (omega (arith, bit_or_step (a * 2) b, half))
  where
    half : bit_or (a * 2 / 2) (b / 2) ≡ bit_or a (b / 2)
    half = ap (λ x. bit_or x (b / 2)) (omega arith)

or_digits-zero : (count a : ℕ) → a ≤ count → digits (λ x. x) max count a 0 ≡ a
or_digits-zero count zero h = digits_at_zero (λ x. x) max count 0
or_digits-zero zero (suc a) h = absurd (ground (arith, h))
or_digits-zero (suc count) (suc a) h =
    omega (arith, or_digits-zero count (suc a / 2) (omega (arith, h)))

pub bit_or-zero : (a : ℕ) → bit_or a 0 ≡ a
bit_or-zero a = bit_or-bitwise a 0 ∙ or_digits-zero a a (omega arith)

-- Or-ing a shifted number with one below the shift adds them.
pub bit_or_shift : (k a b : ℕ) → b < 2 ^ k → bit_or (a * 2 ^ k) b ≡ a * 2 ^ k + b
bit_or_shift zero a b h = let e : b ≡ 0 = omega arith in rw e (omega (arith, bit_or-zero (a * 1)))
bit_or_shift (suc k) a b h = omega (
  arith,
  pow-suc 2 k,
  bit_or_even (a * 2 ^ k) b (a * 2 ^ suc k) (omega (arith, ap (λ (m : ℕ). a * m) (pow-suc 2 k))),
  ap (λ (m : ℕ). a * m) (pow-suc 2 k),
  bit_or_shift k a (b / 2) (omega (arith, pow-suc 2 k)),
)
