-- ===== src/Prelude/Bytes.antt =====
-- Bytes on a stream: `u64::to_le_bytes`, `from_le_bytes` and `Read::read_exact`.
use Prim.Native.Nat.{ℕ, zero, suc, ◌+◌, ◌*◌, ◌/◌, ◌%◌, ◌^◌, ◌<◌, ◌≤◌}
use mathlib.Core.Path.{◌≡◌, refl, ap}
use mathlib.Core.List.{List, [], ◌∷◌, ◌++◌}
use mathlib.Core.Option.{Option, none, some}
use native.Mathlib.Omega.{arith}
use native.Mathlib.Nat.{pow-suc}
use distributed_uvm.Prelude.Lists.{length}
use distributed_uvm.Prelude.Tests.{Option-cases}
use mathlib.Core.Logic.{inl, inr}

-- `k` bytes of a number, the low one first.
unfoldable pub le_bytes : ℕ → ℕ → List ℕ
le_bytes zero n = []
le_bytes (suc k) n = n % 256 ∷ le_bytes k (n / 256)

unfoldable pub from_le_bytes : List ℕ → ℕ
from_le_bytes [] = 0
from_le_bytes (b ∷ bs) = b + from_le_bytes bs * 256

pub length-le_bytes : (k n : ℕ) → length (le_bytes k n) ≡ k
unfolding le_bytes
length-le_bytes zero n = refl
length-le_bytes (suc k) n = ap suc (length-le_bytes k (n / 256))

pub from_le_bytes-le_bytes : (k n : ℕ) → n < 256 ^ k → from_le_bytes (le_bytes k n) ≡ n
unfolding le_bytes from_le_bytes
from_le_bytes-le_bytes zero n h = omega arith
from_le_bytes-le_bytes (suc k) n h =
    let small : n / 256 < 256 ^ k = omega (arith, pow-suc 256 k) in
    omega (arith, from_le_bytes-le_bytes k (n / 256) small)

-- The first `n` bytes and the rest, unless the stream ends before.
unfoldable pub read_exact : ℕ → List ℕ → Option (List ℕ × List ℕ)
read_exact zero bs = some ([], bs)
read_exact (suc n) [] = none
read_exact (suc n) (b ∷ bs) = elim (read_exact n bs) [
  | none ↦ none
  | some (xs, rest) ↦ some (b ∷ xs, rest)
]

pub read_exact_append :
    (n : ℕ) (xs ys : List ℕ) → length xs ≡ n → read_exact n (xs ++ ys) ≡ some (xs, ys)
unfolding read_exact
read_exact_append zero [] ys h = refl
read_exact_append zero (x ∷ xs) ys h = absurd (ground (arith, h))
read_exact_append (suc n) [] ys h = absurd (ground (arith, h))
read_exact_append (suc n) (x ∷ xs) ys h =
    let r = read_exact_append n xs ys (omega (arith, h)) in ground (arith, r)

-- What is left is no longer than what was there.
pub read_exact-le :
    (n : ℕ) (bs xs rest : List ℕ) → read_exact n bs ≡ some (xs, rest) → length rest ≤ length bs
unfolding read_exact
read_exact-le zero bs xs rest h = ground (arith, h)
read_exact-le (suc n) [] xs rest h = absurd (ground (arith, h))
read_exact-le (suc n) (b ∷ bs) xs rest h = elim (Option-cases (read_exact n bs)) [
  | inl e ↦ absurd (ground (arith, h, e))
  | inr ((ys, left), e) ↦ ground (arith, h, e, read_exact-le n bs ys left e)
]
