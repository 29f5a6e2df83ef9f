-- ===== src/Common/Ring/Valid.antt =====
-- The representation invariant of a ring, and what its masked indices are.
use Prim.Native.Nat.{bit_and}
use distributed_uvm.Prelude.{
  ℕ, zero, suc, ◌+◌, ◌-◌, ◌/◌, ◌%◌, ◌^◌, ◌<◌, ◌≡◌, sym, ap, ◌∙◌, true, arith, length, length-set,
  length-replicate, ◌==◌, leb, inl, inr, Bool-cases,
}
use native.Mathlib.Nat.{pow-suc, mod-eq_of_lt}
use distributed_uvm.Prelude.Bits.{bit_and_mask, pow_pos}
use distributed_uvm.Prelude.Outcome.{ok}
use distributed_uvm.Common.Ring.{
  Ring, new_ring, try_push, try_pop, len, is_power_of_two, is_power_of_two_from,
}

-- The capacity is 2^`bits`, and the indices stand within the entries.
pub record IsValid {A : Type 0} (bits : ℕ) (r : Ring A) : Type 0 where
  pub power : r.capacity ≡ 2 ^ bits
  pub masked : r.mask ≡ r.capacity - 1
  pub storage : length r.entries ≡ r.capacity
  pub write_in : r.write_idx < r.capacity
  pub read_in : r.read_idx < r.capacity

power_of_two_from : (fuel n : ℕ) → is_power_of_two_from fuel n ≡ true → (k : ℕ) × (n ≡ 2 ^ k)
unfolding is_power_of_two_from
power_of_two_from zero n h = absurd (ground arith)
power_of_two_from (suc fuel) n h = elim (Bool-cases (n == 1)) [
  | inl one ↦ (0, ground (arith, one))
  | inr more ↦
      let (k, e) = power_of_two_from fuel (n / 2) (ground (arith, more)) in
      (suc k, ground (arith, more, e, pow-suc 2 k))
]

power_of_two : (n : ℕ) → is_power_of_two n ≡ true → (k : ℕ) × (n ≡ 2 ^ k)
unfolding is_power_of_two
power_of_two n h = power_of_two_from n n h

round : (w c : ℕ) → w < c → w ≡ (c + w) % c
round w c h = grind arith

module _ {A : Type 0} where
  -- Masking an index is its remainder modulo the capacity.
  pub mask-mod : {k : ℕ} {r : Ring A} (i : ℕ) → IsValid k r → bit_and i r.mask ≡ i % r.capacity
  mask-mod {k} {r} i v =
      ap (bit_and i) (v.masked ∙ ap (λ (c : ℕ). c - 1) v.power)
      ∙ bit_and_mask k i
      ∙ ap (λ (c : ℕ). i % c) (sym v.power)

  -- A ring that `new` makes is valid and empty and has the capacity asked for, a power of two.
  pub new_ring-IsValid :
      (z : A) (c : ℕ) {r : Ring A}
      → new_ring z c ≡ ok r
      → (k : ℕ) × IsValid k r × (len r ≡ 0) × (r.capacity ≡ c)
  unfolding new_ring len
  new_ring-IsValid z c {r} h = elim (Bool-cases (is_power_of_two c)) [
    | inl e ↦
        let (k, p) = power_of_two c e in
        (
          k,
          ground (arith, e, p, length-replicate c z, pow_pos k),
          ground (arith, e, p, pow_pos k),
          ground (arith, e, p, pow_pos k),
        )
    | inr e ↦ absurd (ground (arith, e))
  ]

  pub try_push-IsValid : {k : ℕ} {r : Ring A} (x : A) → IsValid k r → IsValid k (try_push r x).0
  unfolding try_push
  try_push-IsValid {k} {r} x v =
      ground (arith, mask-mod (r.write_idx + 1) v, length-set r.entries r.write_idx x)

  pub try_pop-IsValid : {k : ℕ} {r : Ring A} → IsValid k r → IsValid k (try_pop r).0
  unfolding try_pop
  try_pop-IsValid {k} {r} v = ground (arith, mask-mod (r.read_idx + 1) v)

  pub capacity-try_push : (r : Ring A) (x : A) → (try_push r x).0.capacity ≡ r.capacity
  unfolding try_push
  capacity-try_push r x = ground arith

  pub capacity-try_pop : (r : Ring A) → (try_pop r).0.capacity ≡ r.capacity
  unfolding try_pop
  capacity-try_pop r = ground arith

  -- The length in one formula: the distance from the read to the write index, round the ring.
  pub len-mod :
      {k : ℕ} {r : Ring A}
      → IsValid k r
      → len r ≡ (r.write_idx + r.capacity - r.read_idx) % r.capacity
  unfolding len
  len-mod {r} v = grind arith

  -- One slot stays free, and the write index is `len` steps after the read index.
  pub len_bounds :
      {k : ℕ} {r : Ring A}
      → IsValid k r
      → (len r < r.capacity) × (r.write_idx ≡ (r.read_idx + len r) % r.capacity)
  unfolding len
  len_bounds {k} {r} v = elim (Bool-cases (leb r.read_idx r.write_idx)) [
    | inl e ↦ rw e (ground (arith, e), ap_mod (ground (arith, e)) (sym (mod-eq_of_lt v.write_in)))
    | inr e ↦
        rw e
          (ground (arith, e), ap_mod (ground (arith, e)) (round r.write_idx r.capacity v.write_in))
  ]
    where
      ap_mod : {a b : ℕ} → b ≡ a → r.write_idx ≡ a % r.capacity → r.write_idx ≡ b % r.capacity
      ap_mod e q = q ∙ ap (λ (m : ℕ). m % r.capacity) (sym e)
