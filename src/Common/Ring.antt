-- ===== src/Common/Ring.antt =====
-- crates/duvm-common/src/ring.rs: the request and the completion ring. Their code is the same but
-- for the entry type, so both are one record over the entry.
pub mod Valid
pub mod Refine
pub mod Batch
use Prim.Native.Nat.{bit_and}
use distributed_uvm.Prelude.{
  ℕ, zero, suc, ◌+◌, ◌-◌, ◌/◌, ◌%◌, Bool, true, false, Option, none, some, List, [], ◌∷◌, ◌++◌,
  arith, ltb, leb, ◌==◌, if◌then◌else◌, get_elem?, set, replicate,
}
use distributed_uvm.Prelude.Outcome.{Outcome, ok, panic}
use distributed_uvm.Common.Protocol.{RingRequest, RingCompletion}

pub record Ring (A : Type 0) : Type 0 where
  pub entries : List A
  pub write_idx : ℕ
  pub read_idx : ℕ
  pub capacity : ℕ
  pub mask : ℕ

-- `usize::is_power_of_two`, by dividing while the number is even. The number itself is enough
-- fuel, since each round halves it.
is_power_of_two_from : ℕ → ℕ → Bool
is_power_of_two_from zero n = false
is_power_of_two_from (suc fuel) n =
    let rest = is_power_of_two_from fuel (n / 2) in
    if n == 1 then true else if n == 0 then false else if n % 2 == 0 then rest else false

unfoldable pub is_power_of_two : ℕ → Bool
unfolding is_power_of_two_from
is_power_of_two n = is_power_of_two_from n n

module _ {A : Type 0} where
  -- `zeroed` is the all-zero entry; the `assert!` panics.
  unfoldable pub new_ring : A → ℕ → Outcome (Ring A)
  new_ring zeroed capacity =
      if is_power_of_two capacity
      then ok (record {
        entries = replicate capacity zeroed;
        write_idx = 0;
        read_idx = 0;
        capacity = capacity;
        mask = capacity - 1;
      })
      else panic

  unfoldable pub try_push : Ring A → A → Ring A × Bool
  try_push r req = if bit_and (r.write_idx + 1) r.mask == r.read_idx then (r, false) else (
    record r {
      entries = set r.entries r.write_idx req;
      write_idx = bit_and (r.write_idx + 1) r.mask;
    },
    true,
  )

  -- An index out of range would panic; the invariant rules it out, and `none` stands for it.
  unfoldable pub try_pop : Ring A → Ring A × Option A
  try_pop r =
      if r.read_idx == r.write_idx
      then (r, none)
      else (record r { read_idx = bit_and (r.read_idx + 1) r.mask }, get_elem? r.entries r.read_idx)

  -- The loop of `pop_batch`, with `max - count` rounds left; `buf` is the caller's vector.
  pop_from : ℕ → Ring A → List A → ℕ → Ring A × List A × ℕ
  pop_from zero r buf count = (r, buf, count)
  pop_from (suc left) r buf count =
      let (r', popped) = try_pop r in
      elim popped [
        | none ↦ (r', buf, count)
        | some req ↦ pop_from left r' (buf ++ (req ∷ [])) (count + 1)
      ]

  unfoldable pub pop_batch : Ring A → List A → ℕ → Ring A × List A × ℕ
  unfolding pop_from
  pop_batch r buf max = pop_from max r buf 0

  unfoldable pub len : Ring A → ℕ
  len r =
      if leb r.read_idx r.write_idx
      then r.write_idx - r.read_idx
      else r.capacity - r.read_idx + r.write_idx

  unfoldable pub is_empty : Ring A → Bool
  is_empty r = r.write_idx == r.read_idx

abbrev pub RequestRing : Type 0
RequestRing = Ring RingRequest

-- The code of the completion ring is that of the request ring, on the other entry.
abbrev pub CompletionRing : Type 0
CompletionRing = Ring RingCompletion

abbrev pub new_completion_ring : RingCompletion → ℕ → Outcome CompletionRing
new_completion_ring = new_ring

abbrev pub push_completion : CompletionRing → RingCompletion → CompletionRing × Bool
push_completion = try_push

abbrev pub pop_completion : CompletionRing → CompletionRing × Option RingCompletion
pop_completion = try_pop
