-- ===== src/Common/Ring/Batch.antt =====
-- `pop_batch`, and whole histories of calls, against the FIFO.
use Prim.Native.Nat.{min}
use mathlib.Core.List.{append-nil, append_assoc}
use distributed_uvm.Prelude.{
  ℕ, zero, suc, ◌+◌, ◌-◌, ◌≡◌, refl, sym, ap, ◌∙◌, true, Bool, Option, some, none, List, [], ◌∷◌,
  ◌++◌, arith, take, drop, get_or, inl, inr,
}
use distributed_uvm.Common.Fifo
use distributed_uvm.Common.Ring.{Ring, try_push, try_pop, pop_from, pop_batch, len}
use distributed_uvm.Common.Ring.Valid.{
  IsValid, try_push-IsValid, try_pop-IsValid, capacity-try_push, capacity-try_pop,
}
use distributed_uvm.Common.Ring.Refine.{
  contents, try_push_refines, try_pop_refines, try_pop-cases, contents-popped, len-popped, popped,
  window,
}

take-nil : {A : Type 0} (n : ℕ) → take {A = A} n [] ≡ []
take-nil zero = refl
take-nil (suc n) = refl

drop-nil : {A : Type 0} (n : ℕ) → drop {A = A} n [] ≡ []
drop-nil zero = refl
drop-nil (suc n) = refl

-- One call of a client: a push, or a pop.
pub data Call (A : Type 0) : Type 0 where
  push : A → Call A
  pop : Call A

module _ {A : Type 0} where
  pub run : Ring A → List (Call A) → List (Bool × Option A)
  run r [] = []
  run r (push x ∷ cs) = let (r', done) = try_push r x in (done, none) ∷ run r' cs
  run r (pop ∷ cs) = let (r', out) = try_pop r in (true, out) ∷ run r' cs

  unfoldable pub run_fifo : ℕ → List A → List (Call A) → List (Bool × Option A)
  run_fifo limit q [] = []
  run_fifo limit q (push x ∷ cs) =
      let (q', done) = Fifo.push limit q x in (done, none) ∷ run_fifo limit q' cs
  run_fifo limit q (pop ∷ cs) = let (q', out) = Fifo.pop q in (true, out) ∷ run_fifo limit q' cs

module _ {A : Type 0} where
  pop_from-none :
      (left : ℕ) (r s : Ring A) (buf : List A) (count : ℕ)
      → try_pop r ≡ (s, none)
      → pop_from (suc left) r buf count ≡ (s, buf, count)
  unfolding pop_from
  pop_from-none left r s buf count e = ground (arith, e)

  pop_from-some :
      (left : ℕ) (r s : Ring A) (buf : List A) (count : ℕ) (x : A)
      → try_pop r ≡ (s, some x)
      → pop_from (suc left) r buf count ≡ pop_from left s (buf ++ (x ∷ [])) (count + 1)
  unfolding pop_from
  pop_from-some left r s buf count x e = ground (arith, e)

module _ {A : Type 0} (zeroed : A) where
  -- What the loop of `pop_batch` has done when it stops.
  record Drained (left : ℕ) (r : Ring A) (buf : List A) (count : ℕ) (out : Ring A × List A × ℕ)
      (k : ℕ) : Type 0 where
    number : out.2 ≡ count + min left (len r)
    taken : out.1 ≡ buf ++ take left (contents zeroed r)
    rest : contents zeroed out.0 ≡ drop left (contents zeroed r)
    valid : IsValid k out.0

  pop_from-Drained :
      (left : ℕ) {k : ℕ} {r : Ring A} (buf : List A) (count : ℕ)
      → IsValid k r
      → Drained left r buf count (pop_from left r buf count) k
  pop_from-Drained zero {k} {r} buf count v =
      unfold pop_from in
      record { number = omega arith; taken = sym (append-nil buf); rest = refl; valid = v }
  pop_from-Drained (suc left) {k} {r} buf count v = elim (try_pop-cases zeroed v) [
    | inl (none_left, e) ↦
        let nothing : contents zeroed r ≡ [] =
          ap (window zeroed r.entries r.capacity r.read_idx) none_left in
        rw (pop_from-none left r r buf count e) (record {
          number = omega (arith, none_left);
          taken = rw nothing (sym (append-nil buf));
          rest = rw nothing;
          valid = v;
        })
    | inr (some_left, e) ↦
        let oldest = get_or r.entries r.read_idx zeroed in
        let valid' : IsValid k (popped zeroed r) = rw (ap (λ o. o.0) e) at (try_pop-IsValid v) in
        let ih = pop_from-Drained left (buf ++ (oldest ∷ [])) (count + 1) valid' in
        rw (pop_from-some left r (popped zeroed r) buf count oldest e) (record {
          number = omega (arith, ih.number, len-popped zeroed v some_left);
          taken = rw (contents-popped zeroed v some_left) (
              ih.taken
              ∙ append_assoc buf (oldest ∷ []) (take left (contents zeroed (popped zeroed r))));
          rest = rw (contents-popped zeroed v some_left) ih.rest;
          valid = ih.valid;
        })
  ]

  -- From a valid ring, pop_batch appends the oldest entries to the buffer, as many as are asked
  -- for and there are, returns their number, and leaves the rest in a valid ring.
  pub pop_batch_lem :
      {k : ℕ} {r : Ring A} (buf : List A) (max : ℕ)
      → IsValid k r
      → let (r', buf', n) = pop_batch r buf max in
        (n ≡ min max (len r))
        × (buf' ≡ buf ++ take max (contents zeroed r))
        × (contents zeroed r' ≡ drop max (contents zeroed r))
        × IsValid k r'
  unfolding pop_batch
  pop_batch_lem buf max v =
      let d = pop_from-Drained max buf 0 v in (omega (arith, d.number), d.taken, d.rest, d.valid)

  -- From a valid ring, any sequence of pushes and pops gives the results that a FIFO queue of one
  -- entry less than the ring's capacity gives, started with the ring's contents.
  pub run_refines :
      (cs : List (Call A)) {k : ℕ} {r : Ring A}
      → IsValid k r
      → run r cs ≡ run_fifo (r.capacity - 1) (contents zeroed r) cs
  unfolding run run_fifo
  run_refines [] v = refl
  run_refines (push x ∷ cs) {k} {r} v =
      rw (run_refines cs (try_push-IsValid x v), ← try_push_refines zeroed x v, capacity-try_push)
  run_refines (pop ∷ cs) {k} {r} v =
      rw (run_refines cs (try_pop-IsValid v), ← try_pop_refines zeroed v, capacity-try_pop)
