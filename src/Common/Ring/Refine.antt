-- ===== src/Common/Ring/Refine.antt =====
-- A valid ring behaves as the bounded FIFO of its contents.
use distributed_uvm.Prelude.{
  ℕ, zero, suc, ◌+◌, ◌-◌, ◌%◌, ◌≤◌, ◌<◌, ◌≡◌, ◌⊎◌, refl, sym, ap, ap₂, ◌∙◌, true, false, List, [],
  ◌∷◌, ◌++◌, arith, length, get_or, set, get_elem?, get_or-set_self, get_or-set_ne, length-append,
  ◌==◌, Bool-cases, inl, inr, some, none,
}
use native.Mathlib.Nat.{mod-eq_of_lt}
use distributed_uvm.Prelude.Modular.{mod_cases, mod_apart, mod_shift}
use distributed_uvm.Common.Fifo
use distributed_uvm.Common.Ring.{Ring, try_push, try_pop, len}
use distributed_uvm.Common.Ring.Valid.{IsValid, mask-mod, len_bounds}

-- Less than two turns of the ring: a remainder is the number itself, or that less `c`.
get_elem?-get_or {ℓ} :
    {A : Type ℓ} (xs : List A) (i : ℕ) (d : A)
    → i < length xs
    → get_elem? xs i ≡ some (get_or xs i d)
get_elem?-get_or [] i d h = elim h [ ]
get_elem?-get_or (x ∷ xs) zero d h = refl
get_elem?-get_or (x ∷ xs) (suc i) d h = get_elem?-get_or xs i d (omega arith)

-- `zeroed` only stands for a slot out of range, of which a valid ring has none.
module _ {A : Type 0} (zeroed : A) where
  -- the `n` entries from index `h` on, round the ring
  abbrev pub window : List A → ℕ → ℕ → ℕ → List A
  window buf c h zero = []
  window buf c h (suc n) = window buf c h n ++ (get_or buf ((h + n) % c) zeroed ∷ [])

  abbrev pub contents : Ring A → List A
  contents r = window r.entries r.capacity r.read_idx (len r)

  length-window : (buf : List A) (c h n : ℕ) → length (window buf c h n) ≡ n
  length-window buf c h zero = refl
  length-window buf c h (suc n) = omega (
    arith,
    length-window buf c h n,
    length-append (window buf c h n) (get_or buf ((h + n) % c) zeroed ∷ []),
  )

  -- A write to a slot past the window does not show in it.
  window-set :
      (buf : List A) (c h n k j : ℕ) (x : A)
      → j ≡ (h + k) % c
      → h < c
      → n ≤ k
      → k < c
      → window (set buf j x) c h n ≡ window buf c h n
  window-set buf c h zero k j x e hh hn hk = refl
  window-set buf c h (suc n) k j x e hh hn hk =
      ap₂ (λ (u : List A) (v : A). u ++ (v ∷ [])) (window-set buf c h n k j x e hh (omega arith) hk)
        (get_or-set_ne buf x zeroed (λ q. mod_apart h n k c hh hn hk (sym q ∙ e)))

  -- The first entry of a window, and the window after it.
  window_front :
      (buf : List A) (c h n : ℕ)
      → h < c
      → window buf c h (suc n) ≡ get_or buf h zeroed ∷ window buf c ((h + 1) % c) n
  window_front buf c h zero hh =
      ap (λ (i : ℕ). get_or buf i zeroed ∷ [])
        (ap (λ (k : ℕ). k % c) (omega arith) ∙ mod-eq_of_lt hh)
  window_front buf c h (suc n) hh =
      ap₂ (λ (u : List A) (i : ℕ). u ++ (get_or buf i zeroed ∷ [])) (window_front buf c h n hh)
        (sym (mod_shift h n c))

  pub length-contents : (r : Ring A) → length (contents r) ≡ len r
  length-contents r = length-window r.entries r.capacity r.read_idx (len r)

  -- The ring that a push into a ring with room leaves, and the ring after a pop.
  abbrev pub pushed : Ring A → A → Ring A
  pushed r x = record r {
    entries = set r.entries r.write_idx x;
    write_idx = (r.write_idx + 1) % r.capacity;
  }

  abbrev pub popped : Ring A → Ring A
  popped r = record r { read_idx = (r.read_idx + 1) % r.capacity }

  -- A push is refused exactly when `capacity - 1` entries are stored.
  pub try_push-cases :
      {k : ℕ} {r : Ring A} (x : A)
      → IsValid k r
      → ((len r ≡ r.capacity - 1) × (try_push r x ≡ (r, false)))
        ⊎ ((len r + 1 < r.capacity) × (try_push r x ≡ (pushed r x, true)))
  unfolding try_push len
  try_push-cases {k} {r} x v = elim (Bool-cases ((r.write_idx + 1) % r.capacity == r.read_idx)) [
    | inl e ↦ inl (ground (arith, e, turn), ground (arith, e, mask-mod (r.write_idx + 1) v))
    | inr e ↦ inr (ground (arith, e, turn), ground (arith, e, mask-mod (r.write_idx + 1) v))
  ]
    where
      turn :
          ((r.write_idx + 1 < r.capacity) × ((r.write_idx + 1) % r.capacity ≡ r.write_idx + 1))
          ⊎ ((r.capacity ≤ r.write_idx + 1)
              × ((r.write_idx + 1) % r.capacity + r.capacity ≡ r.write_idx + 1))
      turn = mod_cases (r.write_idx + 1) r.capacity (omega (arith, v.write_in))

  -- A pop is refused exactly when nothing is stored.
  pub try_pop-cases :
      {k : ℕ} {r : Ring A}
      → IsValid k r
      → ((len r ≡ 0) × (try_pop r ≡ (r, none)))
        ⊎ ((0 < len r) × (try_pop r ≡ (popped r, some (get_or r.entries r.read_idx zeroed))))
  unfolding try_pop len
  try_pop-cases {k} {r} v = elim (Bool-cases (r.read_idx == r.write_idx)) [
    | inl e ↦ inl (ground (arith, e), ground (arith, e))
    | inr e ↦ inr (
      ground (arith, e),
      ground (arith, e, mask-mod (r.read_idx + 1) v, get_elem?-get_or r.entries r.read_idx zeroed),
    )
  ]

  len-pushed :
      {k : ℕ} {r : Ring A} (x : A)
      → IsValid k r
      → len r + 1 < r.capacity
      → len (pushed r x) ≡ len r + 1
  unfolding len
  len-pushed {k} {r} x v h =
      ground (arith, mod_cases (r.write_idx + 1) r.capacity (omega (arith, v.write_in)))

  pub len-popped : {k : ℕ} {r : Ring A} → IsValid k r → 0 < len r → len r ≡ suc (len (popped r))
  unfolding len
  len-popped {k} {r} v h =
      ground (arith, mod_cases (r.read_idx + 1) r.capacity (omega (arith, v.read_in)))

  contents-pushed :
      {k : ℕ} {r : Ring A} (x : A)
      → IsValid k r
      → len r + 1 < r.capacity
      → contents (pushed r x) ≡ contents r ++ (x ∷ [])
  contents-pushed {k} {r} x v h =
      ap (window (set r.entries r.write_idx x) r.capacity r.read_idx) count
      ∙ ap₂ (λ (u : List A) (a : A). u ++ (a ∷ []))
          (window-set r.entries r.capacity r.read_idx (len r) (len r) r.write_idx x (len_bounds v).1
            v.read_in (omega arith) (len_bounds v).0)
          (ap (λ (i : ℕ). get_or (set r.entries r.write_idx x) i zeroed) (sym (len_bounds v).1)
            ∙ get_or-set_self r.entries r.write_idx x zeroed (omega (arith, v.storage, v.write_in)))
    where
      count : len (pushed r x) ≡ suc (len r)
      count = omega (arith, len-pushed x v h)

  pub contents-popped :
      {k : ℕ} {r : Ring A}
      → IsValid k r
      → 0 < len r
      → contents r ≡ get_or r.entries r.read_idx zeroed ∷ contents (popped r)
  contents-popped {k} {r} v h =
      ap (window r.entries r.capacity r.read_idx) (len-popped v h)
      ∙ window_front r.entries r.capacity r.read_idx (len (popped r)) v.read_in

  -- `try_push` answers as a bounded FIFO of `capacity - 1` entries does, and leaves the ring holding
  -- that queue.
  pub try_push_refines :
      {k : ℕ} {r : Ring A} (x : A)
      → IsValid k r
      → let (r', done) = try_push r x in
        (contents r', done) ≡ Fifo.push (r.capacity - 1) (contents r) x
  unfolding Fifo.push
  try_push_refines {k} {r} x v = elim (try_push-cases x v) [
    | inl (full, e) ↦ rw e (ground (arith, full, length-contents r))
    | inr (room, e) ↦ rw e (ground (arith, room, length-contents r, contents-pushed x v room))
  ]

  -- `try_pop` takes the oldest entry, or reports an empty ring, as the FIFO does.
  pub try_pop_refines :
      {k : ℕ} {r : Ring A}
      → IsValid k r
      → let (r', out) = try_pop r in (contents r', out) ≡ Fifo.pop (contents r)
  unfolding Fifo.pop
  try_pop_refines {k} {r} v = elim (try_pop-cases v) [
    | inl (empty, e) ↦ rw e (rw (ap (window r.entries r.capacity r.read_idx) empty) refl)
    | inr (some_left, e) ↦ rw (e, contents-popped v some_left)
  ]
