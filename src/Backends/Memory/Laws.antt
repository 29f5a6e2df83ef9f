-- ===== src/Backends/Memory/Laws.antt =====
-- The memory backend keeps the contract of a backend.
use distributed_uvm.Prelude.{
  ℕ, ◌+◌, ◌%◌, ◌^◌, ◌≤◌, ◌<◌, ◌≡◌, ◌≢◌, refl, subst, none, arith, length, leb, Option-cases, inl,
  inr, Bool-cases, false,
}
use native.Mathlib.Decide.{dec_lt}
use distributed_uvm.Prelude.Outcome.{ok, panic}
use distributed_uvm.Prelude.HashMap.{
  lookup, lookup-insert, lookup-remove, IsDistinct, insert-IsDistinct, remove-IsDistinct,
  All-insert, All-remove,
}
use distributed_uvm.Common.Page.{PageHandle, PageBuffer, offset}
use distributed_uvm.Common.Page.Laws.{new_handle-parts, new_handle_panics}
use distributed_uvm.Backends.Slots.{IsBelow, IsBelow-mono, lookup_above}
use distributed_uvm.Backends.Contract.{Contract}
use distributed_uvm.Backends.Memory.{
  MemoryBackend, memory_ops, alloc_page, store_page, free_page, load_page,
}

-- Every stored page stands below the next offset, which has not wrapped.
pub record IsValid (b : MemoryBackend) : Type 0 where
  pub distinct : IsDistinct b.pages
  pub below : IsBelow b.next_offset b.pages
  pub id_fits : b.backend_id < 2 ^ 8
  pub next_fits : b.next_offset ≤ 2 ^ 56

-- An offset that was handed out.
abbrev pub IsAllocated : MemoryBackend → ℕ → Type 0
IsAllocated b s = s < b.next_offset

no_panic :
    (b : MemoryBackend)
    → leb b.max_pages (length b.pages) ≡ false
    → (alloc_page b).1 ≢ panic
    → b.next_offset < 2 ^ 56
unfolding alloc_page
no_panic b e h = elim (dec_lt b.next_offset (2 ^ 56)) [
  | yes p ↦ p
  | no p ↦
      absurd (h (ground (arith, e, new_handle_panics b.backend_id b.next_offset (omega arith))))
]

alloc-IsValid :
    (b : MemoryBackend) → IsValid b → (alloc_page b).1 ≢ panic → IsValid (alloc_page b).0
unfolding alloc_page
alloc-IsValid b v h = elim (Bool-cases (leb b.max_pages (length b.pages))) [
  | inl e ↦ rw e v
  | inr e ↦
      let fits = no_panic b e h in
      rw e (record {
        distinct = v.distinct;
        below =
            IsBelow-mono b.next_offset ((b.next_offset + 1) % 2 ^ 64) b.pages (omega arith) v.below;
        id_fits = v.id_fits;
        next_fits = omega arith;
      })
]

alloc_fresh :
    (b : MemoryBackend) (h : PageHandle)
    → IsValid b
    → (alloc_page b).1 ≡ ok h
    → (lookup (offset h) b.pages ≡ none) × IsAllocated (alloc_page b).0 (offset h)
unfolding alloc_page
alloc_fresh b h v e = ground (
  arith,
  new_handle-parts b.backend_id b.next_offset h v.id_fits,
  lookup_above b.next_offset b.pages v.below,
)

store-IsValid :
    (b : MemoryBackend) (h : PageHandle) (page : PageBuffer)
    → IsValid b
    → IsAllocated b (offset h)
    → IsValid (store_page b h page).0
unfolding store_page
store-IsValid b h page v a = record {
  distinct = insert-IsDistinct (offset h) page b.pages v.distinct;
  below = All-insert _ (offset h) page b.pages a v.below;
  id_fits = v.id_fits;
  next_fits = v.next_fits;
}

load-IsValid : (b : MemoryBackend) (h : PageHandle) → IsValid b → IsValid (load_page b h).0
unfolding load_page
load-IsValid b h v = elim (Option-cases (lookup (offset h) b.pages)) [
  | inl e ↦ subst IsValid (ground (arith, e)) v
  | inr (page, e) ↦ subst IsValid (ground (arith, e)) v
]

free-IsValid : (b : MemoryBackend) (h : PageHandle) → IsValid b → IsValid (free_page b h).0
unfolding free_page
free-IsValid b h v = record {
  distinct = remove-IsDistinct (offset h) b.pages v.distinct;
  below = All-remove _ (offset h) b.pages v.below;
  id_fits = v.id_fits;
  next_fits = v.next_fits;
}

-- The memory backend is a map from slots to pages, as the contract says.
pub memory_contract : Contract memory_ops
unfolding memory_ops
memory_contract = record {
  IsValid = IsValid;
  contents = λ b s. lookup s b.pages;
  IsAllocated = IsAllocated;
  alloc_valid = alloc-IsValid;
  alloc_contents = λ b s. ground arith;
  alloc_fresh = alloc_fresh;
  store_valid = store-IsValid;
  store_contents = λ b h page s p e. lookup-insert s (offset h) page b.pages;
  store_frame = λ b h page s ne. ground (arith, lookup-insert s (offset h) page b.pages);
  load_valid = load-IsValid;
  load_contents = λ b h s. ground arith;
  load_result = λ b h page e. ground (arith, e);
  free_valid = free-IsValid;
  free_contents = λ b h s. lookup-remove s (offset h) b.pages;
  free_result = λ b h. refl;
}

-- What the contract speaks of.
pub memory-IsValid : (b : MemoryBackend) → IsValid b → memory_contract.IsValid b
unfolding memory_contract
memory-IsValid b v = v

pub memory_contents : (b : MemoryBackend) (s : ℕ) → memory_contract.contents b s ≡ lookup s b.pages
unfolding memory_contract
memory_contents b s = refl
