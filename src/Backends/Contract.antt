-- ===== src/Backends/Contract.antt =====
-- What a backend promises to the engine and the pool: it is a map from slots (the offsets of the
-- handles) to pages. A slot that `alloc_page` hands out is empty; a store fills it; a load gives
-- back what was stored; a free empties it; no operation touches another slot.
use distributed_uvm.Prelude.{ℕ, ◌≡◌, ◌≢◌, Option, none, some, ◌==◌, if◌then◌else◌, length}
use distributed_uvm.Prelude.Outcome.{ok, panic}
use distributed_uvm.Common.Page.{PageHandle, PageBuffer, offset, page_size}
use distributed_uvm.Backends.Trait.{DuvmBackend}

-- What holds of a page buffer by its type, `[u8; PAGE_SIZE]`.
abbrev pub IsPage : PageBuffer → Type 0
IsPage page = length page ≡ page_size

pub record Contract {B : Type 0} (ops : DuvmBackend B) : Type 1 where
  pub IsValid : B → Type 0
  pub contents : B → ℕ → Option PageBuffer
  -- the slots that `alloc_page` has handed out
  pub IsAllocated : B → ℕ → Type 0
  pub alloc_valid :
      (b : B) → IsValid b → (ops.alloc_page b).1 ≢ panic → IsValid (ops.alloc_page b).0
  pub alloc_contents : (b : B) (s : ℕ) → contents (ops.alloc_page b).0 s ≡ contents b s
  pub alloc_fresh :
      (b : B) (h : PageHandle)
      → IsValid b
      → (ops.alloc_page b).1 ≡ ok h
      → (contents b (offset h) ≡ none) × IsAllocated (ops.alloc_page b).0 (offset h)
  pub store_valid :
      (b : B) (h : PageHandle) (page : PageBuffer)
      → IsValid b
      → IsAllocated b (offset h)
      → IsValid (ops.store_page b h page).0
  pub store_contents :
      (b : B) (h : PageHandle) (page : PageBuffer) (s : ℕ)
      → IsPage page
      → (ops.store_page b h page).1 ≡ ok tt
      → contents (ops.store_page b h page).0 s ≡ (if offset h == s then some page else contents b s)
  pub store_frame :
      (b : B) (h : PageHandle) (page : PageBuffer) (s : ℕ)
      → offset h ≢ s
      → contents (ops.store_page b h page).0 s ≡ contents b s
  pub load_valid : (b : B) (h : PageHandle) → IsValid b → IsValid (ops.load_page b h).0
  pub load_contents :
      (b : B) (h : PageHandle) (s : ℕ) → contents (ops.load_page b h).0 s ≡ contents b s
  pub load_result :
      (b : B) (h : PageHandle) (page : PageBuffer)
      → contents b (offset h) ≡ some page
      → (ops.load_page b h).1 ≡ ok page
  pub free_valid : (b : B) (h : PageHandle) → IsValid b → IsValid (ops.free_page b h).0
  pub free_contents :
      (b : B) (h : PageHandle) (s : ℕ)
      → contents (ops.free_page b h).0 s ≡ (if offset h == s then none else contents b s)
  pub free_result : (b : B) (h : PageHandle) → (ops.free_page b h).1 ≡ ok tt
