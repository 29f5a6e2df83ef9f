-- ===== src/Backends/RoundTrip.antt =====
-- A page through the life of one slot: allocated, stored, loaded, freed.
use distributed_uvm.Prelude.{ℕ, ◌≡◌, refl, sym, ap, ◌∙◌, some, arith, ◌==◌, if◌then◌else◌}
use distributed_uvm.Prelude.HashMap.{lookup}
use distributed_uvm.Prelude.Outcome.{ok}
use distributed_uvm.Common.Page.{PageHandle, PageBuffer, offset}
use distributed_uvm.Backends.Trait.{DuvmBackend}
use distributed_uvm.Backends.Contract.{Contract, IsPage}
use distributed_uvm.Backends.Memory.{MemoryBackend, memory_ops}
use distributed_uvm.Backends.Memory.Laws.{memory_contract, memory-IsValid, memory_contents}
use distributed_uvm.Backends.Memory.Laws as Memory
use distributed_uvm.Backends.Compress.{CompressBackend, Codec, compress_ops, store_page}
use distributed_uvm.Backends.Compress.Laws.{compress_contract, compress-IsValid, compress_contents}
use distributed_uvm.Backends.Compress.Laws as Compress

module _ {B : Type 0} {ops : DuvmBackend B} (c : Contract ops) where
  -- The states after each call.
  abbrev pub after_store : B → PageHandle → PageBuffer → B
  after_store b h page = (ops.store_page (ops.alloc_page b).0 h page).0

  abbrev pub after_load : B → PageHandle → PageBuffer → B
  after_load b h page = (ops.load_page (after_store b h page) h).0

  abbrev pub after_free : B → PageHandle → PageBuffer → B
  after_free b h page = (ops.free_page (after_load b h page) h).0

  pub round_trip :
      (b : B) (h : PageHandle) (page : PageBuffer)
      → c.IsValid b
      → IsPage page
      → (ops.alloc_page b).1 ≡ ok h
      → (ops.store_page (ops.alloc_page b).0 h page).1 ≡ ok tt
      → ((ops.load_page (after_store b h page) h).1 ≡ ok page)
        × ((s : ℕ)
            → c.contents (after_store b h page) s
              ≡ (if offset h == s then some page else c.contents b s))
        × ((s : ℕ) → c.contents (after_free b h page) s ≡ c.contents b s)
  round_trip b h page v p got done =
      let written = c.store_contents (ops.alloc_page b).0 h page in
      let here : c.contents (after_store b h page) (offset h) ≡ some page =
        ground (arith, written (offset h) p done) in
      (
        c.load_result (after_store b h page) h page here,
        λ s. ground (arith, written s p done, c.alloc_contents b s),
        λ s. restored s,
      )
    where
      restored : (s : ℕ) → c.contents (after_free b h page) s ≡ c.contents b s
      restored s = ground (
        arith,
        c.free_contents (after_load b h page) h s,
        c.load_contents (after_store b h page) h s,
        c.store_contents (ops.alloc_page b).0 h page s p done,
        c.alloc_contents b s,
        (c.alloc_fresh b h v got).0,
      )

-- A store into the memory backend always succeeds.
memory_stores :
    (b : MemoryBackend) (h : PageHandle) (page : PageBuffer)
    → (memory_ops.store_page b h page).1 ≡ ok tt
unfolding memory_ops
memory_stores b h page = refl

-- In a valid memory backend that hands out a slot, the whole page stored there is loaded again, no
-- other slot changes by the store, and a free after it restores the contents of all slots.
pub memory_round_trip :
    (b : MemoryBackend) (h : PageHandle) (page : PageBuffer)
    → Memory.IsValid b
    → IsPage page
    → (memory_ops.alloc_page b).1 ≡ ok h
    → ((memory_ops.load_page (after_store memory_contract b h page) h).1 ≡ ok page)
      × ((s : ℕ)
          → lookup s (after_store memory_contract b h page).pages
            ≡ (if offset h == s then some page else lookup s b.pages))
      × ((s : ℕ) → lookup s (after_free memory_contract b h page).pages ≡ lookup s b.pages)
memory_round_trip b h page v p got =
    let c = memory_contract in
    let stores = memory_stores (memory_ops.alloc_page b).0 h page in
    let (loaded, others, restored) = round_trip c b h page (memory-IsValid b v) p got stores in
    (
      loaded,
      λ s.
          sym (memory_contents (after_store c b h page) s)
          ∙ others s
          ∙ ap (λ x. if offset h == s then some page else x) (memory_contents b s),
      λ s. sym (memory_contents (after_free c b h page) s) ∙ restored s ∙ memory_contents b s,
    )

module _ (codec : Codec) where
  compress_stores :
      (b : CompressBackend) (h : PageHandle) (page : PageBuffer)
      → ((compress_ops codec).store_page b h page).1 ≡ ok tt
  unfolding compress_ops store_page
  compress_stores b h page = refl

  -- With a codec that decompresses what it compressed, in a valid compression backend that hands
  -- out a slot, the whole page stored there is loaded again, no other slot changes by the store,
  -- and a free after it restores the contents of all slots.
  pub compress_round_trip :
      (b : CompressBackend) (h : PageHandle) (page : PageBuffer)
      → Compress.IsValid b
      → IsPage page
      → ((compress_ops codec).alloc_page b).1 ≡ ok h
      → (((compress_ops codec).load_page (after_store (compress_contract codec) b h page) h).1
          ≡ ok page)
        × ((s : ℕ)
            → Compress.contents codec (after_store (compress_contract codec) b h page) s
              ≡ (if offset h == s then some page else Compress.contents codec b s))
        × ((s : ℕ)
            → Compress.contents codec (after_free (compress_contract codec) b h page) s
              ≡ Compress.contents codec b s)
  compress_round_trip b h page v p got =
      let c = compress_contract codec in
      let stores = compress_stores ((compress_ops codec).alloc_page b).0 h page in
      let (loaded, others, restored) =
        round_trip c b h page (compress-IsValid codec b v) p got stores in
      (
        loaded,
        λ s.
            sym (compress_contents codec (after_store c b h page) s)
            ∙ others s
            ∙ ap (λ x. if offset h == s then some page else x) (compress_contents codec b s),
        λ s.
            sym (compress_contents codec (after_free c b h page) s)
            ∙ restored s
            ∙ compress_contents codec b s,
      )
