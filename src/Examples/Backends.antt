-- ===== src/Examples/Backends.antt =====
-- Backends and the pool.
use distributed_uvm.Prelude.{
  ℕ, ◌+◌, ◌*◌, ◌^◌, ◌≤◌, ◌≡◌, ◌↔◌, refl, sym, ◌∙◌, subst, true, none, some, [], ◌∷◌, ◌==◌, arith,
  replicate, length-replicate, if◌then◌else◌,
}
use distributed_uvm.Prelude.HashMap.{lookup}
use distributed_uvm.Prelude.Outcome.{Outcome, ok}
use distributed_uvm.Common.Page.{PageHandle, PageBuffer, page_size, new_handle, backend_id, offset}
use distributed_uvm.Common.Page.Laws.{new_handle-parts}
use distributed_uvm.Backends.Contract.{IsPage}
use distributed_uvm.Backends.RoundTrip.{
  memory_round_trip, compress_round_trip, after_store, after_free,
}
use distributed_uvm.Backends.Memory.{MemoryBackend, new_memory, memory_ops}
use distributed_uvm.Backends.Memory.Laws.{memory_contract, memory-IsValid, memory_contents}
use distributed_uvm.Backends.Memory.Laws as Memory
use distributed_uvm.Backends.Compress.{
  CompressBackend, Codec, new_compress, compress_ops, store_page,
}
use distributed_uvm.Backends.Compress.Laws.{compress_contract}
use distributed_uvm.Backends.Compress.Laws as Compress
use distributed_uvm.Backends.Compress.Accounting.{IsAccounted, store_page-IsAccounted}
use distributed_uvm.Backends.Rdma.{
  RdmaBackend, RdmaState, SendWr, Verbs, Poll, nothing, new_rdma, transfer_wr, remote_offset,
  rdma_transfer, timeout_ns,
}
use distributed_uvm.Backends.Rdma as Rdma
use distributed_uvm.Backends.Rdma.Transfer.{rdma_transfer-ends}
use distributed_uvm.Backends.Rdma.Slab.{transfer-in_slab, alloc-free-alloc}
use distributed_uvm.Libduvm as Pool
use distributed_uvm.Libduvm.Ffi as Ffi
use distributed_uvm.Libduvm.Slots.{view, same_slot, IsNamed, store_lem, free_lem}

abbrev page : PageBuffer
page = replicate page_size 7

page-IsPage : IsPage page
page-IsPage = length-replicate {A = ℕ} page_size 7

fresh_memory-IsValid : Memory.IsValid (new_memory 0)
unfolding new_memory
fresh_memory-IsValid = record {
  distinct = tt;
  below = tt;
  id_fits = omega arith;
  next_fits = omega arith;
}

first_slot : (memory_ops.alloc_page (new_memory 0)).1 ≡ ok 0
unfolding new_memory memory_ops new_handle
first_slot = refl

memory_round_trip_example :
    ((memory_ops.load_page (after_store memory_contract (new_memory 0) 0 page) 0).1 ≡ ok page)
    × ((s : ℕ)
        → lookup s (after_store memory_contract (new_memory 0) 0 page).pages
          ≡ (if offset 0 == s then some page else lookup s (new_memory 0).pages))
    × ((s : ℕ)
        → lookup s (after_free memory_contract (new_memory 0) 0 page).pages
          ≡ lookup s (new_memory 0).pages)
memory_round_trip_example =
    memory_round_trip (new_memory 0) 0 page fresh_memory-IsValid page-IsPage first_slot

-- A codec that does not compress.
abbrev plain : Codec
plain = record {
  compress = λ bytes. bytes;
  decompress = λ bytes. some bytes;
  decompress-compress = λ bytes. refl;
}

fresh_compress-IsValid : Compress.IsValid (new_compress 0)
unfolding new_compress
fresh_compress-IsValid = record {
  distinct = tt;
  below = tt;
  id_fits = omega arith;
  next_fits = omega arith;
}

first_compressed : ((compress_ops plain).alloc_page (new_compress 0)).1 ≡ ok 0
unfolding new_compress compress_ops new_handle
first_compressed = refl

compress_round_trip_example :
    (((compress_ops plain).load_page
        (after_store (compress_contract plain) (new_compress 0) 0 page)
        0).1
      ≡ ok page)
    × ((s : ℕ)
        → Compress.contents plain (after_store (compress_contract plain) (new_compress 0) 0 page) s
          ≡ (if offset 0 == s then some page else Compress.contents plain (new_compress 0) s))
    × ((s : ℕ)
        → Compress.contents plain (after_free (compress_contract plain) (new_compress 0) 0 page) s
          ≡ Compress.contents plain (new_compress 0) s)
compress_round_trip_example =
    compress_round_trip plain (new_compress 0) 0 page fresh_compress-IsValid page-IsPage
      first_compressed

abbrev holding : CompressBackend
holding = record {
  pages = (1, 8 ∷ 9 ∷ []) ∷ [];
  next_offset = 2;
  max_pages = 4;
  backend_id = 0;
  bytes_stored_raw = 4096;
  bytes_stored_compressed = 2;
}

holding-IsAccounted : IsAccounted holding
holding-IsAccounted = record { raw_bytes = refl; held = refl }

store_page-IsAccounted_example :
    IsAccounted (store_page plain holding 1 page).0 ↔ (lookup (offset 1) holding.pages ≡ none)
store_page-IsAccounted_example = store_page-IsAccounted plain holding 1 page holding-IsAccounted

abbrev pool : Pool.Pool MemoryBackend
pool = (0, new_memory 0) ∷ []

only : (id : ℕ) (b : MemoryBackend) → lookup id pool ≡ some b → (id ≡ 0) × (new_memory 0 ≡ b)
unfolding lookup
only id b h = (ground (arith, h), ground (arith, h))

pool-IsValid : (id : ℕ) (b : MemoryBackend) → lookup id pool ≡ some b → memory_contract.IsValid b
pool-IsValid id b h =
    let (first, same) = only id b h in
    subst memory_contract.IsValid same (memory-IsValid (new_memory 0) fresh_memory-IsValid)

first_handle : (h : PageHandle) → (memory_ops.alloc_page (new_memory 0)).1 ≡ ok h → backend_id h ≡ 0
unfolding new_memory memory_ops
first_handle h got = (new_handle-parts 0 0 h (omega arith) got).1

pool-IsNamed : IsNamed memory_contract pool
pool-IsNamed id b h here got =
    let (first, same) = only id b here in
    let named : backend_id h ≡ 0 =
      first_handle h (subst (λ x. (memory_ops.alloc_page x).1 ≡ ok h) (sym same) got) in
    named ∙ sym first

pool_stores : (Pool.store memory_ops pool page).1 ≡ ok 0
unfolding Pool.store Pool.preferred lookup new_memory memory_ops new_handle
pool_stores = refl

store_lem_example :
    (view memory_contract pool 0 ≡ none)
    × ((g : PageHandle)
        → view memory_contract (Pool.store memory_ops pool page).0 g
          ≡ (if same_slot g 0 then some page else view memory_contract pool g))
store_lem_example =
    store_lem memory_contract pool page 0 page-IsPage pool-IsValid pool-IsNamed pool_stores

c_stores : (Ffi.duvm_store_page memory_ops (some page) (some pool)).1 ≡ ok 0
unfolding Ffi.duvm_store_page Pool.store Pool.preferred lookup new_memory memory_ops new_handle
c_stores = refl

store_load_lem_example :
    (Ffi.duvm_load_page memory_ops 0 true
      (Ffi.duvm_store_page memory_ops (some page) (some pool)).0).1
    ≡ ok (Ffi.success, some page)
store_load_lem_example =
    Ffi.store_load_lem memory_contract pool page 0 page-IsPage pool-IsValid pool-IsNamed c_stores
      (λ h. absurd (ground (arith, h)))

abbrev stored_pool : Pool.Pool MemoryBackend
stored_pool = (0, record (new_memory 0) { pages = (3, page) ∷ [] }) ∷ []

shown : view memory_contract stored_pool 3 ≡ some page
shown =
    unfold lookup backend_id offset in
    memory_contents (record (new_memory 0) { pages = (3, page) ∷ [] }) 3

free_lem_example :
    ((Pool.free memory_ops stored_pool 3).1 ≡ ok tt)
    × ((g : PageHandle)
        → view memory_contract (Pool.free memory_ops stored_pool 3).0 g
          ≡ (if same_slot g 3 then none else view memory_contract stored_pool g))
free_lem_example = free_lem memory_contract stored_pool 3 page shown

-- A card on which no transfer completes: the state is the time.
abbrev stuck : Verbs ℕ
stuck = record {
  post_send = λ wr v. (v, true);
  poll_cq = λ v. (v + 1, nothing);
  copy_in = λ bytes v. v;
  copy_out = λ v. [];
  clock = λ v. v;
}

abbrev slab : RdmaState
slab = record { remote_addr = 65536; remote_rkey = 9; remote_size = 16384 }

rdma_transfer-ends_example :
    (out : ℕ × Outcome (Unit {0})) × (rdma_transfer stuck (timeout_ns + 1) slab 0 4096 4096 true 0
      ≡ some out)
rdma_transfer-ends_example =
    rdma_transfer-ends stuck (λ v. omega arith) (timeout_ns + 1) slab 0 4096 4096 true 0
      (omega arith)

abbrev small_rdma : RdmaBackend
small_rdma = record (new_rdma 10) { max_pages = 4; pages_used = 3; backend_id = 10 }

abbrev fourth : PageHandle
fourth = 10 * 2 ^ 56 + 3

fourth_slot : (Rdma.alloc_page small_rdma).1 ≡ ok fourth
unfolding Rdma.alloc_page new_handle
fourth_slot = refl

transfer-in_slab_example :
    let wr : SendWr = transfer_wr slab 0 (remote_offset fourth) page_size true in
    (65536 ≤ wr.remote_addr) × (wr.remote_addr + wr.length ≤ 65536 + 16384)
transfer-in_slab_example =
    transfer-in_slab small_rdma fourth slab true (omega arith) fourth_slot (omega arith)
      (omega arith)

alloc-free-alloc_example :
    (Rdma.alloc_page (Rdma.free_page (Rdma.alloc_page small_rdma).0 0).0).1 ≡ ok fourth
alloc-free-alloc_example = alloc-free-alloc small_rdma 0 fourth (omega arith) fourth_slot
