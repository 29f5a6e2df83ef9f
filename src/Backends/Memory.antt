-- ===== src/Backends/Memory.antt =====
-- crates/duvm-backend-memory/src/lib.rs: pages in a hash map. The methods run one at a time here;
-- `alloc_page` reads the size of the map and then takes the next offset.
pub mod Laws
use distributed_uvm.Prelude.{
  ℕ, ◌+◌, ◌*◌, ◌%◌, ◌^◌, Bool, true, [], none, some, length, leb, if◌then◌else◌,
}
use distributed_uvm.Prelude.Outcome.{Outcome, ok, err, full, page_not_found}
use distributed_uvm.Prelude.HashMap.{HashMap, lookup, insert, remove}
use distributed_uvm.Common.Page.{PageHandle, PageBuffer, Tier, compressed, new_handle, offset}
use distributed_uvm.Backends.Trait.{DuvmBackend, BackendConfig}

pub record MemoryBackend : Type 0 where
  pub pages : HashMap PageBuffer
  pub next_offset : ℕ
  pub max_pages : ℕ
  pub backend_id : ℕ

unfoldable pub new_memory : ℕ → MemoryBackend
new_memory backend_id = record {
  pages = [];
  next_offset = 0;
  max_pages = 1024 * 1024;
  backend_id = backend_id;
}

init : MemoryBackend → BackendConfig → MemoryBackend × Outcome (Unit {0})
init b config = (record b { max_pages = config.max_pages }, ok tt)

alloc_page : MemoryBackend → MemoryBackend × Outcome PageHandle
alloc_page b = if leb b.max_pages (length b.pages) then (b, err full) else (
  record b { next_offset = (b.next_offset + 1) % 2 ^ 64 },
  new_handle b.backend_id b.next_offset,
)

free_page : MemoryBackend → PageHandle → MemoryBackend × Outcome (Unit {0})
free_page b handle = (record b { pages = remove (offset handle) b.pages }, ok tt)

store_page : MemoryBackend → PageHandle → PageBuffer → MemoryBackend × Outcome (Unit {0})
store_page b handle page = (record b { pages = insert (offset handle) page b.pages }, ok tt)

load_page : MemoryBackend → PageHandle → MemoryBackend × Outcome PageBuffer
load_page b handle = elim (lookup (offset handle) b.pages) [
  | some page ↦ (b, ok page)
  | none ↦ (b, err page_not_found)
]

capacity : MemoryBackend → ℕ × ℕ
capacity b = (b.max_pages, length b.pages)

shutdown : MemoryBackend → MemoryBackend × Outcome (Unit {0})
shutdown b = (record b { pages = [] }, ok tt)

-- `impl DuvmBackend for MemoryBackend`
unfoldable pub memory_ops : DuvmBackend MemoryBackend
unfolding init alloc_page free_page store_page load_page capacity shutdown
memory_ops = record {
  tier = λ b. compressed;
  init = init;
  alloc_page = alloc_page;
  free_page = free_page;
  store_page = store_page;
  load_page = load_page;
  capacity = capacity;
  latency_ns = λ b. 100;
  is_healthy = λ b. true;
  shutdown = shutdown;
}
