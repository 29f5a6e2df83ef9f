-- ===== src/Backends/Compress.antt =====
-- crates/duvm-backend-compress/src/lib.rs: pages compressed in a hash map, with two counters of the
-- bytes held. LZ4 (the crate lz4_flex) is a parameter.
pub mod Laws
pub mod Accounting
use distributed_uvm.Prelude.{
  ℕ, ◌+◌, ◌-◌, ◌*◌, ◌%◌, ◌^◌, ◌≡◌, Bool, true, List, [], Option, none, some, length, leb, ◌==◌,
  if◌then◌else◌,
}
use distributed_uvm.Prelude.Outcome.{
  Outcome, ok, err, full, page_not_found, bad_data, size_mismatch,
}
use distributed_uvm.Prelude.HashMap.{HashMap, lookup, insert, remove}
use distributed_uvm.Common.Page.{
  PageHandle, PageBuffer, page_size, Tier, compressed, new_handle, offset,
}
use distributed_uvm.Backends.Trait.{DuvmBackend, BackendConfig}

-- `compress_prepend_size` and `decompress_size_prepended`; `none` is a decompression error. The law
-- is what lz4_flex documents: decompression gives back what was compressed.
pub record Codec : Type 0 where
  pub compress : List ℕ → List ℕ
  pub decompress : List ℕ → Option (List ℕ)
  pub decompress-compress : (page : List ℕ) → decompress (compress page) ≡ some page

pub record CompressBackend : Type 0 where
  pub pages : HashMap (List ℕ)
  pub next_offset : ℕ
  pub max_pages : ℕ
  pub backend_id : ℕ
  pub bytes_stored_raw : ℕ
  pub bytes_stored_compressed : ℕ

unfoldable pub new_compress : ℕ → CompressBackend
new_compress backend_id = record {
  pages = [];
  next_offset = 0;
  max_pages = 1024 * 1024;
  backend_id = backend_id;
  bytes_stored_raw = 0;
  bytes_stored_compressed = 0;
}

-- `fetch_add` and `fetch_sub` on an `AtomicU64` wrap.
abbrev pub fetch_add : ℕ → ℕ → ℕ
fetch_add counter n = (counter + n) % 2 ^ 64

abbrev pub fetch_sub : ℕ → ℕ → ℕ
fetch_sub counter n = (counter + 2 ^ 64 - n % 2 ^ 64) % 2 ^ 64

init : CompressBackend → BackendConfig → CompressBackend × Outcome (Unit {0})
init b config = (record b { max_pages = config.max_pages }, ok tt)

alloc_page : CompressBackend → CompressBackend × Outcome PageHandle
alloc_page b = if leb b.max_pages (length b.pages) then (b, err full) else (
  record b { next_offset = (b.next_offset + 1) % 2 ^ 64 },
  new_handle b.backend_id b.next_offset,
)

unfoldable pub free_page : CompressBackend → PageHandle → CompressBackend × Outcome (Unit {0})
free_page b handle = elim (lookup (offset handle) b.pages) [
  | some held ↦ (
    record b {
      pages = remove (offset handle) b.pages;
      bytes_stored_raw = fetch_sub b.bytes_stored_raw page_size;
      bytes_stored_compressed = fetch_sub b.bytes_stored_compressed (length held);
    },
    ok tt,
  )
  | none ↦ (b, ok tt)
]

module _ (codec : Codec) where
  unfoldable pub store_page :
      CompressBackend → PageHandle → PageBuffer → CompressBackend × Outcome (Unit {0})
  store_page b handle page =
      let held = codec.compress page in
      (
        record b {
          pages = insert (offset handle) held b.pages;
          bytes_stored_raw = fetch_add b.bytes_stored_raw page_size;
          bytes_stored_compressed = fetch_add b.bytes_stored_compressed (length held);
        },
        ok tt,
      )

  -- What `load_page` makes of the stored bytes.
  unfoldable pub unpack : List ℕ → Outcome PageBuffer
  unpack held = elim (codec.decompress held) [
    | none ↦ err bad_data
    | some page ↦ if length page == page_size then ok page else err size_mismatch
  ]

  load_page : CompressBackend → PageHandle → CompressBackend × Outcome PageBuffer
  unfolding unpack
  load_page b handle = elim (lookup (offset handle) b.pages) [
    | some held ↦ (b, unpack held)
    | none ↦ (b, err page_not_found)
  ]

capacity : CompressBackend → ℕ × ℕ
capacity b = (b.max_pages, length b.pages)

shutdown : CompressBackend → CompressBackend × Outcome (Unit {0})
shutdown b = (record b { pages = []; bytes_stored_raw = 0; bytes_stored_compressed = 0 }, ok tt)

-- `impl DuvmBackend for CompressBackend`
unfoldable pub compress_ops : Codec → DuvmBackend CompressBackend
unfolding init alloc_page free_page store_page load_page capacity shutdown
compress_ops codec = record {
  tier = λ b. compressed;
  init = init;
  alloc_page = alloc_page;
  free_page = free_page;
  store_page = store_page codec;
  load_page = load_page codec;
  capacity = capacity;
  latency_ns = λ b. 3000;
  is_healthy = λ b. true;
  shutdown = shutdown;
}
