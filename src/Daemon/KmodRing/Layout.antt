-- ===== src/Daemon/KmodRing/Layout.antt =====
-- `open` of crates/duvm-daemon/src/kmod_ring.rs: where the parts of the region shared with the kernel lie.
-- Open has the calls that map it; the numbers of the header are `u32`.
use distributed_uvm.Prelude.{
  ℕ, ◌+◌, ◌-◌, ◌*◌, ◌/◌, ◌%◌, ◌^◌, ◌≤◌, ◌<◌, ◌≡◌, true, arith, ◌==◌, if◌then◌else◌, inl, inr,
  Bool-cases,
}
use distributed_uvm.Prelude.Outcome.{Outcome, ok, err, bad_data}
use distributed_uvm.Common.Page.{page_size}

-- What `open` reads of the header.
pub record Header : Type 0 where
  pub capacity : ℕ
  pub version : ℕ
  pub staging_pages : ℕ

-- The offsets from the base of the mapping, its size, and the mask.
pub record Layout : Type 0 where
  pub requests : ℕ
  pub completions : ℕ
  pub staging : ℕ
  pub mmap_len : ℕ
  pub mask : ℕ

-- `align_up(val, PAGE_SIZE)`: the mask clears the low 12 bits.
unfoldable pub align_up : ℕ → ℕ
align_up val = (val + page_size - 1) / page_size * page_size

abbrev pub entry_size : ℕ
entry_size = 64

-- The subtraction of `capacity - 1` wraps in a release build.
unfoldable pub layout : Header → Outcome Layout
layout header =
    if header.version == 2
    then (let header_sz = page_size in
        let req_sz = align_up (header.capacity * entry_size) in
        let comp_sz = align_up (header.capacity * entry_size) in
        let staging_sz = header.staging_pages * page_size in
        ok (record {
          requests = header_sz;
          completions = header_sz + req_sz;
          staging = header_sz + req_sz + comp_sz;
          mmap_len = header_sz + req_sz + comp_sz + staging_sz;
          mask = (header.capacity + 2 ^ 32 - 1) % 2 ^ 32;
        }))
    else err bad_data

-- The header, the requests, the completions and the staging pages lie one after the other in the
-- mapping, whose size does not wrap; the mask is that of the capacity.
pub record IsDisjoint (header : Header) (l : Layout) : Type 0 where
  pub version : header.version ≡ 2
  pub masked : 0 < header.capacity → l.mask + 1 ≡ header.capacity
  pub after_header : page_size ≤ l.requests
  pub after_requests : l.requests + header.capacity * entry_size ≤ l.completions
  pub after_completions : l.completions + header.capacity * entry_size ≤ l.staging
  pub whole : l.staging + header.staging_pages * page_size ≡ l.mmap_len
  pub aligned : l.staging % page_size ≡ 0
  pub fits : l.mmap_len < 2 ^ 64

align_up_lem :
    (n : ℕ) → (n ≤ align_up n) × (align_up n < n + page_size) × (align_up n % page_size ≡ 0)
unfolding align_up
align_up_lem n = (omega arith, omega arith, omega arith)

parts :
    (header : Header) (l : Layout)
    → layout header ≡ ok l
    → (header.version == 2) ≡ true
    → let size = align_up (header.capacity * entry_size) in
      (l.requests ≡ page_size)
      × (l.completions ≡ page_size + size)
      × (l.staging ≡ page_size + size + size)
      × (l.mmap_len ≡ page_size + size + size + header.staging_pages * page_size)
unfolding layout
parts header l h t =
    (ground (arith, h, t), ground (arith, h, t), ground (arith, h, t), ground (arith, h, t))

mask_of :
    (header : Header) (l : Layout)
    → header.capacity < 2 ^ 32
    → 0 < header.capacity
    → layout header ≡ ok l
    → (header.version == 2) ≡ true
    → l.mask + 1 ≡ header.capacity
unfolding layout
mask_of header l small some_entry h t =
    let mask : l.mask ≡ (header.capacity + 2 ^ 32 - 1) % 2 ^ 32 = ground (arith, h, t) in
    omega (arith, mask, small, some_entry)

pub layout-IsDisjoint :
    (header : Header) (l : Layout)
    → header.capacity < 2 ^ 32
    → header.staging_pages < 2 ^ 32
    → layout header ≡ ok l
    → IsDisjoint header l
layout-IsDisjoint header l small few h = elim (Bool-cases (header.version == 2)) [
  | inr f ↦ absurd (unfold layout in ground (arith, h, f))
  | inl t ↦
      let size = header.capacity * entry_size in
      let (above, tight, whole) = align_up_lem size in
      let (e1, e2, e3, e4) = parts header l h t in
      record {
        version = ground (arith, t);
        masked = λ some_entry. mask_of header l small some_entry h t;
        after_header = omega (arith, e1);
        after_requests = omega (arith, e1, e2, above);
        after_completions = omega (arith, e2, e3, above);
        whole = omega (arith, e3, e4);
        aligned = omega (arith, e3, whole);
        fits = omega (arith, e4, tight, small, few);
      }
]
