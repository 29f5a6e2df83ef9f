-- ===== src/Backends/Compress/Laws.antt =====
-- The compressing backend keeps the contract of a backend, given that LZ4 round-trips.
use distributed_uvm.Prelude.{
  ℕ, ◌+◌, ◌%◌, ◌^◌, ◌≤◌, ◌<◌, ◌≡◌, ◌≢◌, refl, subst, sym, ap, ◌∙◌, Option, none, some, arith,
  length, leb, ◌==◌, if◌then◌else◌, Option-cases, inl, inr, List, Bool-cases, false,
}
use mathlib.Core.Path.{subst₂}
use native.Mathlib.Decide.{dec_lt}
use distributed_uvm.Prelude.Outcome.{ok, err, panic}
use distributed_uvm.Prelude.HashMap.{
  HashMap, lookup, remove, lookup-insert, lookup-remove, remove_absent, IsDistinct,
  insert-IsDistinct, remove-IsDistinct, All-insert, All-remove,
}
use distributed_uvm.Common.Page.{PageHandle, PageBuffer, offset}
use distributed_uvm.Common.Page.Laws.{new_handle-parts, new_handle_panics}
use distributed_uvm.Backends.Slots.{IsBelow, IsBelow-mono, lookup_above}
use distributed_uvm.Backends.Contract.{Contract, IsPage}
use distributed_uvm.Backends.Compress.{
  CompressBackend, Codec, compress_ops, alloc_page, store_page, free_page, load_page, unpack,
}

-- As for the memory backend: every stored page stands below the next offset.
pub record IsValid (b : CompressBackend) : Type 0 where
  pub distinct : IsDistinct b.pages
  pub below : IsBelow b.next_offset b.pages
  pub id_fits : b.backend_id < 2 ^ 8
  pub next_fits : b.next_offset ≤ 2 ^ 56

abbrev pub IsAllocated : CompressBackend → ℕ → Type 0
IsAllocated b s = s < b.next_offset

no_panic :
    (b : CompressBackend)
    → leb b.max_pages (length b.pages) ≡ false
    → (alloc_page b).1 ≢ panic
    → b.next_offset < 2 ^ 56
unfolding alloc_page
no_panic b e h = elim (dec_lt b.next_offset (2 ^ 56)) [
  | yes p ↦ p
  | no p ↦
      absurd (h (ground (arith, e, new_handle_panics b.backend_id b.next_offset (omega arith))))
]

alloc-IsValid :
    (b : CompressBackend) → IsValid b → (alloc_page b).1 ≢ panic → IsValid (alloc_page b).0
unfolding alloc_page
alloc-IsValid b v h = elim (Bool-cases (leb b.max_pages (length b.pages))) [
  | inl e ↦ rw e v
  | inr e ↦
      let fits = no_panic b e h in
      rw e (record {
        distinct = v.distinct;
        below =
            IsBelow-mono b.next_offset ((b.next_offset + 1) % 2 ^ 64) b.pages (omega arith) v.below;
        id_fits = v.id_fits;
        next_fits = omega arith;
      })
]

alloc_fresh :
    (b : CompressBackend) (h : PageHandle)
    → IsValid b
    → (alloc_page b).1 ≡ ok h
    → (lookup (offset h) b.pages ≡ none) × IsAllocated (alloc_page b).0 (offset h)
unfolding alloc_page
alloc_fresh b h v e = ground (
  arith,
  new_handle-parts b.backend_id b.next_offset h v.id_fits,
  lookup_above b.next_offset b.pages v.below,
)

-- Freeing an absent slot leaves the map as it is, which is what removing it does.
pub pages-free_page :
    (b : CompressBackend) (h : PageHandle) → (free_page b h).0.pages ≡ remove (offset h) b.pages
unfolding free_page
pages-free_page b h = ground (arith, remove_absent (offset h) b.pages)

pages-alloc_page : (b : CompressBackend) → (alloc_page b).0.pages ≡ b.pages
unfolding alloc_page
pages-alloc_page b = ground arith

free_keeps :
    (b : CompressBackend) (h : PageHandle)
    → ((free_page b h).0.next_offset ≡ b.next_offset)
      × ((free_page b h).0.backend_id ≡ b.backend_id)
unfolding free_page
free_keeps b h = ground arith

free-IsValid : (b : CompressBackend) (h : PageHandle) → IsValid b → IsValid (free_page b h).0
free-IsValid b h v = record {
  distinct = rw (pages-free_page b h) (remove-IsDistinct (offset h) b.pages v.distinct);
  below =
      subst₂ (λ (n : ℕ) (ps : HashMap (List ℕ)). IsBelow n ps) (sym (free_keeps b h).0)
        (sym (pages-free_page b h)) (All-remove _ (offset h) b.pages v.below);
  id_fits = omega (arith, free_keeps b h, v.id_fits);
  next_fits = omega (arith, free_keeps b h, v.next_fits);
}

module _ (codec : Codec) where
  -- The page that a slot holds, where its bytes decompress to one.
  abbrev pub view : Option (List ℕ) → Option PageBuffer
  view none = none
  view (some held) = elim (unpack codec held) [ ok page ↦ some page | err e ↦ none | panic ↦ none ]

  abbrev pub contents : CompressBackend → ℕ → Option PageBuffer
  contents b s = view (lookup s b.pages)

  -- A page that was compressed unpacks to itself.
  unpack-compress : (page : PageBuffer) → IsPage page → unpack codec (codec.compress page) ≡ ok page
  unfolding unpack
  unpack-compress page p = ground (arith, codec.decompress-compress page, p)

  view-fresh : (b : CompressBackend) (s : ℕ) → lookup s b.pages ≡ none → contents b s ≡ none
  view-fresh b s e = ap view e

  load-IsValid :
      (b : CompressBackend) (h : PageHandle) → IsValid b → IsValid (load_page codec b h).0
  unfolding load_page
  load-IsValid b h v = elim (Option-cases (lookup (offset h) b.pages)) [
    | inl e ↦ subst IsValid (ground (arith, e)) v
    | inr (page, e) ↦ subst IsValid (ground (arith, e)) v
  ]

  store-IsValid :
      (b : CompressBackend) (h : PageHandle) (page : PageBuffer)
      → IsValid b
      → IsAllocated b (offset h)
      → IsValid (store_page codec b h page).0
  unfolding store_page
  store-IsValid b h page v a = record {
    distinct = insert-IsDistinct (offset h) (codec.compress page) b.pages v.distinct;
    below = All-insert _ (offset h) (codec.compress page) b.pages a v.below;
    id_fits = v.id_fits;
    next_fits = v.next_fits;
  }

  store_contents :
      (b : CompressBackend) (h : PageHandle) (page : PageBuffer) (s : ℕ)
      → IsPage page
      → contents (store_page codec b h page).0 s
        ≡ (if offset h == s then some page else contents b s)
  unfolding store_page
  store_contents b h page s p =
      ground
        (arith, lookup-insert s (offset h) (codec.compress page) b.pages, unpack-compress page p)

  store_frame :
      (b : CompressBackend) (h : PageHandle) (page : PageBuffer) (s : ℕ)
      → offset h ≢ s
      → contents (store_page codec b h page).0 s ≡ contents b s
  unfolding store_page
  store_frame b h page s ne =
      ap view (ground (arith, lookup-insert s (offset h) (codec.compress page) b.pages))

  load_result :
      (b : CompressBackend) (h : PageHandle) (page : PageBuffer)
      → contents b (offset h) ≡ some page
      → (load_page codec b h).1 ≡ ok page
  unfolding load_page
  load_result b h page e = ground (arith, e)

  free_contents :
      (b : CompressBackend) (h : PageHandle) (s : ℕ)
      → contents (free_page b h).0 s ≡ (if offset h == s then none else contents b s)
  free_contents b h s =
      ap (λ ps. view (lookup s ps)) (pages-free_page b h)
      ∙ ground (arith, lookup-remove s (offset h) b.pages)

  pages-load_page : (b : CompressBackend) (h : PageHandle) → (load_page codec b h).0.pages ≡ b.pages
  unfolding load_page
  pages-load_page b h = ground arith

  -- The compressing backend is a map from slots to pages, as the contract says.
  pub compress_contract : Contract (compress_ops codec)
  unfolding compress_ops
  compress_contract = record {
    IsValid = IsValid;
    contents = contents;
    IsAllocated = IsAllocated;
    alloc_valid = alloc-IsValid;
    alloc_contents = λ b s. ap (λ ps. view (lookup s ps)) (pages-alloc_page b);
    alloc_fresh = λ b h v e. let f = alloc_fresh b h v e in (view-fresh b (offset h) f.0, f.1);
    store_valid = store-IsValid;
    store_contents = λ b h page s p e. store_contents b h page s p;
    store_frame = store_frame;
    load_valid = load-IsValid;
    load_contents = λ b h s. ap (λ ps. view (lookup s ps)) (pages-load_page b h);
    load_result = load_result;
    free_valid = free-IsValid;
    free_contents = free_contents;
    free_result = λ b h. ground arith;
  }

  -- What the contract speaks of.
  pub compress-IsValid : (b : CompressBackend) → IsValid b → compress_contract.IsValid b
  unfolding compress_contract
  compress-IsValid b v = v

  pub compress_contents :
      (b : CompressBackend) (s : ℕ) → compress_contract.contents b s ≡ contents b s
  unfolding compress_contract
  compress_contents b s = refl
