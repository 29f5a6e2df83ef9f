-- ===== src/Backends/Compress/Accounting.antt =====
-- The two byte counters of the compressing backend, from which the compression ratio is computed.
use distributed_uvm.Prelude.{
  ℕ, ◌+◌, ◌*◌, ◌%◌, ◌^◌, ◌≡◌, ◌↔◌, none, some, arith, length, Option-cases, inl, inr, [], ◌∷◌, List,
}
use distributed_uvm.Prelude.HashMap.{
  HashMap, lookup, insert, remove, remove_absent, IsDistinct, length-remove, length-insert_new,
  length-insert_old,
}
use distributed_uvm.Common.Page.{PageHandle, PageBuffer, page_size, offset}
use distributed_uvm.Backends.Compress.{CompressBackend, Codec, store_page, free_page}

-- The bytes that the map holds.
abbrev pub held_bytes : HashMap (List ℕ) → ℕ
held_bytes [] = 0
held_bytes ((k, held) ∷ ps) = length held + held_bytes ps

held_bytes-remove :
    (k : ℕ) (held : List ℕ) (ps : HashMap (List ℕ))
    → IsDistinct ps
    → lookup k ps ≡ some held
    → held_bytes (remove k ps) + length held ≡ held_bytes ps
unfolding lookup remove
held_bytes-remove k held [] d e = absurd (ground (arith, e))
held_bytes-remove k held ((j, w) ∷ ps) d e =
    ground (arith, held_bytes-remove k held ps d.1, remove_absent k ps)

held_bytes-insert_new :
    (k : ℕ) (held : List ℕ) (ps : HashMap (List ℕ))
    → lookup k ps ≡ none
    → held_bytes (insert k held ps) ≡ held_bytes ps + length held
unfolding lookup insert
held_bytes-insert_new k held [] e = omega arith
held_bytes-insert_new k held ((j, w) ∷ ps) e = ground (arith, held_bytes-insert_new k held ps)

-- The counters agree with the map, up to their wrap-around.
pub record IsAccounted (b : CompressBackend) : Type 0 where
  pub raw_bytes : b.bytes_stored_raw ≡ page_size * length b.pages % 2 ^ 64
  pub held : b.bytes_stored_compressed ≡ held_bytes b.pages % 2 ^ 64

-- A free keeps the two byte counters of a compression backend with distinct slots right.
pub free_page-IsAccounted :
    (b : CompressBackend) (h : PageHandle)
    → IsDistinct b.pages
    → IsAccounted b
    → IsAccounted (free_page b h).0
unfolding free_page
free_page-IsAccounted b h d a = elim (Option-cases (lookup (offset h) b.pages)) [
  | inl e ↦ ground (arith, e)
  | inr (bytes, e) ↦ ground (
    arith,
    e,
    length-remove (offset h) bytes b.pages d e,
    held_bytes-remove (offset h) bytes b.pages d e,
  )
]

module _ (codec : Codec) where
  store_new :
      (b : CompressBackend) (h : PageHandle) (page : PageBuffer)
      → IsAccounted b
      → lookup (offset h) b.pages ≡ none
      → IsAccounted (store_page codec b h page).0
  unfolding store_page
  store_new b h page a e = ground (
    arith,
    length-insert_new (offset h) (codec.compress page) b.pages e,
    held_bytes-insert_new (offset h) (codec.compress page) b.pages e,
  )

  store_old :
      (b : CompressBackend) (h : PageHandle) (page : PageBuffer) (bytes : List ℕ)
      → IsAccounted b
      → lookup (offset h) b.pages ≡ some bytes
      → ¬ IsAccounted (store_page codec b h page).0
  unfolding store_page
  store_old b h page bytes a e a' =
      omega
        (arith, a'.raw_bytes, length-insert_old (offset h) (codec.compress page) bytes b.pages e)

  -- A store into the compression backend keeps its two byte counters right if and only if the slot
  -- was empty.
  pub store_page-IsAccounted :
      (b : CompressBackend) (h : PageHandle) (page : PageBuffer)
      → IsAccounted b
      → IsAccounted (store_page codec b h page).0 ↔ (lookup (offset h) b.pages ≡ none)
  store_page-IsAccounted b h page a = (
    λ a'. elim (Option-cases (lookup (offset h) b.pages)) [
      | inl e ↦ e
      | inr (bytes, e) ↦ absurd (store_old b h page bytes a e a')
    ],
    store_new b h page a,
  )
