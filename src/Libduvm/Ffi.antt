-- ===== src/Libduvm/Ffi.antt =====
-- crates/libduvm/src/ffi.rs: the C interface of the pool. The global pool is the state; a null pointer is
-- `none`, and an `i32` is its 32 bits. A panic does not return.
use distributed_uvm.Prelude.{
  ℕ, ◌-◌, ◌^◌, ◌≡◌, ◌≢◌, ap, ◌∙◌, Bool, true, false, Option, none, some, arith, inl, inr,
}
use distributed_uvm.Prelude.Outcome.{Outcome, Outcome-cases, ok, err, panic}
use distributed_uvm.Prelude.HashMap.{lookup}
use distributed_uvm.Common.Page.{PageHandle, PageBuffer, invalid, raw, from_raw}
use distributed_uvm.Backends.Trait.{DuvmBackend}
use distributed_uvm.Backends.Contract.{Contract, IsPage}
use distributed_uvm.Libduvm.{Pool, standalone, store, load, free, capacity}
use distributed_uvm.Libduvm.Slots.{view, IsNamed, store_lem, load_lem}

abbrev pub success : ℕ
success = 0

-- `-1`
abbrev pub failure : ℕ
failure = 2 ^ 32 - 1

-- `GLOBAL_POOL`
abbrev pub Global : Type 0 → Type 0
Global B = Option (Pool B)

module _ {B : Type 0} (ops : DuvmBackend B) where
  -- The two backends that `Pool::standalone` makes. A pool that is there is never replaced.
  unfoldable pub duvm_init : B → B → Global B → Global B × Outcome ℕ
  duvm_init mem comp g = elim (standalone ops mem comp) [
    | panic ↦ (g, panic)
    | err x ↦ (g, ok failure)
    | ok pool ↦ elim g [ some p ↦ (some p, ok failure) | none ↦ (some pool, ok success) ]
  ]

  unfoldable pub duvm_store_page : Option PageBuffer → Global B → Global B × Outcome PageHandle
  duvm_store_page none g = (g, ok invalid)
  duvm_store_page (some page) none = (none, ok invalid)
  duvm_store_page (some page) (some pool) =
      let (pool', r) = store ops pool page in
      elim r [
        | ok handle ↦ (some pool', ok (raw handle))
        | err x ↦ (some pool', ok invalid)
        | panic ↦ (some pool', panic)
      ]

  -- The status, and what is copied to the caller's buffer.
  unfoldable pub duvm_load_page :
      PageHandle → Bool → Global B → Global B × Outcome (ℕ × Option PageBuffer)
  duvm_load_page handle false g = (g, ok (failure, none))
  duvm_load_page handle true none = (none, ok (failure, none))
  duvm_load_page handle true (some pool) =
      let (pool', r) = load ops pool (from_raw handle) in
      elim r [
        | ok page ↦ (some pool', ok (success, some page))
        | err x ↦ (some pool', ok (failure, none))
        | panic ↦ (some pool', panic)
      ]

  unfoldable pub duvm_free_page : PageHandle → Global B → Global B × Outcome ℕ
  duvm_free_page handle none = (none, ok failure)
  duvm_free_page handle (some pool) =
      let (pool', r) = free ops pool (from_raw handle) in
      elim r [
        | ok u ↦ (some pool', ok success)
        | err x ↦ (some pool', ok failure)
        | panic ↦ (some pool', panic)
      ]

  unfoldable pub duvm_capacity_total : Global B → ℕ
  duvm_capacity_total none = 0
  duvm_capacity_total (some pool) = (capacity ops pool).0

  unfoldable pub duvm_capacity_used : Global B → ℕ
  duvm_capacity_used none = 0
  duvm_capacity_used (some pool) = (capacity ops pool).1

module _ {B : Type 0} {ops : DuvmBackend B} (c : Contract ops) where
  -- A store that does not return the error value comes from a store of the pool.
  stored :
      (p : Pool B) (page : PageBuffer) (r : PageHandle)
      → (duvm_store_page ops (some page) (some p)).1 ≡ ok r
      → r ≢ invalid
      → ((store ops p page).1 ≡ ok r)
        × ((duvm_store_page ops (some page) (some p)).0 ≡ some (store ops p page).0)
  unfolding duvm_store_page
  stored p page r h valid = elim (Outcome-cases (store ops p page).1) [
    | inl (x, t) ↦ (ground (arith, h, t), ground (arith, t))
    | inr (inl (x, t)) ↦ let same : r ≡ invalid = ground (arith, h, t) in absurd (valid same)
    | inr (inr t) ↦ absurd (ground (arith, h, t))
  ]

  loaded :
      (p : Pool B) (page : PageBuffer) (r : PageHandle)
      → (load ops p r).1 ≡ ok page
      → (duvm_load_page ops r true (some p)).1 ≡ ok (success, some page)
  unfolding duvm_load_page
  loaded p page r h = ground (arith, h)

  -- Through the C interface, in a pool of valid backends whose handles carry their ids, a store of
  -- a whole page that does not return the error value is followed by a load of the returned handle
  -- that reports success and copies the page.
  pub store_load_lem :
      (p : Pool B) (page : PageBuffer) (r : PageHandle)
      → IsPage page
      → ((id : ℕ) (b : B) → lookup id p ≡ some b → c.IsValid b)
      → IsNamed c p
      → (duvm_store_page ops (some page) (some p)).1 ≡ ok r
      → r ≢ invalid
      → (duvm_load_page ops r true (duvm_store_page ops (some page) (some p)).0).1
        ≡ ok (success, some page)
  store_load_lem p page r typed valid named h good =
      let (done, after) = stored p page r h good in
      let (fresh, shows) = store_lem c p page r typed valid named done in
      let shown : view c (store ops p page).0 r ≡ some page = ground (arith, shows r) in
      let (read, kept) = load_lem c (store ops p page).0 r page shown in
      ap (λ g. (duvm_load_page ops r true g).1) after ∙ loaded (store ops p page).0 page r read
