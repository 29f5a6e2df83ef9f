-- ===== src/Memserver/Threads.antt =====
-- The threads of crates/duvm-memserver/src/main.rs on one page store, an atomic access at a time: the
-- compare-and-swap loop of `alloc_offset`, and the accesses to the pages under their lock. A client
-- stores only at offsets that it was given and has not freed. Loads, status requests and frees of
-- an offset without a page change nothing that is shared, and are left out.
pub mod Count
pub mod Invariant
pub mod Changes
pub mod Promise
use distributed_uvm.Prelude.{
  ℕ, zero, suc, ◌+◌, ◌-◌, ◌%◌, ◌^◌, ◌≡◌, ◌<◌, ◌≤◌, refl, ap, ◌∙◌, Bool, true, false, Option, none,
  some, List, [], ◌∷◌, arith, leb, ◌==◌, if◌then◌else◌, get_elem?, set, In, Option-cases,
  Bool-cases, inl, inr,
}
use distributed_uvm.Prelude.HashMap.{lookup, remove}
use distributed_uvm.Common.Page.{PageBuffer}
use distributed_uvm.Memserver.{PageStore, new_store, store, alloc_offset, free}

-- Where a thread is: between two requests, at the head of the loop of `alloc_offset`, with the
-- number that it has read and found below the limit, after the exchange, or in `free` after the
-- removal, with the lock.
pub data Pc : Type 0 where
  idle : Pc
  reading : Pc
  has_read : ℕ → Pc
  reserved : Pc
  subtracting : Pc

-- `self.used.load` and the test of the limit.
unfoldable pub load_used : PageStore → Pc
load_used s = if leb s.max_pages s.used then idle else has_read s.used

-- `compare_exchange(used, used + 1)`.
unfoldable pub compare_exchange : ℕ → PageStore → PageStore × Pc
compare_exchange used s =
    if s.used == used then (record s { used = used + 1 }, reserved) else (s, reading)

-- `self.next_offset.fetch_add(1)`; the offset is its old value.
unfoldable pub fetch_add : PageStore → PageStore
fetch_add s = record s { next_offset = (s.next_offset + 1) % 2 ^ 64 }

-- `self.used.fetch_sub(1)`.
unfoldable pub fetch_sub : PageStore → PageStore
fetch_sub s = record s { used = (s.used + (2 ^ 64 - 1)) % 2 ^ 64 }

abbrev pub without_page : ℕ → PageStore → PageStore
without_page offset s = record s { pages = remove offset s.pages }

-- The first occurrence is dropped.
abbrev pub erase : ℕ → List ℕ → List ℕ
erase n [] = []
erase n (m ∷ ms) = if m == n then ms else m ∷ erase n ms

-- The shared store with its lock, and the threads. No code keeps the last two: the offsets given out,
-- the latest first, and those of them that were not freed since.
pub record Server : Type 0 where
  pub store : PageStore
  pub locked : Bool
  pub threads : List Pc
  pub given : List ℕ
  pub live : List ℕ

abbrev pub move : Server → ℕ → Pc → Server
move s i pc = record s { threads = set s.threads i pc }

pub data Step (s : Server) : Server → Type 0 where
  connected : Step s (record s { threads = idle ∷ s.threads })
  alloc_called : (i : ℕ) → get_elem? s.threads i ≡ some idle → Step s (move s i reading)
  used_loaded :
      (i : ℕ) → get_elem? s.threads i ≡ some reading → Step s (move s i (load_used s.store))
  exchanged :
      (i used : ℕ)
      → get_elem? s.threads i ≡ some (has_read used)
      → Step s (record (move s i (compare_exchange used s.store).1) {
        store = (compare_exchange used s.store).0;
      })
  offset_given :
      (i : ℕ)
      → get_elem? s.threads i ≡ some reserved
      → Step s (record (move s i idle) {
        store = fetch_add s.store;
        given = s.store.next_offset ∷ s.given;
        live = s.store.next_offset ∷ s.live;
      })
  page_stored :
      (i offset : ℕ) (page : PageBuffer)
      → get_elem? s.threads i ≡ some idle
      → s.locked ≡ false
      → In offset s.live
      → Step s (record s { store = (store s.store offset page).0 })
  page_removed :
      (i offset : ℕ) (page : PageBuffer)
      → get_elem? s.threads i ≡ some idle
      → s.locked ≡ false
      → lookup offset s.store.pages ≡ some page
      → Step s (record (move s i subtracting) {
        store = without_page offset s.store;
        locked = true;
        live = erase offset s.live;
      })
  used_subtracted :
      (i : ℕ)
      → get_elem? s.threads i ≡ some subtracting
      → Step s (record (move s i idle) { store = fetch_sub s.store; locked = false })

pub data Reach (max_pages : ℕ) : Server → Type 0 where
  started :
      Reach max_pages (record {
        store = new_store max_pages;
        locked = false;
        threads = [];
        given = [];
        live = [];
      })
  later : {s t : Server} → Reach max_pages s → Step s t → Reach max_pages t

-- A thread alone takes the steps of `alloc_offset` and of `free`.
pub alloc_offset_alone :
    (s : PageStore)
    → alloc_offset s ≡ (elim (load_used s) [
      | has_read used ↦ elim (compare_exchange used s).1 [
        | reserved ↦
            (fetch_add (compare_exchange used s).0, some (compare_exchange used s).0.next_offset)
        | _ ↦ (s, none)
      ]
      | _ ↦ (s, none)
    ])
unfolding alloc_offset load_used compare_exchange fetch_add
alloc_offset_alone s = ground arith

pub free_alone :
    (s : PageStore) (offset : ℕ)
    → free s offset ≡ elim (lookup offset s.pages) [
      | none ↦ (s, false)
      | some page ↦ (fetch_sub (without_page offset s), true)
    ]
unfolding free fetch_sub
free_alone s offset = ground arith
