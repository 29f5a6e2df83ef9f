-- ===== src/Memserver/Threads/Invariant.antt =====
-- What holds in every interleaving of the server's threads: the count of used pages, and room for
-- every page that was promised.
use distributed_uvm.Prelude.{
  ℕ, suc, ◌+◌, ◌^◌, ◌≡◌, ◌<◌, ◌≤◌, refl, true, some, arith, leb, ◌==◌, get_elem?, set, In,
  Option-cases, Bool-cases, inl, inr, length, Every, Every-set, Every-get_elem?,
}
use distributed_uvm.Prelude.HashMap.{lookup, insert, contains_key, IsDistinct}
use distributed_uvm.Common.Page.{PageBuffer}
use distributed_uvm.Memserver.{store}
use distributed_uvm.Memserver.Threads.{
  Pc, idle, reading, has_read, reserved, load_used, compare_exchange, Server, move,
}
use distributed_uvm.Memserver.Threads.Count.{weight, in_flight, in_flight-set, Owned, spare}

-- A number that was read was below the limit.
abbrev pub Fits : ℕ → Pc → Type 0
Fits max_pages (has_read used) = used < max_pages
Fits max_pages _ = Unit

pub record IsKept (max_pages : ℕ) (s : Server) : Type 0 where
  pub capacity : s.store.max_pages ≡ max_pages
  pub distinct : IsDistinct s.store.pages
  pub owned : Owned s.live s.store.pages
  pub counted : s.store.used ≡ length s.live + in_flight s.threads
  pub limited : s.store.used ≤ max_pages
  pub reads : Every (Fits max_pages) s.threads
  pub next : s.store.next_offset ≡ length s.given
  pub in_turn : (i offset : ℕ) → get_elem? s.given i ≡ some offset → offset + suc i ≡ length s.given

-- The store of a page at a live offset is not refused.
pub accepts :
    (max_pages : ℕ) (s : Server) (offset : ℕ) (page : PageBuffer)
    → IsKept max_pages s
    → In offset s.live
    → store s.store offset page
      ≡ (record (s.store) { pages = insert offset page s.store.pages }, true)
unfolding store contains_key
accepts max_pages s offset page v h = elim (Option-cases (lookup offset s.store.pages)) [
  | inr (old, t) ↦ ground (arith, t)
  | inl t ↦
      let less = spare offset s.live s.store.pages v.distinct v.owned h t in
      let (c, l, u) : (s.store.max_pages ≡ max_pages)
          × (s.store.used ≤ max_pages)
          × (s.store.used ≡ length s.live + in_flight s.threads) =
        (v.capacity, v.limited, v.counted) in
      let room : length s.store.pages < s.store.max_pages = omega (arith, less, c, l, u) in
      ground (arith, t, room)
]

module _ (max_pages : ℕ) (u64 : max_pages < 2 ^ 64) where
  -- A thread that moves without a change of the store.
  pub move-IsKept :
      (s : Server) (i : ℕ) (p q : Pc)
      → get_elem? s.threads i ≡ some p
      → weight p ≡ weight q
      → Fits max_pages q
      → IsKept max_pages s
      → IsKept max_pages (move s i q)
  move-IsKept s i p q here same fits v = record {
    capacity = v.capacity;
    distinct = v.distinct;
    owned = v.owned;
    counted = counted;
    limited = v.limited;
    reads = Every-set (Fits max_pages) s.threads i q v.reads fits;
    next = v.next;
    in_turn = v.in_turn;
  }
    where
      counted : s.store.used ≡ length s.live + in_flight (set s.threads i q)
      counted = omega (arith, v.counted, in_flight-set s.threads i p q here, same)

  pub load-IsKept :
      (s : Server) (i : ℕ)
      → get_elem? s.threads i ≡ some reading
      → IsKept max_pages s
      → IsKept max_pages (move s i (load_used s.store))
  unfolding load_used
  load-IsKept s i here v = elim (Bool-cases (leb s.store.max_pages s.store.used)) [
    | inl t ↦ rw t (move-IsKept s i reading idle here refl tt v)
    | inr t ↦
        let below : s.store.used < max_pages = ground (arith, t, v.capacity) in
        rw t (move-IsKept s i reading (has_read s.store.used) here refl below v)
  ]

  pub exchange-IsKept :
      (s : Server) (i used : ℕ)
      → get_elem? s.threads i ≡ some (has_read used)
      → IsKept max_pages s
      → IsKept max_pages (record (move s i (compare_exchange used s.store).1) {
        store = (compare_exchange used s.store).0;
      })
  unfolding compare_exchange
  exchange-IsKept s i used here v = elim (Bool-cases (s.store.used == used)) [
    | inr t ↦ rw t (move-IsKept s i (has_read used) reading here refl tt v)
    | inl t ↦
        let below : used < max_pages =
          Every-get_elem? (Fits max_pages) s.threads i (has_read used) v.reads here in
        let same : s.store.used ≡ used = ground (arith, t) in
        let flight = in_flight-set s.threads i (has_read used) reserved here in
        let counted : used + 1 ≡ length s.live + in_flight (set s.threads i reserved) =
          omega (arith, v.counted, same, flight) in
        rw t (record {
          capacity = v.capacity;
          distinct = v.distinct;
          owned = v.owned;
          counted = counted;
          limited = omega (arith, below);
          reads = Every-set (Fits max_pages) s.threads i reserved v.reads tt;
          next = v.next;
          in_turn = v.in_turn;
        })
  ]
