-- ===== src/Memserver/Threads/Changes.antt =====
-- The steps that give out an offset, store a page, and take it back.
use distributed_uvm.Prelude.{
  ℕ, zero, suc, ◌+◌, ◌-◌, ◌%◌, ◌^◌, ◌≡◌, ◌<◌, ◌≤◌, true, false, some, List, [], ◌∷◌, arith,
  get_elem?, set, In, inr, length, Every-set,
}
use distributed_uvm.Prelude.HashMap.{
  HashMap, lookup, remove, insert-IsDistinct, remove-IsDistinct, All-lookup, All-insert, All-remove,
  lookup-remove_self,
}
use distributed_uvm.Common.Page.{PageBuffer}
use distributed_uvm.Memserver.{store}
use distributed_uvm.Memserver.Threads.{
  idle, reserved, subtracting, fetch_add, fetch_sub, without_page, erase, Server, move,
}
use distributed_uvm.Memserver.Threads.Count.{
  in_flight, in_flight-set, length-erase, Owned, Owned-erase,
}
use distributed_uvm.Memserver.Threads.Invariant.{Fits, IsKept, accepts}

module _ (max_pages : ℕ) (u64 : max_pages < 2 ^ 64) where
  -- More live offsets.
  Owned-more : (o : ℕ) (live : List ℕ) (m : HashMap PageBuffer) → Owned live m → Owned (o ∷ live) m
  Owned-more o live [] a = tt
  Owned-more o live ((k, page) ∷ m) a = (inr a.0, Owned-more o live m a.1)

  pub given-IsKept :
      (s : Server) (i : ℕ)
      → get_elem? s.threads i ≡ some reserved
      → suc (length s.given) < 2 ^ 64
      → IsKept max_pages s
      → IsKept max_pages (record (move s i idle) {
        store = fetch_add s.store;
        given = s.store.next_offset ∷ s.given;
        live = s.store.next_offset ∷ s.live;
      })
  unfolding fetch_add
  given-IsKept s i here few v = record {
    capacity = v.capacity;
    distinct = v.distinct;
    owned = Owned-more s.store.next_offset s.live s.store.pages v.owned;
    counted = counted;
    limited = v.limited;
    reads = Every-set (Fits max_pages) s.threads i idle v.reads tt;
    next = omega (arith, v.next, few);
    in_turn = in_turn;
  }
    where
      counted : s.store.used ≡ suc (length s.live) + in_flight (set s.threads i idle)
      counted = omega (arith, v.counted, in_flight-set s.threads i reserved idle here)

      in_turn :
          (j offset : ℕ)
          → get_elem? (s.store.next_offset ∷ s.given) j ≡ some offset
          → offset + suc j ≡ suc (length s.given)
      in_turn zero offset h = ground (arith, h, v.next)
      in_turn (suc j) offset h = omega (arith, v.in_turn j offset h)

  pub stored-IsKept :
      (s : Server) (offset : ℕ) (page : PageBuffer)
      → In offset s.live
      → IsKept max_pages s
      → IsKept max_pages (record s { store = (store s.store offset page).0 })
  stored-IsKept s offset page live v = rw (accepts max_pages s offset page v live) (record {
    capacity = v.capacity;
    distinct = insert-IsDistinct offset page s.store.pages v.distinct;
    owned = All-insert (λ o p. In o s.live) offset page s.store.pages live v.owned;
    counted = v.counted;
    limited = v.limited;
    reads = v.reads;
    next = v.next;
    in_turn = v.in_turn;
  })

  pub removed-IsKept :
      (s : Server) (i offset : ℕ) (page : PageBuffer)
      → get_elem? s.threads i ≡ some idle
      → lookup offset s.store.pages ≡ some page
      → IsKept max_pages s
      → IsKept max_pages (record (move s i subtracting) {
        store = without_page offset s.store;
        locked = true;
        live = erase offset s.live;
      })
  removed-IsKept s i offset page here there v = record {
    capacity = v.capacity;
    distinct = remove-IsDistinct offset s.store.pages v.distinct;
    owned =
        Owned-erase offset s.live (remove offset s.store.pages)
          (lookup-remove_self offset s.store.pages)
          (All-remove (λ o p. In o s.live) offset s.store.pages v.owned);
    counted = counted;
    limited = v.limited;
    reads = Every-set (Fits max_pages) s.threads i subtracting v.reads tt;
    next = v.next;
    in_turn = v.in_turn;
  }
    where
      counted :
          s.store.used ≡ length (erase offset s.live) + in_flight (set s.threads i subtracting)
      counted = omega (
        arith,
        v.counted,
        in_flight-set s.threads i idle subtracting here,
        length-erase offset s.live
            (All-lookup (λ o p. In o s.live) offset page s.store.pages v.owned there),
      )

  pub subtracted-IsKept :
      (s : Server) (i : ℕ)
      → get_elem? s.threads i ≡ some subtracting
      → IsKept max_pages s
      → IsKept max_pages (record (move s i idle) { store = fetch_sub s.store; locked = false })
  unfolding fetch_sub
  subtracted-IsKept s i here v = record {
    capacity = v.capacity;
    distinct = v.distinct;
    owned = v.owned;
    counted = counted;
    limited = limited;
    reads = Every-set (Fits max_pages) s.threads i idle v.reads tt;
    next = v.next;
    in_turn = v.in_turn;
  }
    where
      flight : in_flight (set s.threads i idle) + 1 ≡ in_flight s.threads
      flight = omega (arith, in_flight-set s.threads i subtracting idle here)

      counted :
          (s.store.used + (2 ^ 64 - 1)) % 2 ^ 64 ≡ length s.live + in_flight (set s.threads i idle)
      counted = omega (arith, v.counted, flight, v.limited, u64)

      limited : (s.store.used + (2 ^ 64 - 1)) % 2 ^ 64 ≤ max_pages
      limited = omega (arith, v.counted, flight, v.limited, u64)
