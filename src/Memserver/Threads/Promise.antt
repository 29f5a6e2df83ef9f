-- ===== src/Memserver/Threads/Promise.antt =====
-- What clients may rely on while the threads of the server interleave.
use distributed_uvm.Prelude.{
  ℕ, ◌^◌, ◌≡◌, ◌<◌, ◌≤◌, refl, ap, true, some, arith, length, get_elem?, In,
}
use distributed_uvm.Common.Page.{PageBuffer}
use distributed_uvm.Memserver.{store}
use distributed_uvm.Memserver.Threads.{
  reading, idle, Server, Step, Reach, started, later, connected, alloc_called, used_loaded,
  exchanged, offset_given, page_stored, page_removed, used_subtracted,
}
use distributed_uvm.Memserver.Threads.Invariant.{
  IsKept, accepts, move-IsKept, load-IsKept, exchange-IsKept,
}
use distributed_uvm.Memserver.Threads.Changes.{
  given-IsKept, stored-IsKept, removed-IsKept, subtracted-IsKept,
}

Step-given-le : (s t : Server) → Step s t → length s.given ≤ length t.given
Step-given-le s t connected = omega arith
Step-given-le s t (alloc_called i here) = omega arith
Step-given-le s t (used_loaded i here) = omega arith
Step-given-le s t (exchanged i used here) = omega arith
Step-given-le s t (offset_given i here) = omega arith
Step-given-le s t (page_stored i offset page here free live) = omega arith
Step-given-le s t (page_removed i offset page here free there) = omega arith
Step-given-le s t (used_subtracted i here) = omega arith

module _ (max_pages : ℕ) (u64 : max_pages < 2 ^ 64) where
  Step-IsKept :
      (s t : Server) → Step s t → length t.given < 2 ^ 64 → IsKept max_pages s → IsKept max_pages t
  Step-IsKept s t connected few v = record {
    capacity = v.capacity;
    distinct = v.distinct;
    owned = v.owned;
    counted = omega (arith, v.counted);
    limited = v.limited;
    reads = (tt, v.reads);
    next = v.next;
    in_turn = v.in_turn;
  }
  Step-IsKept s t (alloc_called i here) few v =
      move-IsKept max_pages u64 s i idle reading here refl tt v
  Step-IsKept s t (used_loaded i here) few v = load-IsKept max_pages u64 s i here v
  Step-IsKept s t (exchanged i used here) few v = exchange-IsKept max_pages u64 s i used here v
  Step-IsKept s t (offset_given i here) few v = given-IsKept max_pages u64 s i here few v
  Step-IsKept s t (page_stored i offset page here free live) few v =
      stored-IsKept max_pages u64 s offset page live v
  Step-IsKept s t (page_removed i offset page here free there) few v =
      removed-IsKept max_pages u64 s i offset page here there v
  Step-IsKept s t (used_subtracted i here) few v = subtracted-IsKept max_pages u64 s i here v

  pub Reach-IsKept : (s : Server) → Reach max_pages s → length s.given < 2 ^ 64 → IsKept max_pages s
  Reach-IsKept s started few = record {
    capacity = refl;
    distinct = tt;
    owned = tt;
    counted = refl;
    limited = omega arith;
    reads = tt;
    next = refl;
    in_turn = λ i offset h. absurd (ground (arith, h));
  }
  Reach-IsKept t (later {s} r step) few =
      Step-IsKept s t step few (Reach-IsKept s r (omega (arith, Step-given-le s t step, few)))

  -- With a limit below 2^64, in any interleaving of the threads' atomic accesses in which fewer
  -- than 2^64 offsets were given out and clients store only at offsets that they were given and
  -- have not freed, the store of a page at such an offset is not refused.
  pub store_promised :
      (s : Server) (offset : ℕ) (page : PageBuffer)
      → Reach max_pages s
      → length s.given < 2 ^ 64
      → In offset s.live
      → (store s.store offset page).1 ≡ true
  store_promised s offset page r few live =
      ap (λ x. x.1) (accepts max_pages s offset page (Reach-IsKept s r few) live)

  -- With a limit below 2^64, in any interleaving of the threads' atomic accesses in which fewer
  -- than 2^64 offsets were given out, no two allocations gave out the same offset.
  pub given-apart :
      (s : Server) (i j offset : ℕ)
      → Reach max_pages s
      → length s.given < 2 ^ 64
      → get_elem? s.given i ≡ some offset
      → get_elem? s.given j ≡ some offset
      → i ≡ j
  given-apart s i j offset r few h h' =
      let v = Reach-IsKept s r few in omega (arith, v.in_turn i offset h, v.in_turn j offset h')
