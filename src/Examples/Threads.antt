-- ===== src/Examples/Threads.antt =====
-- Two threads of the memory server that race for the count of used pages.
use distributed_uvm.Prelude.{ℕ, ◌≡◌, refl, true, false, [], ◌∷◌, arith, inl, inr, replicate}
use distributed_uvm.Common.Page.{PageBuffer, page_size}
use distributed_uvm.Memserver.{store}
use distributed_uvm.Memserver.Threads.{
  idle, Server, Reach, started, later, connected, alloc_called, used_loaded, exchanged,
  offset_given, load_used, compare_exchange, fetch_add,
}
use distributed_uvm.Memserver.Threads.Promise.{store_promised, given-apart}

-- Both read 0; the exchange of the second thread fails, and it is given its offset first.
abbrev raced : Server
raced = record {
  store = record { pages = []; max_pages = 2; used = 2; next_offset = 2 };
  locked = false;
  threads = idle ∷ idle ∷ [];
  given = 1 ∷ 0 ∷ [];
  live = 1 ∷ 0 ∷ [];
}

raced_reached : Reach 2 raced
unfolding load_used compare_exchange fetch_add
raced_reached =
    later
      (later
        (later
          (later
            (later
              (later
                (later
                  (later
                    (later (later (later (later started connected) connected) (alloc_called 0 refl))
                      (alloc_called 1 refl))
                    (used_loaded 0 refl))
                  (used_loaded 1 refl))
                (exchanged 0 0 refl))
              (exchanged 1 0 refl))
            (used_loaded 1 refl))
          (exchanged 1 1 refl))
        (offset_given 1 refl))
      (offset_given 0 refl)

abbrev bytes : PageBuffer
bytes = replicate page_size 5

store_promised_example : (store raced.store 0 bytes).1 ≡ true
store_promised_example =
    store_promised 2 (omega arith) raced 0 bytes raced_reached (omega arith) (inr (inl refl))

given-apart_example : ◌≡◌ {A = ℕ} 1 1
given-apart_example = given-apart 2 (omega arith) raced 1 1 0 raced_reached (omega arith) refl refl
