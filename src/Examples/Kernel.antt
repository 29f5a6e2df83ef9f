-- ===== src/Examples/Kernel.antt =====
-- Polls of the kernel's ring over one memory backend.
use distributed_uvm.Daemon.KmodRing.{KmodRequest, KmodCompletion, Region, answered, poll_once}
use distributed_uvm.Daemon.KmodRing.Shared.{IsRegion}
use distributed_uvm.Daemon.KmodRing.Drain.{Drains, drain-Drains}
use distributed_uvm.Prelude.{
  zero, suc, ◌<◌, length, get_elem?, ℕ, false, leb, ◌≡◌, refl, none, some, [], ◌∷◌, arith,
  length-replicate, replicate,
}
use distributed_uvm.Prelude.HashMap.{lookup, insert, remove}
use distributed_uvm.Common.Page.{PageBuffer, page_size, new_handle, offset, tier_eq}
use distributed_uvm.Backends.Contract.{IsPage}
use distributed_uvm.Backends.Memory.{MemoryBackend, new_memory, memory_ops}
use distributed_uvm.Backends.Memory.Laws.{memory_contract}
use distributed_uvm.Daemon.Policy.{
  select_tier, select_tier_lru, has_capacity, record_store, record_load, update, remove_page,
}
use distributed_uvm.Daemon.Engine.{
  Engine, store_page, load_page, free_old, choose_tier, try_candidates, tier_backend_candidates,
  backend_capacities,
}
use distributed_uvm.Prelude.{Every}
use distributed_uvm.Daemon.KmodRing.{Polled, process, complete}
use distributed_uvm.Daemon.KmodRing.Effect.{Answers, poll_once_lem}
use distributed_uvm.Daemon.KmodRing.System.{System, recall, polled, Reach, started, later, Loads}
use distributed_uvm.Daemon.KmodRing.Coherent.{polled_load}
use distributed_uvm.Daemon.KmodRing.RoundTrip.{store_then_load}
use distributed_uvm.Prelude.{get_or}
use distributed_uvm.Daemon.KmodRing.Shared.{answer_to}
use distributed_uvm.Examples.Engine.{engine-IsSound}
use distributed_uvm.Daemon.KmodRing.Loop.{Stops, run_loop-Stops}
use distributed_uvm.Daemon.KmodRing.{run_loop}
use distributed_uvm.Examples.Engine.{
  percent, engine, backends, page, final, page-IsPage, backends-IsValid, final-IsSound,
}

abbrev request : KmodRequest
request = record { op = 2; seq = 41; offset = 3; staging_slot = 1 }

abbrev nothing_yet : KmodCompletion
nothing_yet = record { seq = 0; result = 0; staging_slot = 0 }

abbrev region : Region
region = record {
  req_write = 1;
  req_read = 0;
  comp_write = 1;
  mask = 1;
  requests = request ∷ request ∷ [];
  completions = nothing_yet ∷ nothing_yet ∷ [];
  staging = page ∷ page ∷ [];
}

region-IsRegion : IsRegion 1 region
region-IsRegion = record {
  masks = refl;
  reads = omega arith;
  writes = omega arith;
  completes = omega arith;
  requests = refl;
  completions = refl;
  slots = slots;
}
  where
    slots :
        (i : ℕ) (req : KmodRequest)
        → get_elem? region.requests i ≡ some req
        → req.staging_slot < length region.staging
    slots zero req h = ground (arith, h)
    slots (suc zero) req h = ground (arith, h)
    slots (suc (suc i)) req h = absurd (ground (arith, h))

whole : Every IsPage region.staging
whole = (page-IsPage, (page-IsPage, tt))

poll_once_lem_example :
    (req : KmodRequest) × (get_elem? region.requests region.req_read ≡ some req)
    × Answers memory_contract 1 region final req (poll_once percent memory_ops region 9 final)
poll_once_lem_example =
    poll_once_lem memory_contract percent 1 region 9 final region-IsRegion (omega arith) whole
      final-IsSound

drain-Drains_example : Drains 1 percent memory_ops 2 (λ n. n) region final
drain-Drains_example =
    drain-Drains 1 percent memory_ops 2 (λ n. n) region final region-IsRegion (omega arith)

-- A store of the first slot's page and a load of the same offset into the second slot.
abbrev store_request : KmodRequest
store_request = record { op = 1; seq = 40; offset = 3; staging_slot = 0 }

abbrev blank : PageBuffer
blank = replicate page_size 0

abbrev two_requests : Region
two_requests = record {
  req_write = 0;
  req_read = 2;
  comp_write = 1;
  mask = 3;
  requests = request ∷ request ∷ store_request ∷ request ∷ [];
  completions = nothing_yet ∷ nothing_yet ∷ nothing_yet ∷ nothing_yet ∷ [];
  staging = page ∷ blank ∷ [];
}

two_requests-IsRegion : IsRegion 2 two_requests
two_requests-IsRegion = record {
  masks = refl;
  reads = omega arith;
  writes = omega arith;
  completes = omega arith;
  requests = refl;
  completions = refl;
  slots = slots;
}
  where
    slots :
        (i : ℕ) (req : KmodRequest)
        → get_elem? two_requests.requests i ≡ some req
        → req.staging_slot < length two_requests.staging
    slots zero req h = ground (arith, h)
    slots (suc zero) req h = ground (arith, h)
    slots (suc (suc zero)) req h = ground (arith, h)
    slots (suc (suc (suc zero))) req h = ground (arith, h)
    slots (suc (suc (suc (suc i)))) req h = absurd (ground (arith, h))

abbrev polled_region : Polled MemoryBackend → Region
polled_region (answered r e) = r
polled_region _ = two_requests

abbrev polled_engine : Polled MemoryBackend → Engine MemoryBackend
polled_engine (answered r e) = e
polled_engine _ = engine

abbrev first : Polled MemoryBackend
first = poll_once percent memory_ops two_requests 0 engine

abbrev before_load : System MemoryBackend
before_load = record {
  region = polled_region first;
  engine = polled_engine first;
  memory = recall two_requests (λ j. none);
}

abbrev second : Polled MemoryBackend
second = poll_once percent memory_ops before_load.region 1 before_load.engine

first_run : first ≡ answered before_load.region before_load.engine
unfolding poll_once process complete store_page load_page free_old choose_tier try_candidates
    tier_backend_candidates backend_capacities select_tier select_tier_lru has_capacity record_store
    record_load update remove_page lookup insert remove new_handle offset tier_eq new_memory
    memory_ops
first_run = refl

second_run : second ≡ answered (polled_region second) (polled_engine second)
unfolding poll_once process complete store_page load_page free_old choose_tier try_candidates
    tier_backend_candidates backend_capacities select_tier select_tier_lru has_capacity record_store
    record_load update remove_page lookup insert remove new_handle offset tier_eq new_memory
    memory_ops
second_run = refl

second_request : get_elem? before_load.region.requests before_load.region.req_read ≡ some request
unfolding poll_once process complete store_page load_page free_old choose_tier try_candidates
    tier_backend_candidates backend_capacities select_tier select_tier_lru has_capacity record_store
    record_load update remove_page lookup insert remove new_handle offset tier_eq new_memory
    memory_ops
second_request = refl

before_load_reached : Reach 2 percent memory_ops backends before_load
before_load_reached =
    later
      (started two_requests two_requests-IsRegion
        (page-IsPage, (length-replicate {A = ℕ} page_size 0, tt)))
      (polled 0 before_load.region before_load.engine first_run)

polled_load_example : Loads 2 percent memory_ops before_load request (polled_region second)
polled_load_example =
    polled_load 2 percent memory_contract backends backends-IsValid before_load 1
      (polled_region second) (polled_engine second) request before_load_reached second_request refl
      second_run

run_loop-Stops_example :
    Stops 2 (run_loop percent memory_ops 8 false (leb 2) (λ s r. r) (λ s. s) 0 two_requests engine)
run_loop-Stops_example =
    run_loop-Stops 2 percent memory_ops 8 2 (leb 2) (λ s r. r) (λ s. s) two_requests engine
      (λ s r v. v) (λ s h. ground (arith, h)) (λ s r h v. refl) (omega arith) two_requests-IsRegion

first_completed :
    get_elem? before_load.region.completions two_requests.comp_write
    ≡ some (answer_to store_request 0)
unfolding poll_once process complete store_page load_page free_old choose_tier try_candidates
    tier_backend_candidates backend_capacities select_tier select_tier_lru has_capacity record_store
    record_load update remove_page lookup insert remove new_handle offset tier_eq new_memory
    memory_ops
first_completed = refl

store_then_load_example :
    (region₂ : Region) × (e₂ : Engine MemoryBackend) × (poll_once percent memory_ops
        before_load.region 1 before_load.engine
      ≡ answered region₂ e₂)
    × (get_or region₂.staging 1 [] ≡ page)
    × (get_or region₂.completions before_load.region.comp_write nothing_yet ≡ answer_to request 0)
store_then_load_example =
    store_then_load memory_contract 2 percent two_requests before_load.region engine
      before_load.engine 0 1 store_request request page nothing_yet two_requests-IsRegion
      (page-IsPage, (length-replicate {A = ℕ} page_size 0, tt)) engine-IsSound (omega arith) refl
      refl refl (omega arith) refl refl refl first_run first_completed
