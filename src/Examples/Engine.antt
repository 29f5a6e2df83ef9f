-- ===== src/Examples/Engine.antt =====
-- The engine over one memory backend.
use distributed_uvm.Daemon.Engine.History.{serve_all-Agrees}
use distributed_uvm.Backends.Memory.Laws.{memory_contents}
use distributed_uvm.Prelude.{
  inl, ℕ, ◌≡◌, refl, subst, ◌*◌, ◌/◌, none, some, List, [], ◌∷◌, arith, length-replicate, replicate,
  ◌⊎◌,
}
use distributed_uvm.Prelude.HashMap.{HashMap, lookup, insert, remove}
use distributed_uvm.Prelude.Outcome.{ok, err, page_not_found}
use Prim.Native.Nat.{compare}
use distributed_uvm.Common.Page.{PageBuffer, page_size, new_handle, offset, tier_eq}
use distributed_uvm.Backends.Contract.{IsPage}
use distributed_uvm.Backends.Memory.{MemoryBackend, new_memory, memory_ops}
use distributed_uvm.Backends.Memory.Laws.{IsValid, memory_contract, memory-IsValid}
use distributed_uvm.Daemon.Policy.{
  select_tier, select_tier_lru, has_capacity, record_store, record_load, update, remove_page,
}
use distributed_uvm.Daemon.Engine.{
  Engine, Float, with_backends, store_page, load_page, invalidate_page, free_old, choose_tier,
  try_candidates, tier_backend_candidates, backend_capacities,
}
use distributed_uvm.Daemon.Engine.Inv.{view, IsSound}
use distributed_uvm.Daemon.Engine.Steps.{Dropped}
use distributed_uvm.Daemon.Engine.Store.{Stored, store_page_lem}
use distributed_uvm.Daemon.Engine.Access.{Kept, load_page_lem, invalidate_page_lem}
use distributed_uvm.Daemon.Engine.History.{
  Call, store, load, invalidate, serve, after_all, serve_all, with_backends-IsSound, load_after_run,
}

-- Percentages in place of floating-point numbers.
abbrev pub percent : Float ℕ
percent = record {
  one = 100;
  quotient = λ a b. a * 100 / b;
  partial_cmp = λ a b. some (compare a b);
}

abbrev pub backends : HashMap MemoryBackend
backends = (0, new_memory 0) ∷ []

abbrev pub engine : Engine MemoryBackend
engine = with_backends backends

abbrev pub page : PageBuffer
page = replicate page_size 7

pub page-IsPage : IsPage page
page-IsPage = length-replicate {A = ℕ} page_size 7

backend-IsValid : IsValid (new_memory 0)
unfolding new_memory
backend-IsValid = record {
  distinct = tt;
  below = tt;
  id_fits = omega arith;
  next_fits = omega arith;
}

pub backends-IsValid :
    (id : ℕ) (b : MemoryBackend) → lookup id backends ≡ some b → memory_contract.IsValid b
unfolding lookup
backends-IsValid id b h =
    let same : new_memory 0 ≡ b = ground (arith, h) in
    subst memory_contract.IsValid same (memory-IsValid (new_memory 0) backend-IsValid)

pub engine-IsSound : IsSound memory_contract engine
engine-IsSound = (with_backends-IsSound percent memory_contract backends backends-IsValid).0

engine_empty : (j : ℕ) → view memory_contract engine j ≡ none
engine_empty = (with_backends-IsSound percent memory_contract backends backends-IsValid).1

store_page_lem_example :
    Stored memory_contract engine 3 page (store_page percent memory_ops 3 page 0 engine)
store_page_lem_example =
    store_page_lem memory_contract percent engine 3 0 page page-IsPage engine-IsSound

load_page_lem_example :
    Kept memory_contract engine (load_page memory_ops 3 0 engine).0
    × ((load_page memory_ops 3 0 engine).1
        ≡ elim (view memory_contract engine 3) [ none ↦ err page_not_found | some page ↦ ok page ])
load_page_lem_example = load_page_lem memory_contract engine 3 0 engine-IsSound

invalidate_page_lem_example :
    ((invalidate_page memory_ops 3 engine).1 ≡ ok tt)
    × Dropped memory_contract engine (some 3) (invalidate_page memory_ops 3 engine).0
invalidate_page_lem_example = invalidate_page_lem memory_contract engine 3 engine-IsSound

abbrev calls : List Call
calls = store 3 page 0 ∷ load 3 1 ∷ store 4 page 2 ∷ invalidate 4 ∷ []

abbrev pub final : Engine MemoryBackend
final = elim (serve_all percent memory_ops calls engine) [ some e ↦ e | none ↦ engine ]

ran : serve_all percent memory_ops calls engine ≡ some final
unfolding serve_all serve store_page load_page invalidate_page free_old choose_tier try_candidates
    tier_backend_candidates backend_capacities select_tier select_tier_lru has_capacity record_store
    record_load update remove_page lookup insert remove new_handle offset tier_eq new_memory
    memory_ops
ran = refl

load_after_run_example :
    ((load_page memory_ops 3 9 final).1 ≡ err page_not_found)
    ⊎ ((got : PageBuffer) × (after_all calls (λ j. none) 3 ≡ some got)
        × ((load_page memory_ops 3 9 final).1 ≡ ok got))
load_after_run_example =
    load_after_run percent memory_contract calls engine final 3 9
      (page-IsPage, (tt, (page-IsPage, (tt, tt)))) engine-IsSound engine_empty ran

pub final-IsSound : IsSound memory_contract final
final-IsSound =
    (serve_all-Agrees percent memory_contract calls engine final (λ j. none)
      (page-IsPage, (tt, (page-IsPage, (tt, tt)))) engine-IsSound (λ j. inl (engine_empty j)) ran).0

abbrev holder : MemoryBackend
holder = elim (lookup 0 final.backends) [ some b ↦ b | none ↦ new_memory 0 ]

pub final_shows : view memory_contract final 3 ≡ some page
unfolding serve_all serve store_page load_page invalidate_page free_old choose_tier try_candidates
    tier_backend_candidates backend_capacities select_tier select_tier_lru has_capacity record_store
    record_load update remove_page lookup insert remove new_handle offset tier_eq new_memory
    memory_ops
final_shows = memory_contents holder 0
