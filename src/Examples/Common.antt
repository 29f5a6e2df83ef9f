-- ===== src/Examples/Common.antt =====
-- Rings, handles, opcodes and placement.
use distributed_uvm.Prelude.{
  ℕ, ◌+◌, ◌*◌, ◌^◌, ◌≡◌, refl, true, some, List, [], ◌∷◌, ◌++◌, arith, take, drop, map, keep,
}
use Prim.Native.Nat.{min}
use mathlib.Core.List.{Perm}
use distributed_uvm.Prelude.HashMap.{HashMap, lookup}
use distributed_uvm.Prelude.Outcome.{ok}
use distributed_uvm.Common.Page.{PageHandle, PageFlags, compressed, rdma, new_handle, pinned}
use distributed_uvm.Common.Protocol.{invalidate, from_u8}
use distributed_uvm.Common.Ring.{Ring, new_ring, is_power_of_two, pop_batch, len}
use distributed_uvm.Common.Ring.Valid.{IsValid}
use distributed_uvm.Common.Ring.Refine.{contents}
use distributed_uvm.Common.Ring.Batch.{Call, run, run_fifo, run_refines, pop_batch_lem}
use distributed_uvm.Daemon.Policy.{
  PolicyEngine, PageMeta, BackendCapacity, lru, select_tier, find_eviction_candidate,
  find_eviction_candidates, lookup_page,
}
use distributed_uvm.Daemon.Policy.Tiers.{IsChoice, select_tier-IsChoice}
use distributed_uvm.Daemon.Policy.Eviction.{
  find_eviction_candidate_lem, find_eviction_candidates_lem, IsVictim, IsOrdered, due,
}

abbrev ring : Ring ℕ
ring = record { entries = 5 ∷ 6 ∷ 0 ∷ 8 ∷ []; write_idx = 2; read_idx = 3; capacity = 4; mask = 3 }

ring-IsValid : IsValid 2 ring
ring-IsValid = record {
  power = refl;
  masked = refl;
  storage = refl;
  write_in = omega arith;
  read_in = omega arith;
}

abbrev calls : List (Call ℕ)
calls = Call.push 9 ∷ Call.push 10 ∷ Call.pop ∷ Call.pop ∷ Call.pop ∷ Call.pop ∷ []

run_refines_example : run ring calls ≡ run_fifo 3 (contents 0 ring) calls
run_refines_example = run_refines 0 calls ring-IsValid

pop_batch_lem_example :
    let (r', buf', n) = pop_batch ring (1 ∷ []) 2 in
    (n ≡ min 2 (len ring))
    × (buf' ≡ (1 ∷ []) ++ take 2 (contents 0 ring))
    × (contents 0 r' ≡ drop 2 (contents 0 ring))
    × IsValid 2 r'
pop_batch_lem_example = pop_batch_lem 0 (1 ∷ []) 2 ring-IsValid

abbrev fresh : Ring ℕ
fresh = record { entries = 0 ∷ 0 ∷ 0 ∷ 0 ∷ []; write_idx = 0; read_idx = 0; capacity = 4; mask = 3 }

made : new_ring 0 4 ≡ ok fresh
unfolding new_ring is_power_of_two
made = refl

abbrev handle : PageHandle
handle = 3 * 2 ^ 56 + 1000

handle_made : new_handle 3 1000 ≡ ok handle
unfolding new_handle
handle_made = refl

three : from_u8 3 ≡ some invalidate
unfolding from_u8
three = refl

abbrev full_memory : BackendCapacity
full_memory = record {
  backend_id = 0;
  tier = compressed;
  total_pages = 5;
  used_pages = 5;
  latency_ns = 100;
  healthy = true;
}

abbrev remote : BackendCapacity
remote = record {
  backend_id = 10;
  tier = rdma;
  total_pages = 100;
  used_pages = 7;
  latency_ns = 3000;
  healthy = true;
}

abbrev page_meta : ℕ → PageFlags → PageMeta
page_meta last flags = record {
  handle = 0;
  backend_id = 0;
  tier = compressed;
  access_count = 1;
  last_access = last;
  flags = flags;
}

abbrev policy : PolicyEngine
policy = record {
  pages = (4, page_meta 9 0) ∷ (5, page_meta 2 pinned) ∷ (6, page_meta 3 0) ∷ [];
  strategy = lru;
}

select_tier-IsChoice_example :
    IsChoice (full_memory ∷ remote ∷ []) (select_tier policy (full_memory ∷ remote ∷ []))
select_tier-IsChoice_example = select_tier-IsChoice policy (full_memory ∷ remote ∷ [])

find_eviction_candidate_lem_example : IsVictim policy 0 (find_eviction_candidate policy 0)
find_eviction_candidate_lem_example = find_eviction_candidate_lem policy 0

tracked : lookup_page policy 6 ≡ some (page_meta 3 0)
unfolding lookup
tracked = refl

find_eviction_candidates_lem_example :
    (es : HashMap PageMeta) × (find_eviction_candidates policy 0 1 ≡ map (λ e. e.0) (take 1 es))
    × IsOrdered es
    × Perm es (keep (due 0) policy.pages)
find_eviction_candidates_lem_example = find_eviction_candidates_lem policy 0 1
