-- ===== src/Daemon/Policy.antt =====
-- crates/duvm-daemon/src/policy.rs: page metadata and placement decisions. The lock is left out: a
-- method holds it from its first to its last access of the table. `Instant::now()` is an argument.
pub mod Tiers
pub mod Eviction
pub mod Flags
use Prim.Native.Nat.{min}
use distributed_uvm.Prelude.{
  ℕ, ◌+◌, ◌-◌, ◌^◌, Bool, true, false, not, ◌&&◌, ◌||◌, Option, none, some, List, [], ◌∷◌, map,
  length, take, keep, ltb, leb, ◌==◌, if◌then◌else◌,
}
use distributed_uvm.Prelude.HashMap.{HashMap, lookup, insert, remove}
use distributed_uvm.Common.Page.{
  PageHandle, PageFlags, Tier, local, compressed, cxl, rdma, gpu, tier_eq, contains, insert_flag,
  remove_flag, empty_flags, pinned,
}

pub record PageMeta : Type 0 where
  pub handle : PageHandle
  pub backend_id : ℕ
  pub tier : Tier
  pub access_count : ℕ
  pub last_access : ℕ
  pub flags : PageFlags

pub record BackendCapacity : Type 0 where
  pub backend_id : ℕ
  pub tier : Tier
  pub total_pages : ℕ
  pub used_pages : ℕ
  pub latency_ns : ℕ
  pub healthy : Bool

unfoldable pub has_capacity : BackendCapacity → Bool
has_capacity c = c.healthy && ltb c.used_pages c.total_pages

-- `Strategy` has one value, `Lru`.
pub data Strategy : Type 0 where
  lru : Strategy

pub record PolicyEngine : Type 0 where
  pub pages : HashMap PageMeta
  pub strategy : Strategy

abbrev pub new_policy : Strategy → PolicyEngine
new_policy s = record { pages = []; strategy = s }

unfoldable pub record_store : PolicyEngine → ℕ → PageHandle → ℕ → Tier → ℕ → PolicyEngine
record_store p offset handle backend_id tier now = record p {
  pages =
      insert offset
        (record {
          handle = handle;
          backend_id = backend_id;
          tier = tier;
          access_count = 0;
          last_access = now;
          flags = empty_flags;
        })
        p.pages;
}

-- `saturating_add(1)` on a `u32`
abbrev pub saturating_incr : ℕ → ℕ
saturating_incr n = min (n + 1) (2 ^ 32 - 1)

-- `get_mut` and a change of the value in place.
unfoldable pub update : PolicyEngine → ℕ → (PageMeta → PageMeta) → PolicyEngine
update p offset f = elim (lookup offset p.pages) [
  | none ↦ p
  | some meta ↦ record p { pages = insert offset (f meta) p.pages }
]

unfoldable pub record_load : PolicyEngine → ℕ → ℕ → PolicyEngine
unfolding update
record_load p offset now =
    update p offset
      λ meta. record meta { access_count = saturating_incr meta.access_count; last_access = now }

abbrev pub lookup_page : PolicyEngine → ℕ → Option PageMeta
lookup_page p offset = lookup offset p.pages

-- The new table beside the entry that was removed.
unfoldable pub remove_page : PolicyEngine → ℕ → PolicyEngine × Option PageMeta
remove_page p offset = (record p { pages = remove offset p.pages }, lookup offset p.pages)

-- The loop over `tier_preference`.
first_tier : List Tier → List BackendCapacity → Option Tier
first_tier [] capacities = none
first_tier (t ∷ ts) capacities = elim (keep (λ c. tier_eq c.tier t && has_capacity c) capacities) [
  | [] ↦ first_tier ts capacities
  | c ∷ cs ↦ some t
]

abbrev pub tier_preference : List Tier
tier_preference = compressed ∷ cxl ∷ rdma ∷ gpu ∷ local ∷ []

unfoldable pub select_tier_lru : List BackendCapacity → Option Tier
unfolding first_tier
select_tier_lru capacities = first_tier tier_preference capacities

unfoldable pub select_tier : PolicyEngine → List BackendCapacity → Option Tier
select_tier p capacities = elim p.strategy [ lru ↦ select_tier_lru capacities ]

-- The filter of both eviction functions.
unfoldable pub evictable : ℕ → PageMeta → Bool
evictable backend_id meta = (meta.backend_id == backend_id) && not (contains meta.flags pinned)

-- The order of the keys `(last_access, access_count)`.
unfoldable pub key_le : PageMeta → PageMeta → Bool
key_le a b =
    ltb a.last_access b.last_access
    || ((a.last_access == b.last_access) && leb a.access_count b.access_count)

-- `min_by_key` keeps the first of several least elements.
min_from : ℕ × PageMeta → HashMap PageMeta → ℕ × PageMeta
min_from best [] = best
min_from best (e ∷ es) = min_from (if key_le best.1 e.1 then best else e) es

min_by_key : HashMap PageMeta → Option (ℕ × PageMeta)
unfolding min_from
min_by_key [] = none
min_by_key (e ∷ es) = some (min_from e es)

unfoldable pub find_eviction_candidate : PolicyEngine → ℕ → Option ℕ
unfolding min_by_key
find_eviction_candidate p backend_id =
    elim (min_by_key (keep (λ e. evictable backend_id e.1) p.pages)) [
      | none ↦ none
      | some e ↦ some e.0
    ]

-- `sort_by_key` is stable: an entry goes before those with an equal key that stood behind it.
insert_sorted : ℕ × PageMeta → HashMap PageMeta → HashMap PageMeta
insert_sorted e [] = e ∷ []
insert_sorted e (x ∷ xs) = if key_le e.1 x.1 then e ∷ x ∷ xs else x ∷ insert_sorted e xs

sort_by_key : HashMap PageMeta → HashMap PageMeta
unfolding insert_sorted
sort_by_key [] = []
sort_by_key (e ∷ es) = insert_sorted e (sort_by_key es)

unfoldable pub find_eviction_candidates : PolicyEngine → ℕ → ℕ → List ℕ
unfolding sort_by_key
find_eviction_candidates p backend_id count =
    map (λ e. e.0) (take count (sort_by_key (keep (λ e. evictable backend_id e.1) p.pages)))

unfoldable pub tracked_pages : PolicyEngine → ℕ
tracked_pages p = length p.pages

unfoldable pub pages_in_backend : PolicyEngine → ℕ → ℕ
pages_in_backend p backend_id = length (keep (λ e. e.1.backend_id == backend_id) p.pages)

unfoldable pub set_flag : PolicyEngine → ℕ → PageFlags → PolicyEngine
unfolding update
set_flag p offset flag = update p offset λ meta. record meta { flags = insert_flag meta.flags flag }

unfoldable pub clear_flag : PolicyEngine → ℕ → PageFlags → PolicyEngine
unfolding update
clear_flag p offset flag =
    update p offset λ meta. record meta { flags = remove_flag meta.flags flag }
