-- ===== src/Daemon/Engine.antt =====
-- crates/duvm-daemon/src/engine.rs: stores, loads and invalidations over the backends. The engine is
-- generic in the backends (`Box<dyn DuvmBackend>`) and in the floating-point numbers.
pub mod Inv
pub mod Steps
pub mod Candidates
pub mod Store
pub mod Access
pub mod History
use Prim.Native.Nat.{compare, Ordering}
use distributed_uvm.Prelude.{
  ℕ, Bool, true, false, ◌&&◌, Option, none, some, List, [], ◌∷◌, map, ltb, keep, ◌==◌,
  if◌then◌else◌,
}
use distributed_uvm.Prelude.Outcome.{
  Outcome, Error, ok, err, panic, page_not_found, backend_not_found, no_evictable,
  full_after_eviction, no_candidate,
}
use distributed_uvm.Prelude.HashMap.{HashMap, lookup, insert}
use distributed_uvm.Common.Page.{PageHandle, PageBuffer, Tier, tier_eq}
use distributed_uvm.Common.Stats.{DaemonStats, new_stats, incr}
use distributed_uvm.Backends.Trait.{DuvmBackend, BackendInfo, from_backend}
use distributed_uvm.Daemon.Policy.{
  PolicyEngine, PageMeta, BackendCapacity, new_policy, lru, select_tier, find_eviction_candidate,
  lookup_page, remove_page, record_store, record_load,
}

-- The `f64` operations that the engine uses: 1.0, the quotient of two converted integers, and the
-- partial order.
pub record Float (F : Type 0) : Type 0 where
  pub one : F
  pub quotient : ℕ → ℕ → F
  pub partial_cmp : F → F → Option Ordering

-- `Engine`, without the configuration, which only `run` reads.
pub record Engine (B : Type 0) : Type 0 where
  pub backends : HashMap B
  pub policy : PolicyEngine
  pub stats : DaemonStats

abbrev pub with_backends : {B : Type 0} → HashMap B → Engine B
with_backends backends = record { backends = backends; policy = new_policy lru; stats = new_stats }

-- A method that may fail: the engine after it, beside its result.
abbrev pub M : Type 0 → Type 0 → Type 0
M B A = Engine B → Engine B × Outcome A

infixl 5 ◌>>=◌ ◌>>◌
abbrev pub ◌>>=◌ : {B A C : Type 0} → M B A → (A → M B C) → M B C
◌>>=◌ m f e =
    let (e', r) = m e in elim r [ ok a ↦ f a e' | err x ↦ (e', err x) | panic ↦ (e', panic) ]

abbrev pub ◌>>◌ : {B A C : Type 0} → M B A → M B C → M B C
m >> k = m >>= λ _. k

-- The counters.
abbrev pub count_stored : {B : Type 0} → Engine B → Engine B
count_stored e = record e { stats = record (e.stats) { pages_stored = incr e.stats.pages_stored } }

abbrev pub count_loaded : {B : Type 0} → Engine B → Engine B
count_loaded e = record e { stats = record (e.stats) { pages_loaded = incr e.stats.pages_loaded } }

abbrev pub count_invalidated : {B : Type 0} → Engine B → Engine B
count_invalidated e = record e {
  stats = record (e.stats) { pages_invalidated = incr e.stats.pages_invalidated };
}

abbrev pub count_store_error : {B : Type 0} → Engine B → Engine B
count_store_error e = record e {
  stats = record (e.stats) { store_errors = incr e.stats.store_errors };
}

abbrev pub count_load_error : {B : Type 0} → Engine B → Engine B
count_load_error e = record e {
  stats = record (e.stats) { load_errors = incr e.stats.load_errors };
}

-- The state that a backend's method leaves.
abbrev pub put : {B : Type 0} → Engine B → ℕ → B → Engine B
put e id b = record e { backends = insert id b e.backends }

-- The page table without an offset.
abbrev pub forget : {B : Type 0} → Engine B → ℕ → Engine B
forget e offset = record e { policy = (remove_page e.policy offset).0 }

module _ {B : Type 0} (ops : DuvmBackend B) where
  unfoldable pub backend_capacities : Engine B → List BackendCapacity
  backend_capacities e =
      map
        (λ (entry : ℕ × B). record {
          backend_id = entry.0;
          tier = ops.tier entry.1;
          total_pages = (ops.capacity entry.1).0;
          used_pages = (ops.capacity entry.1).1;
          latency_ns = ops.latency_ns entry.1;
          healthy = ops.is_healthy entry.1;
        })
        e.backends

  -- The first step of `store_page`: the error of a free is dropped.
  unfoldable pub free_old : ℕ → M B (Unit {0})
  free_old offset e = elim (lookup_page e.policy offset) [
    | none ↦ (forget e offset, ok tt)
    | some meta ↦ elim (lookup meta.backend_id e.backends) [
      | none ↦ (forget e offset, ok tt)
      | some b ↦
          let (b', r) = ops.free_page b meta.handle in
          elim r [
            | panic ↦ (put (forget e offset) meta.backend_id b', panic)
            | _ ↦ (put (forget e offset) meta.backend_id b', ok tt)
          ]
    ]
  ]

  -- The loop of `try_evict_one` over the ids in the order of the map.
  unfoldable pub evict_from : List ℕ → M B (Option ℕ)
  evict_from [] e = (e, ok none)
  evict_from (id ∷ ids) e = elim (lookup id e.backends) [
    | none ↦ evict_from ids e
    | some b ↦ elim (find_eviction_candidate e.policy id) [
      | none ↦ evict_from ids e
      | some offset ↦ elim (lookup_page e.policy offset) [
        | none ↦ evict_from ids (forget e offset)
        | some meta ↦
            let (b', r) = ops.free_page b meta.handle in
            let e' = put (forget e offset) id b' in
            elim r [
              | ok _ ↦ (count_invalidated e', ok (some offset))
              | err _ ↦ evict_from ids e'
              | panic ↦ (e', panic)
            ]
      ]
    ]
  ]

  unfoldable pub try_evict_one : M B (Option ℕ)
  try_evict_one e = evict_from (map (λ (entry : ℕ × B). entry.0) e.backends) e

  -- The tier for a new page, evicting one page where all backends are full.
  unfoldable pub choose_tier : M B Tier
  choose_tier e = elim (select_tier e.policy (backend_capacities e)) [
    | some tier ↦ (e, ok tier)
    | none ↦
        let (e', r) = try_evict_one e in
        elim r [
          | ok evicted ↦ elim evicted [
            | some offset ↦ elim (select_tier e'.policy (backend_capacities e')) [
              | some tier ↦ (e', ok tier)
              | none ↦ (count_store_error e', err full_after_eviction)
            ]
            | none ↦ (count_store_error e', err no_evictable)
          ]
          | err x ↦ (e', err x)
          | panic ↦ (e', panic)
        ]
  ]

  -- The loop of `store_page` over the candidates.
  unfoldable pub try_candidates : List ℕ → ℕ → PageBuffer → Tier → ℕ → Option Error → M B PageHandle
  try_candidates [] offset page tier now last_err e =
      (count_store_error e, err (elim last_err [ some x ↦ x | none ↦ no_candidate ]))
  try_candidates (id ∷ ids) offset page tier now last_err e = elim (lookup id e.backends) [
    | none ↦ try_candidates ids offset page tier now last_err e
    | some b ↦
        let (b', allocated) = ops.alloc_page b in
        elim allocated [
          | panic ↦ (put e id b', panic)
          | err x ↦ try_candidates ids offset page tier now (some x) (put e id b')
          | ok handle ↦
              let (b'', stored) = ops.store_page b' handle page in
              elim stored [
                | ok _ ↦ (
                  count_stored (record (put e id b'') {
                    policy = record_store e.policy offset handle id tier now;
                  }),
                  ok handle,
                )
                | panic ↦ (put e id b'', panic)
                | err x ↦
                    let (b3, freed) = ops.free_page b'' handle in
                    elim freed [
                      | panic ↦ (put e id b3, panic)
                      | _ ↦ try_candidates ids offset page tier now (some x) (put e id b3)
                    ]
              ]
        ]
  ]

  unfoldable pub load_page : ℕ → ℕ → M B PageBuffer
  load_page offset now e = elim (lookup_page e.policy offset) [
    | none ↦ (count_load_error e, err page_not_found)
    | some meta ↦ elim (lookup meta.backend_id e.backends) [
      | none ↦ (count_load_error e, err backend_not_found)
      | some b ↦
          let (b', r) = ops.load_page b meta.handle in
          let e' = put e meta.backend_id b' in
          elim r [
            | err x ↦ (count_load_error e', err x)
            | panic ↦ (e', panic)
            | ok page ↦
                (count_loaded (record e' { policy = record_load e'.policy offset now }), ok page)
          ]
    ]
  ]

  unfoldable pub invalidate_page : ℕ → M B (Unit {0})
  invalidate_page offset e = elim (lookup_page e.policy offset) [
    | none ↦ (forget e offset, ok tt)
    | some meta ↦ elim (lookup meta.backend_id e.backends) [
      | none ↦ (count_invalidated (forget e offset), ok tt)
      | some b ↦
          let (b', r) = ops.free_page b meta.handle in
          let e' = put (forget e offset) meta.backend_id b' in
          elim r [
            | ok _ ↦ (count_invalidated e', ok tt)
            | err x ↦ (e', err x)
            | panic ↦ (e', panic)
          ]
    ]
  ]

  unfoldable pub backend_info : Engine B → List BackendInfo
  backend_info e = map (λ (entry : ℕ × B). from_backend ops entry.1) e.backends

module _ {F : Type 0} (float : Float F) where
  utilization : ℕ × ℕ → F
  utilization (total, used) = if total == 0 then float.one else float.quotient used total

  -- The comparison of `sort_by`: by utilization, equal where that is undefined, and then by id.
  cmp_candidates : ℕ × F → ℕ × F → Ordering
  cmp_candidates a b = elim (float.partial_cmp a.1 b.1) [
    | none ↦ compare a.0 b.0
    | some o ↦ elim o [
      | Ordering.lt ↦ Ordering.lt
      | Ordering.eq ↦ compare a.0 b.0
      | Ordering.gt ↦ Ordering.gt
    ]
  ]

  -- A stable sort.
  insert_candidate : ℕ × F → List (ℕ × F) → List (ℕ × F)
  insert_candidate c [] = c ∷ []
  insert_candidate c (d ∷ ds) = elim (cmp_candidates c d) [
    | Ordering.gt ↦ d ∷ insert_candidate c ds
    | _ ↦ c ∷ d ∷ ds
  ]

  sort_candidates : List (ℕ × F) → List (ℕ × F)
  sort_candidates [] = []
  sort_candidates (c ∷ cs) = insert_candidate c (sort_candidates cs)

  module _ {B : Type 0} (ops : DuvmBackend B) where
    -- A healthy backend with capacity.
    abbrev pub has_room : B → Bool
    has_room b = ops.is_healthy b && ltb (ops.capacity b).1 (ops.capacity b).0

    with_utilization : List (ℕ × B) → List (ℕ × F)
    with_utilization = map λ entry. (entry.0, utilization (ops.capacity entry.1))

    unfoldable pub tier_backend_candidates : Engine B → Tier → List ℕ
    unfolding sort_candidates with_utilization utilization insert_candidate cmp_candidates
    tier_backend_candidates e tier =
        let exact =
          with_utilization
            (keep (λ entry. tier_eq (ops.tier entry.1) tier && has_room entry.1) e.backends) in
        let candidates : List (ℕ × F) = elim exact [
          | [] ↦ with_utilization (keep (λ entry. has_room entry.1) e.backends)
          | c ∷ cs ↦ c ∷ cs
        ] in
        map (λ c. c.0) (sort_candidates candidates)

    unfoldable pub store_page : ℕ → PageBuffer → ℕ → M B PageHandle
    store_page offset page now = do
      free_old ops offset
      tier ← choose_tier ops
      λ e. try_candidates ops (tier_backend_candidates e tier) offset page tier now none e
