-- ===== src/Common/Stats.antt =====
-- crates/duvm-common/src/stats.rs: the daemon's counters. A `fetch_add` of a `u64` wraps.
use Prim.Native.String.{String, ◌++◌}
use distributed_uvm.Prelude.{ℕ, ◌+◌, ◌%◌, ◌^◌}

pub record DaemonStats : Type 0 where
  pub pages_stored : ℕ
  pub pages_loaded : ℕ
  pub pages_invalidated : ℕ
  pub pages_prefetched : ℕ
  pub store_errors : ℕ
  pub load_errors : ℕ
  pub fallback_events : ℕ
  pub ring_full_events : ℕ

abbrev pub new_stats : DaemonStats
new_stats = record {
  pages_stored = 0;
  pages_loaded = 0;
  pages_invalidated = 0;
  pages_prefetched = 0;
  store_errors = 0;
  load_errors = 0;
  fallback_events = 0;
  ring_full_events = 0;
}

-- `fetch_add(1)` and `fetch_sub(n)` on an `AtomicU64`.
abbrev pub incr : ℕ → ℕ
incr n = (n + 1) % 2 ^ 64

-- `StatsSnapshot`.
pub record StatsSnapshot : Type 0 where
  pub pages_stored : ℕ
  pub pages_loaded : ℕ
  pub pages_invalidated : ℕ
  pub pages_prefetched : ℕ
  pub store_errors : ℕ
  pub load_errors : ℕ
  pub fallback_events : ℕ
  pub ring_full_events : ℕ

abbrev pub snapshot : DaemonStats → StatsSnapshot
snapshot s = record {
  pages_stored = s.pages_stored;
  pages_loaded = s.pages_loaded;
  pages_invalidated = s.pages_invalidated;
  pages_prefetched = s.pages_prefetched;
  store_errors = s.store_errors;
  load_errors = s.load_errors;
  fallback_events = s.fallback_events;
  ring_full_events = s.ring_full_events;
}

-- `Display`, over the printing of a number.
unfoldable pub display : (ℕ → String) → StatsSnapshot → String
display show s =
    "Pages stored:      "
    ++ show s.pages_stored
    ++ "\nPages loaded:      "
    ++ show s.pages_loaded
    ++ "\nPages invalidated: "
    ++ show s.pages_invalidated
    ++ "\nPages prefetched:  "
    ++ show s.pages_prefetched
    ++ "\nStore errors:      "
    ++ show s.store_errors
    ++ "\nLoad errors:       "
    ++ show s.load_errors
    ++ "\nFallback events:   "
    ++ show s.fallback_events
    ++ "\nRing full events:  "
    ++ show s.ring_full_events
