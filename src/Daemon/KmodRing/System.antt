-- ===== src/Daemon/KmodRing/System.antt =====
-- The kernel and the consumer of crates/duvm-daemon/src/kmod_ring.rs take turns on the shared region, in
-- any order: the kernel writes requests, staging pages and its write index, the consumer polls. The
-- kernel's code is C and not modelled; what it writes is bounded only by the form of the region.
use distributed_uvm.Prelude.{
  ℕ, ◌≡◌, Option, none, some, List, get_elem?, set, Every, ◌⊎◌, ◌==◌, if◌then◌else◌,
}
use distributed_uvm.Prelude.HashMap.{HashMap}
use distributed_uvm.Common.Page.{PageBuffer}
use distributed_uvm.Backends.Trait.{DuvmBackend}
use distributed_uvm.Backends.Contract.{IsPage}
use distributed_uvm.Daemon.Engine.{Engine, Float, with_backends}
use distributed_uvm.Daemon.KmodRing.{KmodRequest, Region, answered, op_store, failure, poll_once}
use distributed_uvm.Daemon.KmodRing.Shared.{IsRegion, answer_to}

-- `memory` has for each offset the page that was in the staging slot of its last store when that
-- store was polled. No code keeps it.
pub record System (B : Type 0) : Type 0 where
  pub region : Region
  pub engine : Engine B
  pub memory : ℕ → Option PageBuffer

abbrev pub recall_request :
    KmodRequest → List PageBuffer → (ℕ → Option PageBuffer) → ℕ → Option PageBuffer
recall_request req staging memory j =
    if req.op == op_store
    then (if req.offset == j then get_elem? staging req.staging_slot else memory j)
    else memory j

abbrev pub recall : Region → (ℕ → Option PageBuffer) → ℕ → Option PageBuffer
recall region memory j = elim (get_elem? region.requests region.req_read) [
  | none ↦ memory j
  | some req ↦ recall_request req region.staging memory j
]

module _ (k : ℕ) {F B : Type 0} (float : Float F) (ops : DuvmBackend B) where
  pub data Step (s : System B) : System B → Type 0 where
    -- the kernel leaves the consumer's indices and the completions
    written :
        (region : Region)
        → IsRegion k region
        → Every IsPage region.staging
        → region.req_read ≡ s.region.req_read
        → region.comp_write ≡ s.region.comp_write
        → region.completions ≡ s.region.completions
        → Step s (record s { region = region })
    polled :
        (now : ℕ) (region : Region) (e : Engine B)
        → poll_once float ops s.region now s.engine ≡ answered region e
        → Step s (record { region = region; engine = e; memory = recall s.region s.memory })

  -- From a region in order and an engine that has just started.
  pub data Reach (backends : HashMap B) : System B → Type 0 where
    started :
        (region : Region)
        → IsRegion k region
        → Every IsPage region.staging
        → Reach backends
            (record { region = region; engine = with_backends backends; memory = λ j. none })
    later : {s t : System B} → Reach backends s → Step s t → Reach backends t

  -- What a poll of a load leads to: the page that was last stored at the offset, or -1.
  abbrev pub Loads : System B → KmodRequest → Region → Type 0
  Loads s req region' =
      ((page : PageBuffer) × (s.memory req.offset ≡ some page)
        × (region'.staging ≡ set s.region.staging req.staging_slot page)
        × (region'.completions ≡ set s.region.completions s.region.comp_write (answer_to req 0)))
      ⊎ ((region'.staging ≡ s.region.staging)
          × (region'.completions
              ≡ set s.region.completions s.region.comp_write (answer_to req failure)))
