-- ===== src/Backends/Trait.antt =====
-- crates/duvm-backend-trait/src/lib.rs: the interface of a backend. A method takes the backend's
-- state and returns the new one beside its result; a load returns the page that goes to the
-- caller's buffer. The name, which only goes to logs, is left out.
use distributed_uvm.Prelude.{ℕ, ◌*◌, Bool, List, [], ◌∷◌, ◌++◌}
use distributed_uvm.Prelude.Outcome.{Outcome, ok, err, panic}
use distributed_uvm.Common.Page.{PageHandle, PageBuffer, Tier}

-- `BackendConfig`, whose `settings` no backend reads.
pub record BackendConfig : Type 0 where
  pub max_pages : ℕ

abbrev pub default_config : BackendConfig
default_config = record { max_pages = 1024 * 1024 }

pub record DuvmBackend (B : Type 0) : Type 0 where
  pub tier : B → Tier
  pub init : B → BackendConfig → B × Outcome (Unit {0})
  pub alloc_page : B → B × Outcome PageHandle
  pub free_page : B → PageHandle → B × Outcome (Unit {0})
  pub store_page : B → PageHandle → PageBuffer → B × Outcome (Unit {0})
  pub load_page : B → PageHandle → B × Outcome PageBuffer
  pub capacity : B → ℕ × ℕ
  pub latency_ns : B → ℕ
  pub is_healthy : B → Bool
  pub shutdown : B → B × Outcome (Unit {0})

module _ {B : Type 0} (ops : DuvmBackend B) where
  -- The default `store_pages` stops at the first error.
  unfoldable pub store_pages : B → List (PageHandle × PageBuffer) → B × Outcome (Unit {0})
  store_pages b [] = (b, ok tt)
  store_pages b ((h, page) ∷ pages) =
      let (b', r) = ops.store_page b h page in
      elim r [ ok _ ↦ store_pages b' pages | err e ↦ (b', err e) | panic ↦ (b', panic) ]

  -- The default `load_pages` likewise; the pages that were read come in order.
  load_from : B → List PageHandle → List PageBuffer → B × Outcome (List PageBuffer)
  load_from b [] done = (b, ok done)
  load_from b (h ∷ hs) done =
      let (b', r) = ops.load_page b h in
      elim r [
        | ok page ↦ load_from b' hs (done ++ (page ∷ []))
        | err e ↦ (b', err e)
        | panic ↦ (b', panic)
      ]

  unfoldable pub load_pages : B → List PageHandle → B × Outcome (List PageBuffer)
  unfolding load_from
  load_pages b hs = load_from b hs []

-- Without the name.
pub record BackendInfo : Type 0 where
  pub tier : Tier
  pub total_pages : ℕ
  pub used_pages : ℕ
  pub latency_ns : ℕ
  pub healthy : Bool

-- `BackendInfo::from_backend`
unfoldable pub from_backend : {B : Type 0} → DuvmBackend B → B → BackendInfo
from_backend ops b = record {
  tier = ops.tier b;
  total_pages = (ops.capacity b).0;
  used_pages = (ops.capacity b).1;
  latency_ns = ops.latency_ns b;
  healthy = ops.is_healthy b;
}
