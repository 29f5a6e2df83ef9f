-- ===== src/Daemon/KmodRing/Step.antt =====
-- One poll of the kernel's ring: a request less, a completion more.
use distributed_uvm.Prelude.{ℕ, ◌≡◌, ◌≢◌, sym, subst, some, List, get_elem?, set, inl, inr, ◌⊎◌}
use distributed_uvm.Common.Page.{PageBuffer}
use distributed_uvm.Backends.Trait.{DuvmBackend}
use distributed_uvm.Daemon.Engine.{Engine, Float}
use distributed_uvm.Daemon.KmodRing.{
  KmodRequest, Region, Polled, panicked, answered, failure, poll_once, complete,
}
use distributed_uvm.Daemon.KmodRing.Shared.{
  IsRegion, IsNext, staged-IsRegion, completed_region, complete_run, complete-IsNext,
}
use distributed_uvm.Daemon.KmodRing.Cases.{
  Ran, poll-Ran, store_ended, store_failed, store_panicked, load_ended, load_failed, load_panicked,
  unknown,
}

abbrev pub Goes : {B : Type 0} → ℕ → Region → Polled B → Type 0
Goes {B = B} k region p =
    ((region' : Region) × (e : Engine B) × (req : KmodRequest) × (result : ℕ) × (p
        ≡ answered region' e)
      × IsNext k region req result region')
    ⊎ ((e : Engine B) × (p ≡ panicked e))

module _ {F B : Type 0} (float : Float F) (ops : DuvmBackend B) where
  module _ (k : ℕ) (region : Region) (v : IsRegion k region) (req : KmodRequest)
      (here : get_elem? region.requests region.req_read ≡ some req) where
    complete-Goes :
        (staging : List PageBuffer) (result : ℕ) (e : Engine B)
        → IsRegion k (record region { staging = staging })
        → Goes k region (complete (record region { staging = staging }) req result e)
    complete-Goes staging result e w = inl (
      completed_region (record region { staging = staging }) req result,
      e,
      req,
      result,
      complete_run k (record region { staging = staging }) req result e w,
      complete-IsNext k region staging req result w here,
    )

    Ran-Goes :
        (now : ℕ) (e : Engine B) (p : Polled B) → Ran float ops region req now e p → Goes k region p
    Ran-Goes now e p (store_ended page s h op t u q) =
        subst (Goes k region) (sym q) (complete-Goes region.staging 0 s v)
    Ran-Goes now e p (store_failed page s x op t u q) =
        subst (Goes k region) (sym q) (complete-Goes region.staging failure s v)
    Ran-Goes now e p (store_panicked s op q) = inr (s, q)
    Ran-Goes now e p (load_ended page s op u q) = subst (Goes k region) (sym q) (
        complete-Goes (set region.staging req.staging_slot page) 0 s
          (staged-IsRegion k region req.staging_slot page v))
    Ran-Goes now e p (load_failed s x op u q) =
        subst (Goes k region) (sym q) (complete-Goes region.staging failure s v)
    Ran-Goes now e p (load_panicked s op u q) = inr (s, q)
    Ran-Goes now e p (unknown ns nl q) =
        subst (Goes k region) (sym q) (complete-Goes region.staging failure e v)

  pub poll-Goes :
      (k : ℕ) (region : Region) (now : ℕ) (e : Engine B)
      → IsRegion k region
      → region.req_read ≢ region.req_write
      → Goes k region (poll_once float ops region now e)
  poll-Goes k region now e v ne =
      let (req, here, ran) = poll-Ran float ops k region now e v ne in
      Ran-Goes k region v req here now e (poll_once float ops region now e) ran
