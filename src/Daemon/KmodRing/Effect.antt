-- ===== src/Daemon/KmodRing/Effect.antt =====
-- One poll of the kernel's ring over a sound engine: what a request does to the pages.
use distributed_uvm.Prelude.{
  ℕ, ◌≡◌, ◌≢◌, refl, sym, ap, ◌∙◌, subst, none, some, List, arith, get_elem?, set, Every,
  Option-cases, inl, inr, Empty, Every-get_elem?,
}
use distributed_uvm.Prelude.Outcome.{Outcome, Error, ok, err, panic, page_not_found}
use distributed_uvm.Common.Page.{PageHandle, PageBuffer}
use distributed_uvm.Backends.Trait.{DuvmBackend}
use distributed_uvm.Backends.Contract.{Contract, IsPage}
use distributed_uvm.Daemon.Engine.{Engine, Float, load_page}
use distributed_uvm.Daemon.Engine.Inv.{view, IsSound}
use distributed_uvm.Daemon.Engine.Store.{Stored, store_page_lem}
use distributed_uvm.Daemon.Engine.Access.{Kept, load_page_lem}
use distributed_uvm.Daemon.KmodRing.{
  KmodRequest, Region, Polled, idle, outside, panicked, answered, op_load, op_store, failure,
  poll_once, complete,
}
use distributed_uvm.Daemon.KmodRing.Shared.{
  IsRegion, IsNext, staged-IsRegion, complete_run, complete-IsNext,
}
use distributed_uvm.Daemon.KmodRing.Cases.{
  Ran, poll-Ran, store_ended, store_failed, store_panicked, load_ended, load_failed, load_panicked,
  unknown,
}

module _ {B : Type 0} {ops : DuvmBackend B} (c : Contract ops) where
  -- What the request `req` with the answer `result` has done to the engine and the staging pages.
  pub data Effect (req : KmodRequest) (before : List PageBuffer) (e : Engine B) (result : ℕ)
      (after : List PageBuffer) (e' : Engine B) : Type 0 where
    stored :
        (page : PageBuffer) (h : PageHandle)
        → req.op ≡ op_store
        → get_elem? before req.staging_slot ≡ some page
        → result ≡ 0
        → after ≡ before
        → Stored c e req.offset page (e', ok h)
        → Effect req before e result after e'
    not_stored :
        (page : PageBuffer) (x : Error)
        → req.op ≡ op_store
        → get_elem? before req.staging_slot ≡ some page
        → result ≡ failure
        → after ≡ before
        → Stored c e req.offset page (e', err x)
        → Effect req before e result after e'
    loaded :
        (page : PageBuffer)
        → req.op ≡ op_load
        → view c e req.offset ≡ some page
        → result ≡ 0
        → after ≡ set before req.staging_slot page
        → Kept c e e'
        → Effect req before e result after e'
    missed :
        req.op ≡ op_load
        → view c e req.offset ≡ none
        → result ≡ failure
        → after ≡ before
        → Kept c e e'
        → Effect req before e result after e'
    rejected :
        req.op ≢ op_store
        → req.op ≢ op_load
        → result ≡ failure
        → after ≡ before
        → e' ≡ e
        → Effect req before e result after e'

  -- An answer in the region and its effect, or a panic of a store.
  abbrev pub Answers : ℕ → Region → Engine B → KmodRequest → Polled B → Type 0
  Answers k region e req idle = Empty
  Answers k region e req outside = Empty
  Answers k region e req (panicked e') = req.op ≡ op_store
  Answers k region e req (answered region' e') =
      (result : ℕ) × IsNext k region req result region'
      × Effect req region.staging e result region'.staging e'

  module _ (k : ℕ) (region : Region) (v : IsRegion k region) (req : KmodRequest) (now : ℕ)
      (here : get_elem? region.requests region.req_read ≡ some req) (e : Engine B)
      (sound : IsSound c e) where
    complete-Answers :
        (staging : List PageBuffer) (result : ℕ) (s : Engine B) (p : Polled B)
        → IsRegion k (record region { staging = staging })
        → p ≡ complete (record region { staging = staging }) req result s
        → Effect req region.staging e result staging s
        → Answers k region e req p
    complete-Answers staging result s p w q effect =
        subst (Answers k region e req)
          (sym (q ∙ complete_run k (record region { staging = staging }) req result s w))
          (result, complete-IsNext k region staging req result w here, effect)

    -- The effect of a load, from what it returns.
    load-view :
        (s : Engine B) (r : Outcome PageBuffer)
        → load_page ops req.offset now e ≡ (s, r)
        → Kept c e s
          × (r ≡ elim (view c e req.offset) [ none ↦ err page_not_found | some page ↦ ok page ])
    load-view s r u =
        let (kept, result) = load_page_lem c e req.offset now sound in
        (subst (Kept c e) (ap (λ x. x.0) u) kept, sym (ap (λ x. x.1) u) ∙ result)

    module _ {F : Type 0} (float : Float F) (pages : Every IsPage region.staging) where
      Ran-Answers : (p : Polled B) → Ran float ops region req now e p → Answers k region e req p
      Ran-Answers p (store_ended page s h op t u q) = complete-Answers region.staging 0 s p v q (
          stored page h op t refl refl (
            subst (Stored c e req.offset page) u (
              store_page_lem c float e req.offset now page
                (Every-get_elem? IsPage region.staging req.staging_slot page pages t) sound)))
      Ran-Answers p (store_failed page s x op t u q) =
          complete-Answers region.staging failure s p v q (
            not_stored page x op t refl refl (
              subst (Stored c e req.offset page) u (
                store_page_lem c float e req.offset now page
                  (Every-get_elem? IsPage region.staging req.staging_slot page pages t) sound)))
      Ran-Answers p (store_panicked s op q) = subst (Answers k region e req) (sym q) op
      Ran-Answers p (load_ended page s op u q) =
          let (kept, r) = load-view s (ok page) u in
          elim (Option-cases (view c e req.offset)) [
            | inl t ↦ absurd (ground (arith, r, t))
            | inr (shown, t) ↦
                let same : page ≡ shown = ground (arith, r, t) in
                complete-Answers (set region.staging req.staging_slot page) 0 s p
                  (staged-IsRegion k region req.staging_slot page v) q
                  (loaded page op (t ∙ ap some (sym same)) refl refl kept)
          ]
      Ran-Answers p (load_failed s x op u q) =
          let (kept, r) = load-view s (err x) u in
          elim (Option-cases (view c e req.offset)) [
            | inl t ↦ complete-Answers region.staging failure s p v q (missed op t refl refl kept)
            | inr (shown, t) ↦ absurd (ground (arith, r, t))
          ]
      Ran-Answers p (load_panicked s op u q) =
          let (kept, r) = load-view s panic u in
          elim (Option-cases (view c e req.offset)) [
            | inl t ↦ absurd (ground (arith, r, t))
            | inr (shown, t) ↦ absurd (ground (arith, r, t))
          ]
      Ran-Answers p (unknown ns nl q) =
          complete-Answers region.staging failure e p v q (rejected ns nl refl refl refl)

  -- Over backends that keep the contract and a sound engine, in a region in order whose staging
  -- slots hold whole pages and where a request is pending, poll_once panics, only on a store, or
  -- answers the request at the read index: its completion has the request's sequence number and
  -- slot. A store of the slot's page has result 0 where the engine then shows the page and -1
  -- where it then shows nothing there, other offsets losing at most one page; a load has result 0
  -- and the offset's page in the slot where the engine shows one and -1 where it does not, and any
  -- other opcode has -1 and changes nothing.
  pub poll_once_lem :
      {F : Type 0} (float : Float F) (k : ℕ) (region : Region) (now : ℕ) (e : Engine B)
      → IsRegion k region
      → region.req_read ≢ region.req_write
      → Every IsPage region.staging
      → IsSound c e
      → (req : KmodRequest) × (get_elem? region.requests region.req_read ≡ some req)
        × Answers k region e req (poll_once float ops region now e)
  poll_once_lem float k region now e v ne pages sound =
      let (req, here, ran) = poll-Ran float ops k region now e v ne in
      (
        req,
        here,
        Ran-Answers k region v req now here e sound float pages (poll_once float ops region now e)
            ran,
      )
