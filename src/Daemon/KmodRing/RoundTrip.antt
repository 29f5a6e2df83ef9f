-- ===== src/Daemon/KmodRing/RoundTrip.antt =====
-- A page through the kernel's ring and back: a store request, and a load request after it.
use distributed_uvm.Prelude.{
  ℕ, ◌+◌, ◌^◌, ◌%◌, ◌≡◌, ◌≢◌, sym, ap, ◌∙◌, subst, some, [], arith, get_elem?, get_or, Every,
  get_elem?-set_self,
}
use distributed_uvm.Common.Page.{PageBuffer}
use distributed_uvm.Backends.Trait.{DuvmBackend}
use distributed_uvm.Backends.Contract.{Contract, IsPage}
use distributed_uvm.Daemon.Engine.{Engine, Float}
use distributed_uvm.Daemon.Engine.Inv.{view, IsSound}
use distributed_uvm.Daemon.KmodRing.{
  KmodRequest, KmodCompletion, Region, answered, op_load, op_store, poll_once,
}
use distributed_uvm.Daemon.KmodRing.Shared.{IsRegion, IsNext, answer_to}
use distributed_uvm.Daemon.KmodRing.Load.{poll_load}
use distributed_uvm.Daemon.KmodRing.Effect.{
  Effect, Answers, poll_once_lem, stored, not_stored, loaded, missed, rejected,
}

module _ {B : Type 0} {ops : DuvmBackend B} (c : Contract ops) (k : ℕ) where
  -- The result that a completion carries.
  written_result :
      (region region' : Region) (req : KmodRequest) (result given : ℕ)
      → IsRegion k region
      → IsNext k region req result region'
      → get_elem? region'.completions region.comp_write ≡ some (answer_to req given)
      → result ≡ given
  written_result region region' req result given v n h =
      let there : get_elem? region'.completions region.comp_write ≡ some (answer_to req result) =
        ap (λ xs. get_elem? xs region.comp_write) n.written
        ∙ get_elem?-set_self region.completions region.comp_write (answer_to req result)
            (omega (arith, v.completes, v.completions)) in
      ground (arith, h, there)

  -- A store that was answered with 0 shows its page.
  stored_shows :
      (req : KmodRequest) (region region' : Region) (e e' : Engine B) (result : ℕ)
      (page : PageBuffer)
      → req.op ≡ op_store
      → get_elem? region.staging req.staging_slot ≡ some page
      → result ≡ 0
      → Effect c req region.staging e result region'.staging e'
      → IsSound c e' × (view c e' req.offset ≡ some page)
  stored_shows req region region' e e' result page op here zero_result
        (stored page' h q t r same (victim, sound, rest)) =
      let same : page' ≡ page = ground (arith, here, t) in
      (sound, rest req.offset ∙ ground (arith, same))
  stored_shows req region region' e e' result page op here zero_result
        (not_stored page' x q t r same s) =
      absurd (omega (arith, zero_result, r))
  stored_shows req region region' e e' result page op here zero_result
        (loaded page' q shown r same kept) =
      absurd (omega (arith, op, q))
  stored_shows req region region' e e' result page op here zero_result
        (missed q shown r same kept) =
      absurd (omega (arith, op, q))
  stored_shows req region region' e e' result page op here zero_result
        (rejected ns nl r same kept) =
      absurd (ns op)

  -- Over backends that keep the contract and a sound engine, in a region in order whose staging
  -- slots hold whole pages, where a store request is pending and a load request of the same offset
  -- behind it, a poll that answers the store with result 0 is followed by a poll that answers the
  -- load with result 0, its sequence number and slot, and puts the stored page in its slot.
  pub store_then_load :
      {F : Type 0} (float : Float F) (region region₁ : Region) (e e₁ : Engine B) (now later : ℕ)
      (store_req load_req : KmodRequest) (page : PageBuffer) (d : KmodCompletion)
      → IsRegion k region
      → Every IsPage region.staging
      → IsSound c e
      → region.req_read ≢ region.req_write
      → get_elem? region.requests region.req_read ≡ some store_req
      → store_req.op ≡ op_store
      → get_elem? region.staging store_req.staging_slot ≡ some page
      → (region.req_read + 1) % 2 ^ k ≢ region.req_write
      → get_elem? region.requests ((region.req_read + 1) % 2 ^ k) ≡ some load_req
      → load_req.op ≡ op_load
      → load_req.offset ≡ store_req.offset
      → poll_once float ops region now e ≡ answered region₁ e₁
      → get_elem? region₁.completions region.comp_write ≡ some (answer_to store_req 0)
      → (region₂ : Region) × (e₂ : Engine B) × (poll_once float ops region₁ later e₁
          ≡ answered region₂ e₂)
        × (get_or region₂.staging load_req.staging_slot [] ≡ page)
        × (get_or region₂.completions region₁.comp_write d ≡ answer_to load_req 0)
  store_then_load float region region₁ e e₁ now later store_req load_req page d v whole sound
        pending at is_store slot more next is_load same_offset run success =
      let (req, here, a) = poll_once_lem c float k region now e v pending whole sound in
      let same : req ≡ store_req = ground (arith, here, at) in
      let (result, n, effect) : (r : ℕ) × IsNext k region store_req r region₁
          × Effect c store_req region.staging e r region₁.staging e₁ =
        subst (λ x. Answers c k region e x (answered region₁ e₁)) same
          (subst (Answers c k region e req) run a) in
      let zero_result = written_result region region₁ store_req result 0 v n success in
      let (sound₁, shown) =
        stored_shows store_req region region₁ e e₁ result page is_store slot zero_result effect in
      let w = n.valid in
      let pending₁ : region₁.req_read ≢ region₁.req_write = λ q. more (sym n.read ∙ q ∙ n.write) in
      let at₁ : get_elem? region₁.requests region₁.req_read ≡ some load_req =
        ap (get_elem? region₁.requests) n.read
        ∙ ap (λ xs. get_elem? xs ((region.req_read + 1) % 2 ^ k)) n.requests
        ∙ next in
      let (region₂, e₂, run₂, staged, completed, advanced, kept) =
        poll_load float c region₁ load_req later e₁ page d pending₁ at₁ is_load
          (w.slots region₁.req_read load_req at₁) (omega (arith, w.completes, w.completions)) sound₁
          (ap (view c e₁) same_offset ∙ shown) in
      (region₂, e₂, run₂, staged, completed)
