-- ===== src/Daemon/KmodRing/Load.antt =====
-- A load request of the kernel from the ring to the staging buffer.
use Prim.Native.Nat.{bit_and}
use distributed_uvm.Prelude.{
  ℕ, ◌+◌, ◌≡◌, ◌≢◌, ◌<◌, refl, some, [], arith, length, get_elem?, get_or, set, get_or-set_self,
}
use distributed_uvm.Prelude.Outcome.{ok}
use distributed_uvm.Common.Page.{PageBuffer}
use distributed_uvm.Backends.Trait.{DuvmBackend}
use distributed_uvm.Backends.Contract.{Contract}
use distributed_uvm.Daemon.Engine.{Engine, Float, load_page}
use distributed_uvm.Daemon.Engine.Inv.{view, IsSound}
use distributed_uvm.Daemon.Engine.Access.{Kept, load_page_lem}
use distributed_uvm.Daemon.KmodRing.{
  KmodRequest, KmodCompletion, Region, answered, op_load, poll_once, process, complete,
}

module _ {F B : Type 0} (float : Float F) {ops : DuvmBackend B} (c : Contract ops) where
  -- Over backends that keep the contract and a sound engine, where a load request is pending whose
  -- offset shows a page and whose slots lie in the mapped region, poll_once answers it: the page
  -- is in the request's staging slot, a completion of result 0 with the request's sequence number
  -- and slot is at the completion index, the read index is advanced under the mask, and the engine
  -- is sound and shows the pages that it did.
  pub poll_load :
      (region : Region) (req : KmodRequest) (now : ℕ) (e : Engine B) (page : PageBuffer)
      (d : KmodCompletion)
      → region.req_read ≢ region.req_write
      → get_elem? region.requests region.req_read ≡ some req
      → req.op ≡ op_load
      → req.staging_slot < length region.staging
      → region.comp_write < length region.completions
      → IsSound c e
      → view c e req.offset ≡ some page
      → (region' : Region) × (e' : Engine B) × (poll_once float ops region now e
          ≡ answered region' e')
        × (get_or region'.staging req.staging_slot [] ≡ page)
        × (get_or region'.completions region.comp_write d
            ≡ record { seq = req.seq; result = 0; staging_slot = req.staging_slot })
        × (region'.req_read ≡ bit_and (region.req_read + 1) region.mask)
        × Kept c e e'
  poll_load region req now e page d pending here is_load slot room v shown =
      let (kept, result) = load_page_lem c e req.offset now v in
      let loaded : (load_page ops req.offset now e).1 ≡ ok page = ground (arith, result, shown) in
      let comp : KmodCompletion = record {
        seq = req.seq;
        result = 0;
        staging_slot = req.staging_slot;
      } in
      let region' : Region = record region {
        staging = set region.staging req.staging_slot page;
        req_read = bit_and (region.req_read + 1) region.mask;
        completions = set region.completions region.comp_write comp;
        comp_write = bit_and (region.comp_write + 1) region.mask;
      } in
      let e' = (load_page ops req.offset now e).0 in
      let run : poll_once float ops region now e ≡ answered region' e' =
        unfold poll_once process complete in
        ground (arith, pending, here, is_load, slot, room, loaded) in
      (
        region',
        e',
        run,
        get_or-set_self region.staging req.staging_slot page [] slot,
        get_or-set_self region.completions region.comp_write comp d room,
        refl,
        kept,
      )
