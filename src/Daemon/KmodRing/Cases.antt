-- ===== src/Daemon/KmodRing/Cases.antt =====
-- One poll of the kernel's ring in crates/duvm-daemon/src/kmod_ring.rs, case by case.
use distributed_uvm.Prelude.{
  ℕ, zero, suc, ◌≡◌, ◌≢◌, ◌<◌, sym, ap, subst, none, some, List, [], ◌∷◌, arith, length, get_elem?,
  set, ◌==◌, true, false, inl, inr, Bool-cases, Option-cases,
}
use distributed_uvm.Common.Page.{PageBuffer, PageHandle}
use distributed_uvm.Prelude.Outcome.{Error, ok, err, panic, Outcome-cases}
use distributed_uvm.Backends.Trait.{DuvmBackend}
use distributed_uvm.Daemon.Engine.{Engine, Float, load_page, store_page}
use distributed_uvm.Daemon.KmodRing.{
  KmodRequest, Region, Polled, panicked, op_load, op_store, failure, poll_once, process, complete,
}
use distributed_uvm.Daemon.KmodRing.Shared.{IsRegion}

outside_list : {A : Type 0} (xs : List A) (i : ℕ) → get_elem? xs i ≡ none → ¬ (i < length xs)
outside_list [] i h l = absurd (omega (arith, l))
outside_list (x ∷ xs) zero h l = absurd (ground (arith, h))
outside_list (x ∷ xs) (suc i) h l = outside_list xs i h (omega (arith, l))

-- Where a request leaves the engine, and what is written back.
module _ {F B : Type 0} (float : Float F) (ops : DuvmBackend B) where
  pub data Ran (region : Region) (req : KmodRequest) (now : ℕ) (e : Engine B) (p : Polled B)
      : Type 0 where
    store_ended :
        (page : PageBuffer) (s : Engine B) (h : PageHandle)
        → req.op ≡ op_store
        → get_elem? region.staging req.staging_slot ≡ some page
        → store_page float ops req.offset page now e ≡ (s, ok h)
        → p ≡ complete region req 0 s
        → Ran region req now e p
    store_failed :
        (page : PageBuffer) (s : Engine B) (x : Error)
        → req.op ≡ op_store
        → get_elem? region.staging req.staging_slot ≡ some page
        → store_page float ops req.offset page now e ≡ (s, err x)
        → p ≡ complete region req failure s
        → Ran region req now e p
    store_panicked : (s : Engine B) → req.op ≡ op_store → p ≡ panicked s → Ran region req now e p
    load_ended :
        (page : PageBuffer) (s : Engine B)
        → req.op ≡ op_load
        → load_page ops req.offset now e ≡ (s, ok page)
        → p
          ≡ complete (record region { staging = set region.staging req.staging_slot page }) req 0 s
        → Ran region req now e p
    load_failed :
        (s : Engine B) (x : Error)
        → req.op ≡ op_load
        → load_page ops req.offset now e ≡ (s, err x)
        → p ≡ complete region req failure s
        → Ran region req now e p
    load_panicked :
        (s : Engine B)
        → req.op ≡ op_load
        → load_page ops req.offset now e ≡ (s, panic)
        → p ≡ panicked s
        → Ran region req now e p
    unknown :
        req.op ≢ op_store
        → req.op ≢ op_load
        → p ≡ complete region req failure e
        → Ran region req now e p

  store-Ran :
      (region : Region) (req : KmodRequest) (now : ℕ) (e : Engine B) (page : PageBuffer)
      → (req.op == op_store) ≡ true
      → get_elem? region.staging req.staging_slot ≡ some page
      → Ran region req now e (process float ops region req now e)
  store-Ran region req now e page is_store t =
      let s = (store_page float ops req.offset page now e).0 in
      let r = (store_page float ops req.offset page now e).1 in
      let op : req.op ≡ op_store = ground (arith, is_store) in
      elim (Outcome-cases r) [
        | inl (h, u) ↦
            store_ended page s h op t (ap (λ x. (s, x)) u)
              (unfold process in ground (arith, is_store, t, u))
        | inr (inl (x, u)) ↦
            store_failed page s x op t (ap (λ x. (s, x)) u)
              (unfold process in ground (arith, is_store, t, u))
        | inr (inr u) ↦ store_panicked s op (unfold process in ground (arith, is_store, t, u))
      ]

  load-Ran :
      (region : Region) (req : KmodRequest) (now : ℕ) (e : Engine B)
      → (req.op == op_store) ≡ false
      → (req.op == op_load) ≡ true
      → req.staging_slot < length region.staging
      → Ran region req now e (process float ops region req now e)
  load-Ran region req now e not_store is_load slot =
      let s = (load_page ops req.offset now e).0 in
      let r = (load_page ops req.offset now e).1 in
      let op : req.op ≡ op_load = ground (arith, is_load) in
      elim (Outcome-cases r) [
        | inl (page, u) ↦
            load_ended page s op (ap (λ x. (s, x)) u)
              (unfold process in ground (arith, not_store, is_load, u, slot))
        | inr (inl (x, u)) ↦
            load_failed s x op (ap (λ x. (s, x)) u)
              (unfold process in ground (arith, not_store, is_load, u))
        | inr (inr u) ↦
            load_panicked s op (ap (λ x. (s, x)) u)
              (unfold process in ground (arith, not_store, is_load, u))
      ]

  pub process-Ran :
      (region : Region) (req : KmodRequest) (now : ℕ) (e : Engine B)
      → req.staging_slot < length region.staging
      → Ran region req now e (process float ops region req now e)
  process-Ran region req now e slot = elim (Bool-cases (req.op == op_store)) [
    | inl is_store ↦ elim (Option-cases (get_elem? region.staging req.staging_slot)) [
      | inl t ↦ absurd (outside_list region.staging req.staging_slot t slot)
      | inr (page, t) ↦ store-Ran region req now e page is_store t
    ]
    | inr not_store ↦ elim (Bool-cases (req.op == op_load)) [
      | inl is_load ↦ load-Ran region req now e not_store is_load slot
      | inr not_load ↦
          unknown (ground (arith, not_store)) (ground (arith, not_load))
            (unfold process in ground (arith, not_store, not_load))
    ]
  ]

  -- A pending request is processed.
  pub poll-Ran :
      (k : ℕ) (region : Region) (now : ℕ) (e : Engine B)
      → IsRegion k region
      → region.req_read ≢ region.req_write
      → (req : KmodRequest) × (get_elem? region.requests region.req_read ≡ some req)
        × Ran region req now e (poll_once float ops region now e)
  poll-Ran k region now e v ne = elim (Option-cases (get_elem? region.requests region.req_read)) [
    | inl t ↦
        absurd (outside_list region.requests region.req_read t (omega (arith, v.reads, v.requests)))
    | inr (req, t) ↦
        let run : poll_once float ops region now e ≡ process float ops region req now e =
          unfold poll_once in ground (arith, ne, t) in
        (
          req,
          t,
          subst (Ran region req now e) (sym run)
              (process-Ran region req now e (v.slots region.req_read req t)),
        )
  ]
