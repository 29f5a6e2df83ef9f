-- ===== src/Daemon/Engine/Candidates.antt =====
-- `store_page`, the loop over the candidates: what it does to the engine, whatever the backends answer.
use distributed_uvm.Prelude.{
  ℕ, ◌≡◌, ◌≢◌, refl, sym, ap, ◌∙◌, Option, none, some, List, [], ◌∷◌, arith, ◌==◌, if◌then◌else◌,
  inl, inr, Option-cases,
}
use distributed_uvm.Prelude.HashMap.{HashMap, lookup, insert, lookup-insert_self}
use distributed_uvm.Prelude.Outcome.{Outcome, Outcome-cases, Error, ok, err, panic}
use distributed_uvm.Common.Page.{PageHandle, PageBuffer, Tier, offset}
use distributed_uvm.Backends.Trait.{DuvmBackend}
use distributed_uvm.Backends.Contract.{Contract, IsPage}
use distributed_uvm.Daemon.Policy.{PageMeta, record_store}
use distributed_uvm.Common.Page.{empty_flags}
use distributed_uvm.Daemon.Engine.{Engine, put, try_candidates, count_stored}
use distributed_uvm.Daemon.Engine.Inv.{
  view_meta, view, IsSound, view-insert, insert-Inv, view-add, add-Inv,
}
use distributed_uvm.Daemon.Engine.Steps.{tracked_ne}

-- The entry of the page table for a new page.
abbrev new_entry : PageHandle → ℕ → Tier → ℕ → PageMeta
new_entry h id tier now = record {
  handle = h;
  backend_id = id;
  tier = tier;
  access_count = 0;
  last_access = now;
  flags = empty_flags;
}

module _ {B : Type 0} {ops : DuvmBackend B} (c : Contract ops) where
  -- What the loop over the candidates has done to the engine: on success the page is at its offset
  -- and all else is as before, on an error all is as before.
  abbrev pub Tried : Engine B → ℕ → PageBuffer → Engine B × Outcome PageHandle → Type 0
  Tried e o page (e', ok h) =
      IsSound c e' × ((j : ℕ) → view c e' j ≡ (if o == j then some page else view c e j))
  Tried e o page (e', err x) = IsSound c e' × ((j : ℕ) → view c e' j ≡ view c e j)
  Tried e o page (e', panic) = Unit

  -- A backend that was asked for a slot in vain.
  module _ (e : Engine B) (id : ℕ) (b : B) (v : IsSound c e)
      (here : lookup id e.backends ≡ some b) where
    alloc_frame :
        (j : ℕ) (m : PageMeta)
        → lookup j e.policy.pages ≡ some m
        → m.backend_id ≡ id
        → c.contents (ops.alloc_page b).0 (offset m.handle) ≡ c.contents b (offset m.handle)
    alloc_frame j m t same = c.alloc_contents b (offset m.handle)

    refused_step :
        (x : Error)
        → (ops.alloc_page b).1 ≡ err x
        → IsSound c (put e id (ops.alloc_page b).0)
          × ((j : ℕ) → view c (put e id (ops.alloc_page b).0) j ≡ view c e j)
    refused_step x r = (
      insert-Inv c e.backends e.policy.pages id b (ops.alloc_page b).0 here alloc_frame
          (c.alloc_valid b (v.valid id b here) (λ q. ground (arith, r, q))) v,
      view-insert c e.backends e.policy.pages id b (ops.alloc_page b).0 here alloc_frame,
    )

    -- A slot was handed out, and the page was written into it or not.
    module _ (h : PageHandle) (page : PageBuffer) (got : (ops.alloc_page b).1 ≡ ok h) where
      abbrev allocated : B
      allocated = (ops.alloc_page b).0

      abbrev written : B
      written = (ops.store_page allocated h page).0

      abbrev released : B
      released = (ops.free_page written h).0

      fresh : c.contents b (offset h) ≡ none
      fresh = (c.alloc_fresh b h (v.valid id b here) got).0

      apart :
          (j : ℕ) (m : PageMeta)
          → lookup j e.policy.pages ≡ some m
          → m.backend_id ≡ id
          → offset h ≢ offset m.handle
      apart = tracked_ne c e.backends e.policy.pages id b (offset h) v here fresh

      written_frame :
          (j : ℕ) (m : PageMeta)
          → lookup j e.policy.pages ≡ some m
          → m.backend_id ≡ id
          → c.contents written (offset m.handle) ≡ c.contents b (offset m.handle)
      written_frame j m t same =
          c.store_frame allocated h page (offset m.handle) (apart j m t same)
          ∙ c.alloc_contents b (offset m.handle)

      released_frame :
          (j : ℕ) (m : PageMeta)
          → lookup j e.policy.pages ≡ some m
          → m.backend_id ≡ id
          → c.contents released (offset m.handle) ≡ c.contents b (offset m.handle)
      released_frame j m t same =
          let kept = apart j m t same in
          ground
            (arith, c.free_contents written h (offset m.handle), written_frame j m t same, kept)

      written-IsValid : c.IsValid written
      written-IsValid =
          c.store_valid allocated h page
            (c.alloc_valid b (v.valid id b here) (λ q. ground (arith, got, q)))
            (c.alloc_fresh b h (v.valid id b here) got).1

      released_step :
          IsSound c (put e id released) × ((j : ℕ) → view c (put e id released) j ≡ view c e j)
      released_step = (
        insert-Inv c e.backends e.policy.pages id b released here released_frame
            (c.free_valid written h written-IsValid) v,
        view-insert c e.backends e.policy.pages id b released here released_frame,
      )

      -- What the new entry of the page table shows.
      entry_view :
          (m : PageMeta)
          → IsPage page
          → (ops.store_page allocated h page).1 ≡ ok tt
          → m.backend_id ≡ id
          → m.handle ≡ h
          → view_meta c (insert id written e.backends) (some m) ≡ some page
      entry_view m p done same mine = ground (
        arith,
        same,
        mine,
        lookup-insert_self id written e.backends,
        c.store_contents allocated h page (offset h) p done,
      )

      stored_step :
          (o now : ℕ) (tier : Tier)
          → IsPage page
          → (ops.store_page allocated h page).1 ≡ ok tt
          → let e' : Engine B = record (put e id written) {
            policy = record_store e.policy o h id tier now;
          } in
            IsSound c e' × ((j : ℕ) → view c e' j ≡ (if o == j then some page else view c e j))
      unfolding record_store
      stored_step o now tier p done =
          let m : PageMeta = new_entry h id tier now in
          let ps = e.policy.pages in
          let bs : HashMap B = insert id written e.backends in
          let shown = entry_view m p done refl refl in
          let w = insert-Inv c e.backends ps id b written here written_frame written-IsValid v in
          (
            add-Inv c bs ps o m page shown (λ j n ne t same q. apart j n t same (sym q)) w,
            λ j. ground (
              arith,
              view-add c bs ps o m j,
              shown,
              view-insert c e.backends ps id b written here written_frame j,
            ),
          )

  -- One round of the loop.
  module _ (e : Engine B) (id : ℕ) (ids : List ℕ) (o now : ℕ) (page : PageBuffer) (tier : Tier)
      (last : Option Error) where
    skip_absent :
        lookup id e.backends ≡ none
        → try_candidates ops (id ∷ ids) o page tier now last e
          ≡ try_candidates ops ids o page tier now last e
    skip_absent gone = unfold try_candidates in ground (arith, gone)

    module _ (b : B) (here : lookup id e.backends ≡ some b) where
      skip_full :
          (x : Error)
          → (ops.alloc_page b).1 ≡ err x
          → try_candidates ops (id ∷ ids) o page tier now last e
            ≡ try_candidates ops ids o page tier now (some x) (put e id (ops.alloc_page b).0)
      skip_full x r = unfold try_candidates in ground (arith, here, r)

      alloc_panics :
          (ops.alloc_page b).1 ≡ panic
          → try_candidates ops (id ∷ ids) o page tier now last e
            ≡ (put e id (ops.alloc_page b).0, panic)
      alloc_panics r = unfold try_candidates in ground (arith, here, r)

      module _ (h : PageHandle) (got : (ops.alloc_page b).1 ≡ ok h) where
        abbrev stored : B × Outcome (Unit {0})
        stored = ops.store_page (ops.alloc_page b).0 h page

        succeeds :
            stored.1 ≡ ok tt
            → try_candidates ops (id ∷ ids) o page tier now last e ≡ (
              count_stored
                  (record (put e id stored.0) { policy = record_store e.policy o h id tier now }),
              ok h,
            )
        succeeds r = unfold try_candidates in ground (arith, here, got, r)

        store_panics :
            stored.1 ≡ panic
            → try_candidates ops (id ∷ ids) o page tier now last e ≡ (put e id stored.0, panic)
        store_panics r = unfold try_candidates in ground (arith, here, got, r)

        skip_failed :
            (x : Error)
            → stored.1 ≡ err x
            → (ops.free_page stored.0 h).1 ≡ ok tt
            → try_candidates ops (id ∷ ids) o page tier now last e
              ≡ try_candidates ops ids o page tier now
                  (some x)
                  (put e id (ops.free_page stored.0 h).0)
        skip_failed x r f = unfold try_candidates in ground (arith, here, got, r, f)

  Tried-trans :
      (e e1 : Engine B) (o : ℕ) (page : PageBuffer) (out : Engine B × Outcome PageHandle)
      → ((j : ℕ) → view c e1 j ≡ view c e j)
      → Tried e1 o page out
      → Tried e o page out
  Tried-trans e e1 o page (e', ok h) same (v, rest) =
      (v, λ j. rest j ∙ ap (λ x. if o == j then some page else x) (same j))
  Tried-trans e e1 o page (e', err x) same (v, rest) = (v, λ j. rest j ∙ same j)
  Tried-trans e e1 o page (e', panic) same t = tt

  -- The loop, whatever the backends answer.
  pub try_candidates-Tried :
      (ids : List ℕ) (o now : ℕ) (page : PageBuffer) (tier : Tier) (last : Option Error)
      (e : Engine B)
      → IsPage page
      → IsSound c e
      → Tried e o page (try_candidates ops ids o page tier now last e)
  try_candidates-Tried [] o now page tier last e p v = unfold try_candidates in (v, λ j. refl)
  try_candidates-Tried (id ∷ ids) o now page tier last e p v =
      elim (Option-cases (lookup id e.backends)) [
        | inl gone ↦
            rw (skip_absent e id ids o now page tier last gone)
              (try_candidates-Tried ids o now page tier last e p v)
        | inr (b, here) ↦ elim (Outcome-cases (ops.alloc_page b).1) [
          | inr (inr r) ↦ rw (alloc_panics e id ids o now page tier last b here r) tt
          | inr (inl (x, r)) ↦
              let (w, same) = refused_step e id b v here x r in
              let next = put e id (ops.alloc_page b).0 in
              rw (skip_full e id ids o now page tier last b here x r) (
                Tried-trans e next o page (try_candidates ops ids o page tier now (some x) next)
                  same (try_candidates-Tried ids o now page tier (some x) next p w))
          | inl (h, got) ↦ elim (Outcome-cases (ops.store_page (ops.alloc_page b).0 h page).1) [
            | inl (u, r) ↦
                rw (succeeds e id ids o now page tier last b here h got r)
                  (stored_step e id b v here h page got o now tier p r)
            | inr (inr r) ↦ rw (store_panics e id ids o now page tier last b here h got r) tt
            | inr (inl (x, r)) ↦
                let (w, same) = released_step e id b v here h page got in
                let b'' : B = (ops.store_page (ops.alloc_page b).0 h page).0 in
                let next = put e id (ops.free_page b'' h).0 in
                rw
                  (skip_failed e id ids o now page tier last b here h got x r (c.free_result b'' h))
                  (Tried-trans e next o page (try_candidates ops ids o page tier now (some x) next)
                    same (try_candidates-Tried ids o now page tier (some x) next p w))
          ]
        ]
      ]
