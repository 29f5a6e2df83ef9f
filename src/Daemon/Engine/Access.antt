-- ===== src/Daemon/Engine/Access.antt =====
-- `load_page` and `invalidate_page`: what they return and what becomes of the pages.
use distributed_uvm.Prelude.{ℕ, ◌≡◌, refl, sym, ap, ◌∙◌, none, some, arith, inl, inr, Option-cases}
use native.Mathlib.Decide.{ℕ_discrete}
use distributed_uvm.Prelude.HashMap.{HashMap, lookup, insert, lookup-insert_self}
use distributed_uvm.Prelude.Outcome.{ok, err, page_not_found}
use distributed_uvm.Common.Page.{PageBuffer, offset}
use distributed_uvm.Backends.Trait.{DuvmBackend}
use distributed_uvm.Backends.Contract.{Contract}
use distributed_uvm.Daemon.Policy.{PageMeta, record_load, update, lookup_page, saturating_incr}
use distributed_uvm.Daemon.Engine.{
  Engine, put, forget, load_page, invalidate_page, count_loaded, count_load_error,
  count_invalidated,
}
use distributed_uvm.Daemon.Engine.Inv.{
  view_meta, view_at, view, IsSound, view-insert, insert-Inv, view-add, add-Inv,
}
use distributed_uvm.Daemon.Engine.Steps.{Dropped, forget-Dropped, put-Dropped}

module _ {B : Type 0} {ops : DuvmBackend B} (c : Contract ops) where
  -- The engine `e'` shows the pages that `e` shows.
  pub record Kept (e e' : Engine B) : Type 0 where
    pub sound : IsSound c e'
    pub rest : (j : ℕ) → view c e' j ≡ view c e j

  -- A load from a backend, with a changed access record.
  module _ (e : Engine B) (o now : ℕ) (m : PageMeta) (b : B) (page : PageBuffer) (v : IsSound c e)
      (t : lookup_page e.policy o ≡ some m) (here : lookup m.backend_id e.backends ≡ some b)
      (there : c.contents b (offset m.handle) ≡ some page) where
    abbrev touched : PageMeta
    touched = record m { access_count = saturating_incr m.access_count; last_access = now }

    abbrev read : B
    read = (ops.load_page b m.handle).0

    read_frame :
        (j : ℕ) (n : PageMeta)
        → lookup j e.policy.pages ≡ some n
        → n.backend_id ≡ m.backend_id
        → c.contents read (offset n.handle) ≡ c.contents b (offset n.handle)
    read_frame j n h same = c.load_contents b m.handle (offset n.handle)

    entry_view : view_meta c (insert m.backend_id read e.backends) (some touched) ≡ some page
    entry_view = ground (
      arith,
      lookup-insert_self m.backend_id read e.backends,
      c.load_contents b m.handle (offset m.handle),
      there,
    )

    load_run : load_page ops o now e ≡ (
      count_loaded (record (put e m.backend_id read) {
        policy = record (e.policy) { pages = insert o touched e.policy.pages };
      }),
      ok page,
    )
    load_run =
        unfold load_page record_load update in
        ground (arith, t, here, c.load_result b m.handle page there)

    load-Kept : Kept e (load_page ops o now e).0
    load-Kept =
        let ps = e.policy.pages in
        let bs : HashMap B = insert m.backend_id read e.backends in
        let same = view-insert c e.backends ps m.backend_id b read here read_frame in
        let shown : view c e o ≡ some page = ground (arith, t, here, there) in
        let w =
          insert-Inv c e.backends ps m.backend_id b read here read_frame
            (c.load_valid b m.handle (v.valid m.backend_id b here)) v in
        rw load_run (record {
          sound =
              add-Inv c bs ps o touched page entry_view
                (λ j n ne h k q. v.apart o j m n ne t h (sym k) (sym q)) w;
          rest = λ j. elim (ℕ_discrete o j) [
            | yes q ↦
                ap (view_at c bs (insert o touched ps)) (sym q)
                ∙ ground (arith, view-add c bs ps o touched o, entry_view)
                ∙ sym shown
                ∙ ap (view c e) q
            | no q ↦ ground (arith, view-add c bs ps o touched j, q) ∙ same j
          ];
        })

  -- What an offset shows says where its page is.
  view_cases :
      (e : Engine B) (o : ℕ) (page : PageBuffer)
      → view c e o ≡ some page
      → (m : PageMeta) × (b : B) × (lookup_page e.policy o ≡ some m)
        × (lookup m.backend_id e.backends ≡ some b)
        × (c.contents b (offset m.handle) ≡ some page)
  view_cases e o page h = elim (Option-cases (lookup_page e.policy o)) [
    | inl t ↦ absurd (ground (arith, h, t))
    | inr (m, t) ↦ elim (Option-cases (lookup m.backend_id e.backends)) [
      | inl gone ↦ absurd (ground (arith, h, t, gone))
      | inr (b, here) ↦ (m, b, t, here, ground (arith, h, t, here))
    ]
  ]

  -- An offset that shows nothing is not in the page table.
  view-none :
      (e : Engine B) (o : ℕ) → IsSound c e → view c e o ≡ none → lookup_page e.policy o ≡ none
  view-none e o v h = elim (Option-cases (lookup_page e.policy o)) [
    | inl t ↦ t
    | inr (m, t) ↦ let (page, held) = v.held o m t in absurd (ground (arith, h, t, held))
  ]

  -- Over backends that keep the contract, a load from a sound engine returns the page that the
  -- offset shows, or that it is not found where it shows none, and keeps the engine sound and
  -- every offset's page.
  pub load_page_lem :
      (e : Engine B) (o now : ℕ)
      → IsSound c e
      → Kept e (load_page ops o now e).0
        × ((load_page ops o now e).1
            ≡ elim (view c e o) [ none ↦ err page_not_found | some page ↦ ok page ])
  load_page_lem e o now v = elim (Option-cases (view c e o)) [
    | inl nothing ↦
        let run : load_page ops o now e ≡ (count_load_error e, err page_not_found) =
          unfold load_page in ground (arith, view-none e o v nothing) in
        rw run (record { sound = v; rest = λ j. refl }, ground (arith, nothing))
    | inr (page, h) ↦
        let (m, b, t, here, there) = view_cases e o page h in
        let run = load_run e o now m b page v t here there in
        (load-Kept e o now m b page v t here there, ground (arith, run, h))
  ]

  -- Over backends that keep the contract, an invalidation in a sound engine succeeds, leaves a
  -- sound engine in which the offset shows nothing, and every other offset shows what it did.
  pub invalidate_page_lem :
      (e : Engine B) (o : ℕ)
      → IsSound c e
      → ((invalidate_page ops o e).1 ≡ ok tt) × Dropped c e (some o) (invalidate_page ops o e).0
  invalidate_page_lem e o v = elim (Option-cases (lookup_page e.policy o)) [
    | inl t ↦
        let run : invalidate_page ops o e ≡ (forget e o, ok tt) =
          unfold invalidate_page in ground (arith, t) in
        rw run (refl, forget-Dropped c e o v)
    | inr (m, t) ↦ elim (Option-cases (lookup m.backend_id e.backends)) [
      | inl gone ↦
          let run : invalidate_page ops o e ≡ (count_invalidated (forget e o), ok tt) =
            unfold invalidate_page in ground (arith, t, gone) in
          let d = forget-Dropped c e o v in rw run (refl, record { sound = d.sound; rest = d.rest })
      | inr (b, here) ↦
          let run : invalidate_page ops o e ≡ (
            count_invalidated (put (forget e o) m.backend_id (ops.free_page b m.handle).0),
            ok tt,
          ) =
            unfold invalidate_page in ground (arith, t, here, c.free_result b m.handle) in
          let d = put-Dropped c e o m b v t here in
          rw run (refl, record { sound = d.sound; rest = d.rest })
    ]
  ]
