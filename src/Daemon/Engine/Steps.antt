-- ===== src/Daemon/Engine/Steps.antt =====
-- The parts of `store_page` one by one: freeing the old page, evicting one, and trying the candidates.
use distributed_uvm.Prelude.{
  ℕ, ◌≡◌, ◌≢◌, refl, sym, ap, ◌∙◌, subst, Option, none, some, List, [], ◌∷◌, arith, ◌==◌,
  if◌then◌else◌, inl, inr, Option-cases,
}
use native.Mathlib.Decide.{ℕ_discrete}
use distributed_uvm.Prelude.HashMap.{HashMap, lookup, insert, remove, lookup-remove, lookup_of_In}
use distributed_uvm.Prelude.Outcome.{ok}
use distributed_uvm.Common.Page.{PageBuffer, offset}
use distributed_uvm.Backends.Trait.{DuvmBackend}
use distributed_uvm.Backends.Contract.{Contract}
use distributed_uvm.Daemon.Policy.{PageMeta, lookup_page, remove_page, find_eviction_candidate}
use distributed_uvm.Daemon.Policy.Eviction.{IsVictim, find_eviction_candidate_lem}
use distributed_uvm.Daemon.Engine.{Engine, put, forget, free_old, evict_from, count_invalidated}
use distributed_uvm.Daemon.Engine.Inv.{
  view_at, view, Inv, IsSound, view-remove, remove-Inv, view-insert, insert-Inv,
}

-- The view without one offset, if any.
abbrev pub without : Option ℕ → (ℕ → Option PageBuffer) → ℕ → Option PageBuffer
without none f j = f j
without (some o) f j = if o == j then none else f j

module _ {B : Type 0} {ops : DuvmBackend B} (c : Contract ops) where
  -- A slot that is empty belongs to no tracked page.
  pub tracked_ne :
      (bs : HashMap B) (ps : HashMap PageMeta) (id : ℕ) (b : B) (s : ℕ)
      → Inv c bs ps
      → lookup id bs ≡ some b
      → c.contents b s ≡ none
      → (j : ℕ) (m : PageMeta) → lookup j ps ≡ some m
      → m.backend_id ≡ id
      → s ≢ offset m.handle
  tracked_ne bs ps id b s v here empty j m h same q =
      let (page, e) = v.held j m h in absurd (ground (arith, e, here, empty, q, same))

  -- Freeing the page of an offset and forgetting the offset.
  module _ (bs : HashMap B) (ps : HashMap PageMeta) (o : ℕ) (m : PageMeta) (b : B) (v : Inv c bs ps)
      (tracked : lookup o ps ≡ some m) (here : lookup m.backend_id bs ≡ some b) where
    abbrev freed : B
    freed = (ops.free_page b m.handle).0

    free_frame :
        (j : ℕ) (n : PageMeta)
        → lookup j (remove o ps) ≡ some n
        → n.backend_id ≡ m.backend_id
        → c.contents freed (offset n.handle) ≡ c.contents b (offset n.handle)
    free_frame j n h same = elim (ℕ_discrete o j) [
      | yes e ↦ absurd (ground (arith, e, h, lookup-remove j o ps))
      | no ne ↦
          let old : lookup j ps ≡ some n = ground (arith, ne, h, lookup-remove j o ps) in
          let apart = v.apart o j m n ne tracked old (sym same) in
          ground (arith, apart, c.free_contents b m.handle (offset n.handle))
    ]

    pub free_step :
        Inv c (insert m.backend_id freed bs) (remove o ps)
        × ((j : ℕ)
            → view_at c (insert m.backend_id freed bs) (remove o ps) j
              ≡ (if o == j then none else view_at c bs ps j))
    free_step = (
      insert-Inv c bs (remove o ps) m.backend_id b freed here free_frame
          (c.free_valid b m.handle (v.valid m.backend_id b here)) (remove-Inv c bs ps o v),
      λ j.
          view-insert c bs (remove o ps) m.backend_id b freed here free_frame j
          ∙ view-remove c bs ps o j,
    )

  -- The engine `e'` is `e` without one offset.
  pub record Dropped (e : Engine B) (o : Option ℕ) (e' : Engine B) : Type 0 where
    pub sound : IsSound c e'
    pub rest : (j : ℕ) → view c e' j ≡ without o (view c e) j

  pub forget-Dropped : (e : Engine B) (o : ℕ) → IsSound c e → Dropped e (some o) (forget e o)
  unfolding remove_page
  forget-Dropped e o v = record {
    sound = remove-Inv c e.backends e.policy.pages o v;
    rest = view-remove c e.backends e.policy.pages o;
  }

  pub put-Dropped :
      (e : Engine B) (o : ℕ) (m : PageMeta) (b : B)
      → IsSound c e
      → lookup_page e.policy o ≡ some m
      → lookup m.backend_id e.backends ≡ some b
      → Dropped e (some o) (put (forget e o) m.backend_id (ops.free_page b m.handle).0)
  unfolding remove_page
  put-Dropped e o m b v t here =
      let (sound, rest) = free_step e.backends e.policy.pages o m b v t here in
      record { sound = sound; rest = rest }

  -- The old page is freed, whatever became of its backend.
  pub free_old-Dropped :
      (e : Engine B) (o : ℕ)
      → IsSound c e
      → ((free_old ops o e).1 ≡ ok tt) × Dropped e (some o) (free_old ops o e).0
  free_old-Dropped e o v = elim (Option-cases (lookup_page e.policy o)) [
    | inl t ↦
        let run : free_old ops o e ≡ (forget e o, ok tt) = unfold free_old in ground (arith, t) in
        rw run (refl, forget-Dropped e o v)
    | inr (m, t) ↦ elim (Option-cases (lookup m.backend_id e.backends)) [
      | inl gone ↦
          let run : free_old ops o e ≡ (forget e o, ok tt) =
            unfold free_old in ground (arith, t, gone) in
          rw run (refl, forget-Dropped e o v)
      | inr (b, here) ↦
          let run : free_old ops o e
              ≡ (put (forget e o) m.backend_id (ops.free_page b m.handle).0, ok tt) =
            unfold free_old in ground (arith, t, here, c.free_result b m.handle) in
          rw run (refl, put-Dropped e o m b v t here)
    ]
  ]

  pub Dropped-trans :
      {e e' e'' : Engine B} (o : Option ℕ) → Dropped e none e' → Dropped e' o e'' → Dropped e o e''
  Dropped-trans none d d' = record { sound = d'.sound; rest = λ j. d'.rest j ∙ d.rest j }
  Dropped-trans (some o) d d' = record {
    sound = d'.sound;
    rest = λ j. d'.rest j ∙ ap (λ x. if o == j then none else x) (d.rest j);
  }

  -- The candidate of a backend is a page that the backend holds.
  candidate_tracked :
      (e : Engine B) (id o : ℕ)
      → IsSound c e
      → find_eviction_candidate e.policy id ≡ some o
      → (m : PageMeta) × (lookup_page e.policy o ≡ some m) × (m.backend_id ≡ id)
  candidate_tracked e id o v h =
      let (m, member, (here, free), least) =
        subst (IsVictim e.policy id) h (find_eviction_candidate_lem e.policy id) in
      (m, lookup_of_In o m e.policy.pages v.distinct member, here)

  -- One round of the eviction loop that finds a page evicts exactly that page.
  evict_round :
      (e : Engine B) (id o : ℕ) (ids : List ℕ) (b : B) (m : PageMeta)
      → IsSound c e
      → lookup id e.backends ≡ some b
      → find_eviction_candidate e.policy id ≡ some o
      → lookup_page e.policy o ≡ some m
      → m.backend_id ≡ id
      → ((evict_from ops (id ∷ ids) e).1 ≡ ok (some o))
        × Dropped e (some o) (evict_from ops (id ∷ ids) e).0
  evict_round e id o ids b m v here found t same =
      let here' : lookup m.backend_id e.backends ≡ some b =
        ap (λ k. lookup k e.backends) same ∙ here in
      let d = put-Dropped e o m b v t here' in
      let run : evict_from ops (id ∷ ids) e
          ≡ (count_invalidated (put (forget e o) id (ops.free_page b m.handle).0), ok (some o)) =
        unfold evict_from in ground (arith, here, found, t, c.free_result b m.handle) in
      let d' : Dropped e (some o) (put (forget e o) id (ops.free_page b m.handle).0) =
        subst (λ k. Dropped e (some o) (put (forget e o) k (ops.free_page b m.handle).0)) same d in
      rw run (refl, record { sound = d'.sound; rest = d'.rest })

  -- Eviction forgets one page or none, and always says which.
  pub evict_from-Dropped :
      (ids : List ℕ) (e : Engine B)
      → IsSound c e
      → (o : Option ℕ) × ((evict_from ops ids e).1 ≡ ok o) × Dropped e o (evict_from ops ids e).0
  evict_from-Dropped [] e v =
      unfold evict_from in (none, refl, record { sound = v; rest = λ j. refl })
  evict_from-Dropped (id ∷ ids) e v = elim (Option-cases (lookup id e.backends)) [
    | inl gone ↦
        let run : evict_from ops (id ∷ ids) e ≡ evict_from ops ids e =
          unfold evict_from in ground (arith, gone) in
        rw run (evict_from-Dropped ids e v)
    | inr (b, here) ↦ elim (Option-cases (find_eviction_candidate e.policy id)) [
      | inl none_here ↦
          let run : evict_from ops (id ∷ ids) e ≡ evict_from ops ids e =
            unfold evict_from in ground (arith, here, none_here) in
          rw run (evict_from-Dropped ids e v)
      | inr (o, found) ↦
          let (m, t, same) = candidate_tracked e id o v found in
          let (result, dropped) = evict_round e id o ids b m v here found t same in
          (some o, result, dropped)
    ]
  ]
