-- ===== src/Daemon/Engine/Store.antt =====
-- `store_page`: where the page goes, and what becomes of the other pages.
use distributed_uvm.Prelude.{
  ℕ, ◌≡◌, refl, ap, ◌∙◌, Bool, true, false, Option, none, some, arith, ◌==◌, if◌then◌else◌, inl,
  inr, Option-cases, map,
}
use distributed_uvm.Prelude.Outcome.{
  Outcome, Outcome-cases, ok, err, panic, no_evictable, full_after_eviction,
}
use distributed_uvm.Common.Page.{PageHandle, PageBuffer}
use distributed_uvm.Backends.Trait.{DuvmBackend}
use distributed_uvm.Backends.Contract.{Contract, IsPage}
use distributed_uvm.Daemon.Policy.{select_tier}
use distributed_uvm.Daemon.Engine.{
  Engine, Float, free_old, try_evict_one, choose_tier, try_candidates, count_store_error,
  evict_from, tier_backend_candidates, store_page, backend_capacities,
}
use distributed_uvm.Daemon.Engine.Inv.{view, IsSound}
use distributed_uvm.Daemon.Engine.Steps.{without, Dropped, free_old-Dropped, evict_from-Dropped}
use distributed_uvm.Daemon.Engine.Candidates.{Tried, try_candidates-Tried}

absorb {ℓ} :
    {A : Type ℓ} (a : Bool) (x y z : A)
    → (if a then x else if a then y else z) ≡ (if a then x else z)
absorb true x y z = refl
absorb false x y z = refl

swap {ℓ} :
    {A : Type ℓ} (a b : Bool) (x z : A)
    → (if a then x else if b then x else z) ≡ (if b then x else if a then x else z)
swap true true x z = refl
swap true false x z = refl
swap false b x z = refl

module _ {B : Type 0} {ops : DuvmBackend B} (c : Contract ops) where
  -- The choice of a tier after the eviction of one page or none.
  module _ (e e' : Engine B)
      (none_free : select_tier e.policy (backend_capacities ops e) ≡ none) where
    after_eviction :
        (victim : Option ℕ)
        → try_evict_one ops e ≡ (e', ok victim)
        → Dropped c e victim e'
        → Dropped c e victim (choose_tier ops e).0
    after_eviction none r d =
        let run : choose_tier ops e ≡ (count_store_error e', err no_evictable) =
          unfold choose_tier in ground (arith, none_free, r) in
        rw run (record { sound = d.sound; rest = d.rest })
    after_eviction (some o) r d =
        elim (Option-cases (select_tier e'.policy (backend_capacities ops e'))) [
          | inl t ↦
              let run : choose_tier ops e ≡ (count_store_error e', err full_after_eviction) =
                unfold choose_tier in ground (arith, none_free, r, t) in
              rw run (record { sound = d.sound; rest = d.rest })
          | inr (tier, t) ↦
              let run : choose_tier ops e ≡ (e', ok tier) =
                unfold choose_tier in ground (arith, none_free, r, t) in
              rw run d
        ]

  -- A tier is chosen, perhaps at the cost of one page.
  choose_tier-Dropped :
      (e : Engine B) → IsSound c e → (victim : Option ℕ) × Dropped c e victim (choose_tier ops e).0
  unfolding try_evict_one
  choose_tier-Dropped e v = elim (Option-cases (select_tier e.policy (backend_capacities ops e))) [
    | inr (tier, t) ↦
        let run : choose_tier ops e ≡ (e, ok tier) = unfold choose_tier in ground (arith, t) in
        rw run (none, record { sound = v; rest = λ j. refl })
    | inl t ↦
        let ids = map (λ (entry : ℕ × B). entry.0) e.backends in
        let (victim, result, dropped) = evict_from-Dropped c ids e v in
        (
          victim,
          after_eviction e (evict_from ops ids e).0 t victim
              (ap (λ r. ((evict_from ops ids e).0, r)) result) dropped,
        )
  ]

  -- What `store_page` has done. On success the page is at its offset, on an error the offset is
  -- empty; of the other pages at most one, the victim, is gone.
  abbrev pub Stored : Engine B → ℕ → PageBuffer → Engine B × Outcome PageHandle → Type 0
  Stored e o page (e', ok h) =
      (victim : Option ℕ) × IsSound c e'
      × ((j : ℕ) → view c e' j ≡ (if o == j then some page else without victim (view c e) j))
  Stored e o page (e', err x) =
      (victim : Option ℕ) × IsSound c e'
      × ((j : ℕ) → view c e' j ≡ (if o == j then none else without victim (view c e) j))
  Stored e o page (e', panic) = Unit

  -- The view after the old page was freed and a victim was dropped.
  view-Dropped :
      (e e1 e2 : Engine B) (o : ℕ) (victim : Option ℕ)
      → Dropped c e (some o) e1
      → Dropped c e1 victim e2
      → (j : ℕ) → view c e2 j ≡ (if o == j then none else without victim (view c e) j)
  view-Dropped e e1 e2 o none d d' j = d'.rest j ∙ d.rest j
  view-Dropped e e1 e2 o (some k) d d' j =
      d'.rest j
      ∙ ap (λ x. if k == j then none else x) (d.rest j)
      ∙ swap (k == j) (o == j) none (view c e j)

  Tried-Stored :
      (e e1 e2 : Engine B) (o : ℕ) (page : PageBuffer) (victim : Option ℕ)
      (out : Engine B × Outcome PageHandle)
      → Dropped c e (some o) e1
      → Dropped c e1 victim e2
      → Tried c e2 o page out
      → Stored e o page out
  Tried-Stored e e1 e2 o page victim (e', ok h) d d' (v, rest) = (
    victim,
    v,
    λ j.
        rest j
        ∙ ap (λ x. if o == j then some page else x) (view-Dropped e e1 e2 o victim d d' j)
        ∙ absorb (o == j) (some page) none (without victim (view c e) j),
  )
  Tried-Stored e e1 e2 o page victim (e', err x) d d' (v, rest) =
      (victim, v, λ j. rest j ∙ view-Dropped e e1 e2 o victim d d' j)
  Tried-Stored e e1 e2 o page victim (e', panic) d d' t = tt

  -- Over backends that keep the contract, a store of a whole page from a sound engine leaves,
  -- unless it panics, a sound engine: on success the offset shows the page, on an error it shows
  -- nothing, and the other offsets show what they did but for at most one evicted page.
  pub store_page_lem :
      {F : Type 0} (float : Float F) (e : Engine B) (o now : ℕ) (page : PageBuffer)
      → IsPage page
      → IsSound c e
      → Stored e o page (store_page float ops o page now e)
  store_page_lem float e o now page p v =
      let (freed_ok, d) = free_old-Dropped c e o v in
      let e1 = (free_old ops o e).0 in
      let (victim, d') = choose_tier-Dropped e1 d.sound in
      elim (Outcome-cases (choose_tier ops e1).1) [
        | inl (tier, r) ↦
            let e2 = (choose_tier ops e1).0 in
            let ids = tier_backend_candidates float ops e2 tier in
            let run : store_page float ops o page now e
                ≡ try_candidates ops ids o page tier now none e2 =
              unfold store_page in ground (arith, freed_ok, r) in
            rw run (
              Tried-Stored e e1 e2 o page victim (try_candidates ops ids o page tier now none e2) d
                d' (try_candidates-Tried c ids o now page tier none e2 p d'.sound))
        | inr (inl (x, r)) ↦
            let run : store_page float ops o page now e ≡ ((choose_tier ops e1).0, err x) =
              unfold store_page in ground (arith, freed_ok, r) in
            rw run (victim, d'.sound, view-Dropped e e1 (choose_tier ops e1).0 o victim d d')
        | inr (inr r) ↦
            let run : store_page float ops o page now e ≡ ((choose_tier ops e1).0, panic) =
              unfold store_page in ground (arith, freed_ok, r) in
            rw run tt
      ]
