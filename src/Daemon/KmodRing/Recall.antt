-- ===== src/Daemon/KmodRing/Recall.antt =====
-- The pages of the stores that were polled, and what a request does to them.
use distributed_uvm.Prelude.{
  ℕ, ◌≡◌, ◌≢◌, refl, sym, ap, ◌∙◌, subst, Option, none, some, List, arith, get_elem?, Every,
  Every-get_elem?, Every-set, Bool-cases, inl, inr, ◌⊎◌, ◌==◌, if◌then◌else◌,
}
use distributed_uvm.Prelude.Outcome.{ok, err}
use distributed_uvm.Common.Page.{PageBuffer}
use distributed_uvm.Backends.Trait.{DuvmBackend}
use distributed_uvm.Backends.Contract.{Contract, IsPage}
use distributed_uvm.Daemon.Engine.{Engine, Float}
use distributed_uvm.Daemon.Engine.Inv.{view, IsSound}
use distributed_uvm.Daemon.Engine.History.{Agrees, store_Agrees}
use distributed_uvm.Daemon.KmodRing.{KmodRequest, op_store}
use distributed_uvm.Daemon.KmodRing.Effect.{Effect, stored, not_stored, loaded, missed, rejected}
use distributed_uvm.Daemon.KmodRing.System.{recall_request}

module _ {F B : Type 0} (float : Float F) {ops : DuvmBackend B} (c : Contract ops) where
  -- A store that was polled, and any other request.
  recall-store :
      (req : KmodRequest) (page : PageBuffer) (staging : List PageBuffer)
      (memory : ℕ → Option PageBuffer) (j : ℕ)
      → req.op ≡ op_store
      → get_elem? staging req.staging_slot ≡ some page
      → recall_request req staging memory j ≡ (if req.offset == j then some page else memory j)
  recall-store req page staging memory j op t = ground (arith, op, t)

  recall-other :
      (req : KmodRequest) (staging : List PageBuffer) (memory : ℕ → Option PageBuffer) (j : ℕ)
      → req.op ≢ op_store
      → recall_request req staging memory j ≡ memory j
  recall-other req staging memory j ne = ground (arith, ne)

  pub recall-IsPage :
      (req : KmodRequest) (staging : List PageBuffer) (memory : ℕ → Option PageBuffer)
      → Every IsPage staging
      → ((j : ℕ) (page : PageBuffer) → memory j ≡ some page → IsPage page)
      → (j : ℕ) (page : PageBuffer) → recall_request req staging memory j ≡ some page
      → IsPage page
  recall-IsPage req staging memory whole old j page h = elim (Bool-cases (req.op == op_store)) [
    | inr f ↦ old j page (ground (arith, f, h))
    | inl t ↦ elim (Bool-cases (req.offset == j)) [
      | inr f ↦ old j page (ground (arith, t, f, h))
      | inl same ↦
          Every-get_elem? IsPage staging req.staging_slot page whole (ground (arith, t, same, h))
    ]
  ]

  kept_Agrees :
      (req : KmodRequest) (before : List PageBuffer) (e e' : Engine B)
      (memory : ℕ → Option PageBuffer)
      → req.op ≢ op_store
      → Agrees float c e memory
      → IsSound c e'
      → ((j : ℕ) → view c e' j ≡ view c e j)
      → IsSound c e' × Agrees float c e' (recall_request req before memory)
  kept_Agrees req before e e' memory ne a v rest = (
    v,
    λ j. elim (a j) [
      | inl n ↦ inl (rest j ∙ n)
      | inr s ↦ inr (rest j ∙ s ∙ sym (recall-other req before memory j ne))
    ],
  )

  -- What a poll leaves agrees with what was stored.
  pub Effect-Agrees :
      (req : KmodRequest) (before : List PageBuffer) (e : Engine B) (result : ℕ)
      (after : List PageBuffer) (e' : Engine B) (memory : ℕ → Option PageBuffer)
      → IsSound c e
      → Agrees float c e memory
      → Effect c req before e result after e'
      → IsSound c e' × Agrees float c e' (recall_request req before memory)
  Effect-Agrees req before e result after e' memory v a (stored page h op t r same effect) =
      let (w, b) = store_Agrees float c e e' req.offset page memory (e', ok h) a effect refl in
      (
        w,
        λ j.
            subst (λ x. (view c e' j ≡ none) ⊎ (view c e' j ≡ x))
              (sym (recall-store req page before memory j op t)) (b j),
      )
  Effect-Agrees req before e result after e' memory v a (not_stored page x op t r same effect) =
      let (w, b) = store_Agrees float c e e' req.offset page memory (e', err x) a effect refl in
      (
        w,
        λ j.
            subst (λ x. (view c e' j ≡ none) ⊎ (view c e' j ≡ x))
              (sym (recall-store req page before memory j op t)) (b j),
      )
  Effect-Agrees req before e result after e' memory v a (loaded page op shown r same kept) =
      kept_Agrees req before e e' memory (λ q. absurd (omega (arith, op, q))) a kept.sound kept.rest
  Effect-Agrees req before e result after e' memory v a (missed op shown r same kept) =
      kept_Agrees req before e e' memory (λ q. absurd (omega (arith, op, q))) a kept.sound kept.rest
  Effect-Agrees req before e result after e' memory v a (rejected ns nl r same kept) =
      kept_Agrees req before e e' memory ns a (subst (IsSound c) (sym kept) v)
        (λ j. ap (λ x. view c x j) kept)

  pub remembers :
      (e : Engine B) (memory : ℕ → Option PageBuffer) (o : ℕ) (page : PageBuffer)
      → Agrees float c e memory
      → view c e o ≡ some page
      → memory o ≡ some page
  remembers e memory o page a shown = elim (a o) [
    | inl n ↦ absurd (ground (arith, n, shown))
    | inr q ↦ sym q ∙ shown
  ]

  -- The pages in the staging buffer stay whole.
  pub Effect-whole :
      (req : KmodRequest) (before : List PageBuffer) (e : Engine B) (result : ℕ)
      (after : List PageBuffer) (e' : Engine B) (memory : ℕ → Option PageBuffer)
      → Every IsPage before
      → ((j : ℕ) (page : PageBuffer) → memory j ≡ some page → IsPage page)
      → Agrees float c e memory
      → Effect c req before e result after e'
      → Every IsPage after
  Effect-whole req before e result after e' memory all old a (stored page h op t r same effect) =
      subst (Every IsPage) (sym same) all
  Effect-whole req before e result after e' memory all old a (not_stored page x op t r same f) =
      subst (Every IsPage) (sym same) all
  Effect-whole req before e result after e' memory all old a (loaded page op shown r same kept) =
      subst (Every IsPage) (sym same) (
        Every-set IsPage before req.staging_slot page all
          (old req.offset page (remembers e memory req.offset page a shown)))
  Effect-whole req before e result after e' memory all old a (missed op shown r same kept) =
      subst (Every IsPage) (sym same) all
  Effect-whole req before e result after e' memory all old a (rejected ns nl r same kept) =
      subst (Every IsPage) (sym same) all
