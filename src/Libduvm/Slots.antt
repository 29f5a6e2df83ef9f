-- ===== src/Libduvm/Slots.antt =====
-- The pool over backends that keep their contract: a map from handles to pages.
use distributed_uvm.Prelude.{
  ℕ, ◌≡◌, ap, ◌∙◌, subst, Bool, ◌&&◌, Option, none, some, arith, ◌==◌, if◌then◌else◌, inl, inr,
  Option-cases,
}
use distributed_uvm.Prelude.Outcome.{Outcome-cases, ok}
use distributed_uvm.Prelude.HashMap.{lookup, insert, lookup-insert}
use distributed_uvm.Common.Page.{PageHandle, PageBuffer, backend_id, offset}
use distributed_uvm.Backends.Trait.{DuvmBackend}
use distributed_uvm.Backends.Contract.{Contract, IsPage}
use distributed_uvm.Libduvm.{Pool, preferred, store, load, free}

-- The same slot of the same backend.
abbrev pub same_slot : PageHandle → PageHandle → Bool
same_slot g h = backend_id g == backend_id h && offset g == offset h

module _ {B : Type 0} {ops : DuvmBackend B} (c : Contract ops) where
  abbrev pub view : Pool B → PageHandle → Option PageBuffer
  view p h = elim (lookup (backend_id h) p) [ none ↦ none | some b ↦ c.contents b (offset h) ]

  -- The handles of a backend carry the id that it has in the pool.
  abbrev pub IsNamed : Pool B → Type 0
  IsNamed p =
      (id : ℕ) (b : B) (h : PageHandle)
      → lookup id p ≡ some b
      → (ops.alloc_page b).1 ≡ ok h
      → backend_id h ≡ id

  preferred_lem :
      (p : Pool B) (id : ℕ) (b : B) → preferred ops p ≡ some (id, b) → lookup id p ≡ some b
  unfolding preferred
  preferred_lem p id b h = elim (Option-cases (lookup 1 p)) [
    | inr (x, t) ↦ ground (arith, h, t)
    | inl t ↦ elim (Option-cases (lookup 0 p)) [
      | inr (y, u) ↦ ground (arith, h, t, u)
      | inl u ↦ absurd (ground (arith, h, t, u))
    ]
  ]

  -- How a store that succeeds went.
  store_run :
      (p : Pool B) (page : PageBuffer) (h : PageHandle)
      → (store ops p page).1 ≡ ok h
      → (id : ℕ) × (b : B) × (lookup id p ≡ some b)
        × ((ops.alloc_page b).1 ≡ ok h)
        × ((ops.store_page (ops.alloc_page b).0 h page).1 ≡ ok tt)
        × ((store ops p page).0 ≡ insert id (ops.store_page (ops.alloc_page b).0 h page).0 p)
  store_run p page h done = elim (Option-cases (preferred ops p)) [
    | inl t ↦ absurd (unfold store in ground (arith, done, t))
    | inr ((id, b), t) ↦
        let here = preferred_lem p id b t in
        elim (Outcome-cases (ops.alloc_page b).1) [
          | inr (inl (e, r)) ↦ absurd (unfold store in ground (arith, done, t, r))
          | inr (inr r) ↦ absurd (unfold store in ground (arith, done, t, r))
          | inl (g, r) ↦ elim (Outcome-cases (ops.store_page (ops.alloc_page b).0 g page).1) [
            | inr (inl (e, u)) ↦ absurd (unfold store in ground (arith, done, t, r, u))
            | inr (inr u) ↦ absurd (unfold store in ground (arith, done, t, r, u))
            | inl (v, u) ↦
                let run : store ops p page
                    ≡ (insert id (ops.store_page (ops.alloc_page b).0 g page).0 p, ok g) =
                  unfold store in ground (arith, t, r, u) in
                let same : g ≡ h = ground (arith, done, run) in
                subst
                  (λ x.
                    (id : ℕ) × (b : B) × (lookup id p ≡ some b)
                    × ((ops.alloc_page b).1 ≡ ok x)
                    × ((ops.store_page (ops.alloc_page b).0 x page).1 ≡ ok tt)
                    × ((store ops p page).0
                        ≡ insert id (ops.store_page (ops.alloc_page b).0 x page).0 p))
                  same (id, b, here, r, u, ap (λ out. out.0) run)
          ]
        ]
  ]

  -- In a pool of valid backends whose handles carry their ids, a store of a whole page that
  -- succeeds returns a handle that showed no page before, makes it show the page, and changes no
  -- handle of another slot.
  pub store_lem :
      (p : Pool B) (page : PageBuffer) (h : PageHandle)
      → IsPage page
      → ((id : ℕ) (b : B) → lookup id p ≡ some b → c.IsValid b)
      → IsNamed p
      → (store ops p page).1 ≡ ok h
      → (view p h ≡ none)
        × ((g : PageHandle)
            → view (store ops p page).0 g ≡ (if same_slot g h then some page else view p g))
  store_lem p page h typed valid named done =
      let (id, b, here, got, written, after) = store_run p page h done in
      let b' : B = (ops.store_page (ops.alloc_page b).0 h page).0 in
      let mine : backend_id h ≡ id = named id b h here got in
      let (fresh, used) = c.alloc_fresh b h (valid id b here) got in
      (
        ground (arith, mine, here, fresh),
        λ g.
            ap (λ q. view q g) after
            ∙ ground (
              arith,
              mine,
              here,
              lookup-insert (backend_id g) id b' p,
              c.store_contents (ops.alloc_page b).0 h page (offset g) typed written,
              c.alloc_contents b (offset g),
            ),
      )

  -- A handle that shows a page is loaded with that page, and no handle's page changes.
  pub load_lem :
      (p : Pool B) (h : PageHandle) (page : PageBuffer)
      → view p h ≡ some page
      → ((load ops p h).1 ≡ ok page) × ((g : PageHandle) → view (load ops p h).0 g ≡ view p g)
  load_lem p h page shown = elim (Option-cases (lookup (backend_id h) p)) [
    | inl t ↦ absurd (ground (arith, shown, t))
    | inr (b, t) ↦
        let there : c.contents b (offset h) ≡ some page = ground (arith, shown, t) in
        let run : load ops p h ≡ (insert (backend_id h) (ops.load_page b h).0 p, ok page) =
          unfold load in ground (arith, t, c.load_result b h page there) in
        (
          ground (arith, run),
          λ g.
              ap (λ out. view out.0 g) run
              ∙ ground (
                arith,
                lookup-insert (backend_id g) (backend_id h) (ops.load_page b h).0 p,
                t,
                c.load_contents b h (offset g),
              ),
        )
  ]

  -- A free of a handle that shows a page succeeds, and changes exactly the handles of that slot,
  -- which then show nothing.
  pub free_lem :
      (p : Pool B) (h : PageHandle) (page : PageBuffer)
      → view p h ≡ some page
      → ((free ops p h).1 ≡ ok tt)
        × ((g : PageHandle) → view (free ops p h).0 g ≡ (if same_slot g h then none else view p g))
  free_lem p h page shown = elim (Option-cases (lookup (backend_id h) p)) [
    | inl t ↦ absurd (ground (arith, shown, t))
    | inr (b, t) ↦
        let run : free ops p h ≡ (insert (backend_id h) (ops.free_page b h).0 p, ok tt) =
          unfold free in ground (arith, t, c.free_result b h) in
        (
          ground (arith, run),
          λ g.
              ap (λ out. view out.0 g) run
              ∙ ground (
                arith,
                lookup-insert (backend_id g) (backend_id h) (ops.free_page b h).0 p,
                t,
                c.free_contents b h (offset g),
              ),
        )
  ]
