-- ===== src/Daemon/Engine/Inv.antt =====
-- The invariant of the engine over backends that keep their contract, its view as a map from offsets
-- to pages, and the four changes that every operation is made of.
use distributed_uvm.Prelude.{
  ℕ, ◌≡◌, ◌≢◌, sym, ap, ◌∙◌, subst, Option, none, some, arith, ◌==◌, if◌then◌else◌, inl, inr,
  Bool-cases, Option-cases,
}
use native.Mathlib.Decide.{ℕ_discrete}
use distributed_uvm.Prelude.HashMap.{
  HashMap, lookup, insert, remove, lookup-insert, lookup-remove, IsDistinct, insert-IsDistinct,
  remove-IsDistinct,
}
use distributed_uvm.Common.Page.{PageBuffer, offset}
use distributed_uvm.Backends.Trait.{DuvmBackend}
use distributed_uvm.Backends.Contract.{Contract}
use distributed_uvm.Daemon.Policy.{PageMeta}
use distributed_uvm.Daemon.Engine.{Engine}

module _ {B : Type 0} {ops : DuvmBackend B} (c : Contract ops) where
  -- The page that the backend of an entry holds for it.
  abbrev pub view_meta : HashMap B → Option PageMeta → Option PageBuffer
  view_meta bs none = none
  view_meta bs (some meta) = elim (lookup meta.backend_id bs) [
    | none ↦ none
    | some b ↦ c.contents b (offset meta.handle)
  ]

  abbrev pub view_at : HashMap B → HashMap PageMeta → ℕ → Option PageBuffer
  view_at bs ps o = view_meta bs (lookup o ps)

  -- The engine as a map from offsets to pages.
  abbrev pub view : Engine B → ℕ → Option PageBuffer
  view e o = view_at e.backends e.policy.pages o

  pub record Inv (bs : HashMap B) (ps : HashMap PageMeta) : Type 0 where
    pub distinct : IsDistinct ps
    -- every backend is in a valid state
    pub valid : (id : ℕ) (b : B) → lookup id bs ≡ some b → c.IsValid b
    -- every tracked page is there
    pub held :
        (o : ℕ) (m : PageMeta)
        → lookup o ps ≡ some m
        → (page : PageBuffer) × (view_meta bs (some m) ≡ some page)
    -- no two tracked pages share a slot of one backend
    pub apart :
        (o o' : ℕ) (m m' : PageMeta)
        → o ≢ o'
        → lookup o ps ≡ some m
        → lookup o' ps ≡ some m'
        → m.backend_id ≡ m'.backend_id
        → offset m.handle ≢ offset m'.handle

  -- What holds of an engine between calls.
  abbrev pub IsSound : Engine B → Type 0
  IsSound e = Inv e.backends e.policy.pages

  -- Forgetting an offset.
  module _ (bs : HashMap B) (ps : HashMap PageMeta) (o : ℕ) where
    pub view-remove :
        (j : ℕ) → view_at bs (remove o ps) j ≡ (if o == j then none else view_at bs ps j)
    view-remove j = ground (arith, lookup-remove j o ps)

    kept : (j : ℕ) (m : PageMeta) → lookup j (remove o ps) ≡ some m → lookup j ps ≡ some m
    kept j m h = ground (arith, lookup-remove j o ps)

    pub remove-Inv : Inv bs ps → Inv bs (remove o ps)
    remove-Inv v = record {
      distinct = remove-IsDistinct o ps v.distinct;
      valid = v.valid;
      held = λ j m h. v.held j m (kept j m h);
      apart = λ j j' m m' ne h h' same. v.apart j j' m m' ne (kept j m h) (kept j' m' h') same;
    }

  -- Another state of one backend, in which the tracked slots are as before.
  module _ (bs : HashMap B) (ps : HashMap PageMeta) (id : ℕ) (b b' : B)
      (here : lookup id bs ≡ some b)
      (frame : (j : ℕ) (m : PageMeta)
        → lookup j ps ≡ some m
        → m.backend_id ≡ id
        → c.contents b' (offset m.handle) ≡ c.contents b (offset m.handle)) where
    view_meta-insert :
        (j : ℕ) (m : PageMeta)
        → lookup j ps ≡ some m
        → view_meta (insert id b' bs) (some m) ≡ view_meta bs (some m)
    view_meta-insert j m h = ground (arith, lookup-insert m.backend_id id b' bs, here, frame j m h)

    pub view-insert : (j : ℕ) → view_at (insert id b' bs) ps j ≡ view_at bs ps j
    view-insert j = elim (Option-cases (lookup j ps)) [
      | inl e ↦ ap (view_meta (insert id b' bs)) e ∙ sym (ap (view_meta bs) e)
      | inr (m, e) ↦
          ap (view_meta (insert id b' bs)) e ∙ view_meta-insert j m e ∙ sym (ap (view_meta bs) e)
    ]

    insert-IsValid :
        c.IsValid b'
        → Inv bs ps
        → (k : ℕ) (a : B) → lookup k (insert id b' bs) ≡ some a
        → c.IsValid a
    insert-IsValid w v k a h = elim (Bool-cases (id == k)) [
      | inl e ↦
          let same : b' ≡ a = ground (arith, e, h, lookup-insert k id b' bs) in
          subst c.IsValid same w
      | inr e ↦ v.valid k a (ground (arith, e, h, lookup-insert k id b' bs))
    ]

    pub insert-Inv : c.IsValid b' → Inv bs ps → Inv (insert id b' bs) ps
    insert-Inv w v = record {
      distinct = v.distinct;
      valid = insert-IsValid w v;
      held = λ j m h. let (page, e) = v.held j m h in (page, view_meta-insert j m h ∙ e);
      apart = v.apart;
    }

  -- A new entry of the page table, or an entry in place of another.
  module _ (bs : HashMap B) (ps : HashMap PageMeta) (o : ℕ) (m : PageMeta) where
    pub view-add :
        (j : ℕ)
        → view_at bs (insert o m ps) j ≡ (if o == j then view_meta bs (some m) else view_at bs ps j)
    view-add j = ground (arith, lookup-insert j o m ps)

    other :
        (j : ℕ) (n : PageMeta) → o ≢ j → lookup j (insert o m ps) ≡ some n → lookup j ps ≡ some n
    other j n ne h = ground (arith, lookup-insert j o m ps)

    self : (j : ℕ) (n : PageMeta) → o ≡ j → lookup j (insert o m ps) ≡ some n → m ≡ n
    self j n e h = ground (arith, lookup-insert j o m ps)

    pub add-Inv :
        (page : PageBuffer)
        → view_meta bs (some m) ≡ some page
        → ((j : ℕ) (n : PageMeta)
            → o ≢ j
            → lookup j ps ≡ some n
            → n.backend_id ≡ m.backend_id
            → offset n.handle ≢ offset m.handle)
        → Inv bs ps
        → Inv bs (insert o m ps)
    add-Inv page here free v = record {
      distinct = insert-IsDistinct o m ps v.distinct;
      valid = v.valid;
      held = λ j n h. elim (ℕ_discrete o j) [
        | yes e ↦ (page, ap (λ x. view_meta bs (some x)) (sym (self j n e h)) ∙ here)
        | no ne ↦ v.held j n (other j n ne h)
      ];
      apart = λ j j' n n' ne h h' same. elim (ℕ_discrete o j) [
        | yes e ↦ elim (ℕ_discrete o j') [
          | yes e' ↦ absurd (ne (sym e ∙ e'))
          | no ne' ↦ λ q.
              let mine = self j n e h in
              free j' n' ne' (other j' n' ne' h')
                (sym same ∙ ap (λ (x : PageMeta). x.backend_id) (sym mine))
                (sym q ∙ ap (λ (x : PageMeta). offset x.handle) (sym mine))
        ]
        | no nj ↦ elim (ℕ_discrete o j') [
          | yes e' ↦ λ q.
              let mine = self j' n' e' h' in
              free j n nj (other j n nj h) (same ∙ ap (λ (x : PageMeta). x.backend_id) (sym mine))
                (q ∙ ap (λ (x : PageMeta). offset x.handle) (sym mine))
          | no ne' ↦ v.apart j j' n n' ne (other j n nj h) (other j' n' ne' h') same
        ]
      ];
    }
