-- ===== src/Daemon/Engine/History.antt =====
-- A run of stores, loads and invalidations: no load ever gives a stale page.
use distributed_uvm.Prelude.{
  ℕ, ◌≡◌, refl, sym, ap, ◌∙◌, subst, Option, none, some, List, [], ◌∷◌, arith, ◌==◌, if◌then◌else◌,
  inl, inr, Bool-cases, Option-cases, ◌⊎◌, Every,
}
use distributed_uvm.Prelude.Outcome.{Outcome, ok, err, panic, page_not_found}
use distributed_uvm.Common.Page.{PageHandle, PageBuffer}
use distributed_uvm.Backends.Trait.{DuvmBackend}
use distributed_uvm.Backends.Contract.{Contract, IsPage}
use distributed_uvm.Prelude.HashMap.{HashMap, lookup}
use distributed_uvm.Daemon.Engine.{
  Engine, with_backends, Float, store_page, load_page, invalidate_page,
}
use distributed_uvm.Daemon.Engine.Inv.{view, IsSound}
use distributed_uvm.Daemon.Engine.Steps.{without}
use distributed_uvm.Daemon.Engine.Store.{Stored, store_page_lem}
use distributed_uvm.Daemon.Engine.Access.{load_page_lem, invalidate_page_lem}

-- One call of the engine, with the time at which it runs.
pub data Call : Type 0 where
  store : ℕ → PageBuffer → ℕ → Call
  load : ℕ → ℕ → Call
  invalidate : ℕ → Call

-- The buffers are pages by their type.
abbrev pub IsTyped : Call → Type 0
IsTyped (store o page now) = IsPage page
IsTyped (load o now) = Unit
IsTyped (invalidate o) = Unit

-- The memory that the caller has in mind: what was last stored and not invalidated since.
abbrev pub after : Call → (ℕ → Option PageBuffer) → ℕ → Option PageBuffer
after (store o page now) f j = if o == j then some page else f j
after (load o now) f j = f j
after (invalidate o) f j = if o == j then none else f j

abbrev pub after_all : List Call → (ℕ → Option PageBuffer) → ℕ → Option PageBuffer
after_all [] f = f
after_all (call ∷ calls) f = after_all calls (after call f)

-- The engine unless the call panicked.
abbrev pub survived : {B A : Type 0} → Engine B × Outcome A → Option (Engine B)
survived (e, ok a) = some e
survived (e, err x) = some e
survived (e, panic) = none

module _ {F B : Type 0} (float : Float F) (ops : DuvmBackend B) where
  unfoldable pub serve : Call → Engine B → Option (Engine B)
  serve (store o page now) e = survived (store_page float ops o page now e)
  serve (load o now) e = survived (load_page ops o now e)
  serve (invalidate o) e = survived (invalidate_page ops o e)

  unfoldable pub serve_all : List Call → Engine B → Option (Engine B)
  serve_all [] e = some e
  serve_all (call ∷ calls) e = elim (serve call e) [ none ↦ none | some e' ↦ serve_all calls e' ]

module _ {F B : Type 0} (float : Float F) {ops : DuvmBackend B} (c : Contract ops) where
  -- Each offset shows nothing or what `f` has there.
  abbrev pub Agrees : Engine B → (ℕ → Option PageBuffer) → Type 0
  Agrees e f = (j : ℕ) → (view c e j ≡ none) ⊎ (view c e j ≡ f j)

  -- Dropping a victim only makes an offset show nothing.
  without-Agrees :
      (e : Engine B) (f : ℕ → Option PageBuffer) (victim : Option ℕ) (j : ℕ)
      → Agrees e f
      → (without victim (view c e) j ≡ none) ⊎ (without victim (view c e) j ≡ f j)
  without-Agrees e f none j a = a j
  without-Agrees e f (some k) j a = elim (Bool-cases (k == j)) [
    | inl t ↦ inl (ap (λ x. if x then none else view c e j) t)
    | inr t ↦ elim (a j) [
      | inl n ↦ inl (ap (λ x. if x then none else view c e j) t ∙ n)
      | inr s ↦ inr (ap (λ x. if x then none else view c e j) t ∙ s)
    ]
  ]

  -- The offset of the call shows `x`, or nothing, and the others are dropped or kept.
  set_Agrees :
      (e e' : Engine B) (o : ℕ) (x y : Option PageBuffer) (f : ℕ → Option PageBuffer)
      (victim : Option ℕ)
      → (x ≡ none) ⊎ (x ≡ y)
      → Agrees e f
      → ((j : ℕ) → view c e' j ≡ (if o == j then x else without victim (view c e) j))
      → (j : ℕ) → (view c e' j ≡ none) ⊎ (view c e' j ≡ (if o == j then y else f j))
  set_Agrees e e' o x y f victim xs a rest j = elim (Bool-cases (o == j)) [
    | inl t ↦
        let v = rest j ∙ ap (λ b. if b then x else without victim (view c e) j) t in
        elim xs [
          | inl n ↦ inl (v ∙ n)
          | inr s ↦ inr (v ∙ s ∙ sym (ap (λ b. if b then y else f j) t))
        ]
    | inr t ↦
        let v = rest j ∙ ap (λ b. if b then x else without victim (view c e) j) t in
        elim (without-Agrees e f victim j a) [
          | inl n ↦ inl (v ∙ n)
          | inr s ↦ inr (v ∙ s ∙ sym (ap (λ b. if b then y else f j) t))
        ]
  ]

  pub store_Agrees :
      (e e' : Engine B) (o : ℕ) (page : PageBuffer) (f : ℕ → Option PageBuffer)
      (out : Engine B × Outcome PageHandle)
      → Agrees e f
      → Stored c e o page out
      → survived out ≡ some e'
      → IsSound c e' × Agrees e' (λ j. if o == j then some page else f j)
  store_Agrees e e' o page f (e1, ok h) a (victim, v, rest) q =
      let same : e1 ≡ e' = ground (arith, q) in
      subst (λ x. IsSound c x × Agrees x (λ j. if o == j then some page else f j)) same
        (v, set_Agrees e e1 o (some page) (some page) f victim (inr refl) a rest)
  store_Agrees e e' o page f (e1, err x) a (victim, v, rest) q =
      let same : e1 ≡ e' = ground (arith, q) in
      subst (λ x. IsSound c x × Agrees x (λ j. if o == j then some page else f j)) same
        (v, set_Agrees e e1 o none (some page) f victim (inl refl) a rest)
  store_Agrees e e' o page f (e1, panic) a t q = absurd (ground (arith, q))

  survived_state :
      {A : Type 0} (e : Engine B) (out : Engine B × Outcome A) → survived out ≡ some e → out.0 ≡ e
  survived_state e (e', ok a) q = ground (arith, q)
  survived_state e (e', err x) q = ground (arith, q)
  survived_state e (e', panic) q = absurd (ground (arith, q))

  serve-Agrees :
      (call : Call) (e e' : Engine B) (f : ℕ → Option PageBuffer)
      → IsTyped call
      → IsSound c e
      → Agrees e f
      → serve float ops call e ≡ some e'
      → IsSound c e' × Agrees e' (after call f)
  unfolding serve
  serve-Agrees (store o page now) e e' f p v a q =
      store_Agrees e e' o page f (store_page float ops o page now e) a
        (store_page_lem c float e o now page p v) q
  serve-Agrees (load o now) e e' f p v a q =
      let (kept, result) = load_page_lem c e o now v in
      subst (λ x. IsSound c x × Agrees x f) (survived_state e' (load_page ops o now e) q)
        (
          kept.sound,
          λ j. elim (a j) [ inl n ↦ inl (kept.rest j ∙ n) | inr s ↦ inr (kept.rest j ∙ s) ],
        )
  serve-Agrees (invalidate o) e e' f p v a q =
      let (result, d) = invalidate_page_lem c e o v in
      subst (λ x. IsSound c x × Agrees x (after (invalidate o) f))
        (survived_state e' (invalidate_page ops o e) q)
        (d.sound, set_Agrees e (invalidate_page ops o e).0 o none none f none (inl refl) a d.rest)

  pub serve_all-Agrees :
      (calls : List Call) (e e' : Engine B) (f : ℕ → Option PageBuffer)
      → Every IsTyped calls
      → IsSound c e
      → Agrees e f
      → serve_all float ops calls e ≡ some e'
      → IsSound c e' × Agrees e' (after_all calls f)
  unfolding serve_all
  serve_all-Agrees [] e e' f ps v a q =
      let same : e ≡ e' = ground (arith, q) in subst (λ x. IsSound c x × Agrees x f) same (v, a)
  serve_all-Agrees (call ∷ calls) e e' f (p, ps) v a q =
      elim (Option-cases (serve float ops call e)) [
        | inl t ↦ absurd (ground (arith, q, t))
        | inr (e1, t) ↦
            let (v1, a1) = serve-Agrees call e e1 f p v a t in
            serve_all-Agrees calls e1 e' (after call f) ps v1 a1 (ground (arith, q, t))
      ]

  -- An engine that has just started.
  pub with_backends-IsSound :
      (bs : HashMap B)
      → ((id : ℕ) (b : B) → lookup id bs ≡ some b → c.IsValid b)
      → IsSound c (with_backends bs) × ((j : ℕ) → view c (with_backends bs) j ≡ none)
  unfolding lookup
  with_backends-IsSound bs valid = (
    record {
      distinct = tt;
      valid = valid;
      held = λ o m h. absurd (ground (arith, h));
      apart = λ o o' m m' ne h h' same. absurd (ground (arith, h));
    },
    λ j. refl,
  )

  -- Over backends that keep the contract, after any run without a panic of stores of whole pages,
  -- loads and invalidations from a sound engine that shows no page, a load of an offset either
  -- reports that the page is not found or returns the page last stored there and not invalidated
  -- since.
  pub load_after_run :
      (calls : List Call) (e e' : Engine B) (o now : ℕ)
      → Every IsTyped calls
      → IsSound c e
      → ((j : ℕ) → view c e j ≡ none)
      → serve_all float ops calls e ≡ some e'
      → ((load_page ops o now e').1 ≡ err page_not_found)
        ⊎ ((page : PageBuffer) × (after_all calls (λ j. none) o ≡ some page)
            × ((load_page ops o now e').1 ≡ ok page))
  load_after_run calls e e' o now ps v empty q =
      let (w, a) = serve_all-Agrees calls e e' (λ j. none) ps v (λ j. inl (empty j)) q in
      let (kept, result) = load_page_lem c e' o now w in
      elim (Option-cases (view c e' o)) [
        | inl nothing ↦ inl (ground (arith, result, nothing))
        | inr (page, h) ↦ elim (a o) [
          | inl nothing ↦ absurd (ground (arith, h, nothing))
          | inr agrees ↦ inr (page, sym agrees ∙ h, ground (arith, result, h))
        ]
      ]
