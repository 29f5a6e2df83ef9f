-- ===== src/Backends/Rdma/Resources/Rules.antt =====
-- What an action takes and gives back, by rules that follow its text.
use distributed_uvm.Prelude.{
  ◌≡◌, ◌≢◌, refl, ap, ◌∙◌, Bool, true, false, List, [], ◌∷◌, if◌then◌else◌, Empty, subst,
  Bool-cases, inl, inr, ◌⊎◌, arith,
}
use distributed_uvm.Prelude.Outcome.{Outcome, Error, ok, err, panic}
use distributed_uvm.Backends.Rdma.Resources.{
  Resource, Ledger, released, all_released, State, Action, ◌>>=◌, pure, bail, acquire, attempt,
  release,
}

module _ {W : Type 0} where
  -- The ledger after an action: `post` where it succeeds and `fail` where it does not.
  abbrev pub Ends : {A : Type 0} → Ledger → Ledger → State W × Outcome A → Type 0
  Ends post fail (s, ok a) = s.ledger ≡ post
  Ends post fail (s, err x) = s.ledger ≡ fail
  Ends post fail (s, panic) = Empty {0}

  pub record Takes {A : Type 0} (pre : Ledger) (m : Action W A) (post fail : Ledger) : Type 0 where
    pub at : (s : State W) → s.ledger ≡ pre → Ends post fail (m s)

  Ends-bind :
      {A B : Type 0} (mid post fail : Ledger) (out : State W × Outcome A) (f : A → Action W B)
      → Ends {A = A} mid fail out
      → ((a : A) → Takes mid (f a) post fail)
      → Ends {A = B} post fail
          (elim out.1 [ ok a ↦ f a out.0 | err x ↦ (out.0, err x) | panic ↦ (out.0, panic) ])
  Ends-bind mid post fail (s, ok a) f e k = (k a).at s e
  Ends-bind mid post fail (s, err x) f e k = e
  Ends-bind mid post fail (s, panic) f e k = elim e [ ]

  pub Ends-cases :
      {A : Type 0} (post fail : Ledger) (out : State W × Outcome A)
      → Ends post fail out
      → ((a : A) × (out.1 ≡ ok a) × (out.0.ledger ≡ post))
        ⊎ ((x : Error) × (out.1 ≡ err x) × (out.0.ledger ≡ fail))
  Ends-cases post fail (s, ok a) e = inl (a, refl, e)
  Ends-cases post fail (s, err x) e = inr (x, refl, e)
  Ends-cases post fail (s, panic) e = elim e [ ]

  pub Takes-bind :
      {A B : Type 0} {pre mid post fail : Ledger} {m : Action W A} {f : A → Action W B}
      → Takes pre m mid fail
      → ((a : A) → Takes mid (f a) post fail)
      → Takes pre (m >>= f) post fail
  Takes-bind {mid} {post} {fail} {m} {f} h k = record {
    at = λ s e. Ends-bind mid post fail (m s) f (h.at s e) k;
  }

  pub Takes-pure : {A : Type 0} (a : A) (pre fail : Ledger) → Takes pre (pure a) pre fail
  Takes-pure a pre fail = record { at = λ s e. e }

  bail-Ends :
      (A : Type 0) (free : Resource → W → W) (cleanup : List Resource) (x : Error) (post : Ledger)
      (s : State W)
      → Ends {A = A} post (all_released cleanup s.ledger) (bail free cleanup x s)
  unfolding bail
  bail-Ends A free [] x post s = refl
  bail-Ends A free (r ∷ rs) x post s =
      bail-Ends A free rs x post (record { world = free r s.world; ledger = released r s.ledger })

  module _ (free : Resource → W → W) (cleanup : List Resource) (x : Error) (pre fail : Ledger)
      (cleans : all_released cleanup pre ≡ fail) where
    cleaned :
        (A : Type 0) (post : Ledger) (s : State W)
        → s.ledger ≡ pre
        → Ends {A = A} post fail (bail free cleanup x s)
    cleaned A post s e =
        subst (λ l. Ends {A = A} post l (bail free cleanup x s))
          (ap (all_released cleanup) e ∙ cleans) (bail-Ends A free cleanup x post s)

    pub Takes-bail :
        {A : Type 0} (post : Ledger) → Takes {A = A} pre (bail free cleanup x) post fail
    Takes-bail {A} post = record { at = cleaned A post }

  module _ (free : Resource → W → W) (call : W → W × Bool) (cleanup : List Resource) (x : Error)
      (pre fail : Ledger) (cleans : all_released cleanup pre ≡ fail) where
    pub Takes-acquire :
        (r : Resource)
        → Takes pre (acquire free call r cleanup x) (record pre { held = r ∷ pre.held }) fail
    unfolding acquire
    Takes-acquire r = record {
      at = λ s e. elim (Bool-cases (call s.world).1) [
        | inl t ↦ rw t (ap (λ (l : Ledger). record l { held = r ∷ l.held }) e)
        | inr t ↦ rw t (
            cleaned free cleanup x pre fail cleans (Unit {0}) (record pre { held = r ∷ pre.held })
              (record s { world = (call s.world).0 }) e)
      ];
    }

    pub Takes-attempt : Takes pre (attempt free call cleanup x) pre fail
    unfolding attempt
    Takes-attempt = record {
      at = λ s e. elim (Bool-cases (call s.world).1) [
        | inl t ↦ rw t e
        | inr t ↦ rw t (
            cleaned free cleanup x pre fail cleans (Unit {0}) pre
              (record s { world = (call s.world).0 }) e)
      ];
    }

  pub Takes-release :
      (free : Resource → W → W) (r : Resource) (pre fail : Ledger)
      → Takes pre (release free r) (released r pre) fail
  unfolding release
  Takes-release free r pre fail = record { at = λ s e. ap (released r) e }

  -- A decision between going on and giving up.
  pub Takes-if :
      (free : Resource → W → W) (b : State W → Bool) (pre fail : Ledger) (cleanup : List Resource)
      (x : Error)
      → all_released cleanup pre ≡ fail
      → Takes pre (λ s. if b s then (s, ok tt) else bail free cleanup x s) pre fail
  Takes-if free b pre fail cleanup x cleans = record {
    at = λ s e. elim (Bool-cases (b s)) [
      | inl t ↦ rw t e
      | inr t ↦ rw t ((Takes-bail free cleanup x pre fail cleans {A = Unit {0}} pre).at s e)
    ];
  }

  -- What only reads and changes the world.
  pub Takes-world :
      {A : Type 0} (f : State W → W × A) (pre fail : Ledger)
      → Takes pre (λ s. let (w, a) = f s in (record s { world = w }, ok a)) pre fail
  Takes-world f pre fail = record { at = λ s e. e }

  pub Takes-either :
      {A : Type 0} {pre post fail : Ledger} (b : Bool) {m k : Action W A}
      → Takes pre m post fail
      → Takes pre k post fail
      → Takes pre (if b then m else k) post fail
  Takes-either true h h' = h
  Takes-either false h h' = h'

  -- What holds of the value where an action succeeds.
  pub record Yields {A : Type 0} (P : A → Type 0) (m : Action W A) : Type 0 where
    pub at : (s : State W) (a : A) → (m s).1 ≡ ok a → P a

  bind_yields :
      {A B : Type 0} (P : B → Type 0) (out : State W × Outcome A) (f : A → Action W B) (b : B)
      → ((a : A) → Yields P (f a))
      → (let r : State W × Outcome B = elim out.1 [
        | ok a ↦ f a out.0
        | err x ↦ (out.0, err x)
        | panic ↦ (out.0, panic)
      ] in
          r.1 ≡ ok b)
      → P b
  bind_yields P (s, ok a) f b k h = (k a).at s b h
  bind_yields P (s, err x) f b k h = absurd (ground (arith, h))
  bind_yields P (s, panic) f b k h = absurd (ground (arith, h))

  pub Yields-bind :
      {A B : Type 0} {P : B → Type 0} {f : A → Action W B} (m : Action W A)
      → ((a : A) → Yields P (f a))
      → Yields P (m >>= f)
  Yields-bind {P} {f} m k = record { at = λ s b h. bind_yields P (m s) f b k h }

  pub Yields-pure : {A : Type 0} {P : A → Type 0} (a : A) → P a → Yields P (pure a)
  Yields-pure {A} {P} a p = record {
    at = λ s b h. let same : a ≡ b = ground (arith, h) in subst P same p;
  }

  bail_no_value :
      (A : Type 0) (free : Resource → W → W) (cleanup : List Resource) (x : Error) (s : State W)
      (a : A)
      → (bail {A = A} free cleanup x s).1 ≢ ok a
  unfolding bail
  bail_no_value A free [] x s a h = absurd (ground (arith, h))
  bail_no_value A free (r ∷ rs) x s a h =
      bail_no_value A free rs x (record { world = free r s.world; ledger = released r s.ledger }) a
        h

  pub Yields-bail :
      {A : Type 0} {P : A → Type 0} (free : Resource → W → W) (cleanup : List Resource) (x : Error)
      → Yields P (bail free cleanup x)
  Yields-bail {A} {P} free cleanup x = record {
    at = λ s a h. absurd (bail_no_value A free cleanup x s a h);
  }

  pub Yields-if :
      {A : Type 0} {P : A → Type 0} (b : Bool) (m k : Action W A)
      → (b ≡ true → Yields P m)
      → (b ≡ false → Yields P k)
      → Yields P (if b then m else k)
  Yields-if true m k y y' = y refl
  Yields-if false m k y y' = y' refl
