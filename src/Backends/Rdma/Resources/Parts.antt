-- ===== src/Backends/Rdma/Resources/Parts.antt =====
-- An action that gives up early or late, and what it holds then.
use distributed_uvm.Prelude.{◌≡◌, refl, Bool, true, false, if◌then◌else◌, inl, inr, ◌⊎◌, Empty}
use distributed_uvm.Prelude.Outcome.{Outcome, Error, ok, err, panic}
use distributed_uvm.Backends.Rdma.Resources.{Ledger, State, Action, ◌>>=◌}
use distributed_uvm.Backends.Rdma.Resources.Rules.{Ends, Takes}

module _ {W : Type 0} where
  -- The ledger after an action that gives up early or late.
  abbrev pub Parted : {A : Type 0} → Ledger → Ledger → Ledger → State W × Outcome A → Type 0
  Parted post early late (s, ok a) = s.ledger ≡ post
  Parted post early late (s, err x) = (s.ledger ≡ early) ⊎ (s.ledger ≡ late)
  Parted post early late (s, panic) = Empty {0}

  pub record Parts {A : Type 0} (pre : Ledger) (m : Action W A) (post early late : Ledger)
      : Type 0 where
    pub at : (s : State W) → s.ledger ≡ pre → Parted post early late (m s)

  early-Parted :
      {A : Type 0} (post early late : Ledger) (out : State W × Outcome A)
      → Ends post early out
      → Parted post early late out
  early-Parted post early late (s, ok a) e = e
  early-Parted post early late (s, err x) e = inl e
  early-Parted post early late (s, panic) e = e

  late-Parted :
      {A : Type 0} (post early late : Ledger) (out : State W × Outcome A)
      → Ends post late out
      → Parted post early late out
  late-Parted post early late (s, ok a) e = e
  late-Parted post early late (s, err x) e = inr e
  late-Parted post early late (s, panic) e = e

  pub Parts-early :
      {A : Type 0} {pre post early : Ledger} {m : Action W A} (late : Ledger)
      → Takes pre m post early
      → Parts pre m post early late
  Parts-early {post} {early} {m} late t = record {
    at = λ s e. early-Parted post early late (m s) (t.at s e);
  }

  pub Parts-late :
      {A : Type 0} {pre post late : Ledger} {m : Action W A} (early : Ledger)
      → Takes pre m post late
      → Parts pre m post early late
  Parts-late {post} {late} {m} early t = record {
    at = λ s e. late-Parted post early late (m s) (t.at s e);
  }

  bind-Parted :
      {A B : Type 0} (mid post early late : Ledger) (out : State W × Outcome A) (f : A → Action W B)
      → Ends {A = A} mid early out
      → ((a : A) → Parts mid (f a) post early late)
      → Parted {A = B} post early late
          (elim out.1 [ ok a ↦ f a out.0 | err x ↦ (out.0, err x) | panic ↦ (out.0, panic) ])
  bind-Parted mid post early late (s, ok a) f e k = (k a).at s e
  bind-Parted mid post early late (s, err x) f e k = inl e
  bind-Parted mid post early late (s, panic) f e k = elim e [ ]

  pub Parts-bind :
      {A B : Type 0} {pre mid post early late : Ledger} {m : Action W A} {f : A → Action W B}
      → Takes pre m mid early
      → ((a : A) → Parts mid (f a) post early late)
      → Parts pre (m >>= f) post early late
  Parts-bind {mid} {post} {early} {late} {m} {f} h k = record {
    at = λ s e. bind-Parted mid post early late (m s) f (h.at s e) k;
  }

  pub Parts-either :
      {A : Type 0} {pre post early late : Ledger} (b : Bool) {m k : Action W A}
      → Parts pre m post early late
      → Parts pre k post early late
      → Parts pre (if b then m else k) post early late
  Parts-either true h h' = h
  Parts-either false h h' = h'

  pub Parted-cases :
      {A : Type 0} (post early late : Ledger) (out : State W × Outcome A)
      → Parted post early late out
      → ((a : A) × (out.1 ≡ ok a) × (out.0.ledger ≡ post))
        ⊎ ((x : Error) × (out.1 ≡ err x) × ((out.0.ledger ≡ early) ⊎ (out.0.ledger ≡ late)))
  Parted-cases post early late (s, ok a) e = inl (a, refl, e)
  Parted-cases post early late (s, err x) e = inr (x, refl, e)
  Parted-cases post early late (s, panic) e = elim e [ ]
