-- ===== src/Prelude/Method.antt =====
-- Methods that change a state and may fail: the state after the call, beside its outcome. What a method
-- ensures is a triple, whose rules follow the program text.
use distributed_uvm.Prelude.Outcome.{Outcome, Error, ok, err, panic}
use distributed_uvm.Prelude.Tests.{if◌then◌else◌}
use mathlib.Core.Path.{◌≡◌, refl}
use mathlib.Core.Bool.{Bool, true, false}

abbrev pub Method : Type 0 → Type 0 → Type 0
Method S A = S → S × Outcome A

module _ {S : Type 0} where
  infixl 5 ◌>>=◌ ◌>>◌
  abbrev pub ◌>>=◌ : {A B : Type 0} → Method S A → (A → Method S B) → Method S B
  ◌>>=◌ m f s =
      let (s', r) = m s in elim r [ ok a ↦ f a s' | err x ↦ (s', err x) | panic ↦ (s', panic) ]

  abbrev pub ◌>>◌ : {A B : Type 0} → Method S A → Method S B → Method S B
  m >> k = m >>= λ _. k

  abbrev pub pure : {A : Type 0} → A → Method S A
  pure a s = (s, ok a)

  abbrev pub throw : {A : Type 0} → Error → Method S A
  throw x s = (s, err x)

  -- `match` on a result whose error is dropped.
  abbrev pub or_else : {A : Type 0} → Method S A → Method S A → Method S A
  or_else m k s =
      let (s', r) = m s in elim r [ ok a ↦ (s', ok a) | err x ↦ k s' | panic ↦ (s', panic) ]

  -- `post` where the method succeeds, and `fail` where it does not.
  abbrev pub Holds : {A : Type 0} → (A → S → Type 0) → (S → Type 0) → S × Outcome A → Type 0
  Holds post fail (s, ok a) = post a s
  Holds post fail (s, err x) = fail s
  Holds post fail (s, panic) = fail s

  pub record Triple {A : Type 0} (pre : S → Type 0) (m : Method S A) (post : A → S → Type 0)
      (fail : S → Type 0) : Type 0 where
    pub at : (s : S) → pre s → Holds post fail (m s)

  module _ {A B : Type 0} {fail : S → Type 0} where
    bind-Holds :
        (mid : A → S → Type 0) (post : B → S → Type 0) (out : S × Outcome A) (f : A → Method S B)
        → Holds mid fail out
        → ((a : A) → Triple (mid a) (f a) post fail)
        → Holds {A = B} post fail
            (elim out.1 [ ok a ↦ f a out.0 | err x ↦ (out.0, err x) | panic ↦ (out.0, panic) ])
    bind-Holds mid post (s, ok a) f h k = (k a).at s h
    bind-Holds mid post (s, err x) f h k = h
    bind-Holds mid post (s, panic) f h k = h

    pub Triple-bind :
        {pre : S → Type 0} {mid : A → S → Type 0} {post : B → S → Type 0} {m : Method S A}
        {f : A → Method S B}
        → Triple pre m mid fail
        → ((a : A) → Triple (mid a) (f a) post fail)
        → Triple pre (m >>= f) post fail
    Triple-bind {mid} {post} {m} {f} t k = record {
      at = λ s p. bind-Holds mid post (m s) f (t.at s p) k;
    }

  module _ {A : Type 0} {post : A → S → Type 0} {fail : S → Type 0} where
    else-Holds :
        (mid : S → Type 0) (out : S × Outcome A) (k : Method S A)
        → Holds post mid out
        → ((s : S) → mid s → fail s)
        → Triple mid k post fail
        → Holds {A = A} post fail
            (elim out.1 [ ok a ↦ (out.0, ok a) | err x ↦ k out.0 | panic ↦ (out.0, panic) ])
    else-Holds mid (s, ok a) k h lost t = h
    else-Holds mid (s, err x) k h lost t = t.at s h
    else-Holds mid (s, panic) k h lost t = lost s h

    pub Triple-else :
        {pre mid : S → Type 0} {m k : Method S A}
        → Triple pre m post mid
        → ((s : S) → mid s → fail s)
        → Triple mid k post fail
        → Triple pre (or_else m k) post fail
    Triple-else {mid} {m} {k} t lost u = record {
      at = λ s p. else-Holds mid (m s) k (t.at s p) lost u;
    }

    pub Triple-pure : (a : A) → Triple (post a) (pure a) post fail
    Triple-pure a = record { at = λ s p. p }

    pub Triple-throw : (x : Error) → Triple fail (throw x) post fail
    Triple-throw x = record { at = λ s p. p }

    pub Triple-if :
        {pre : S → Type 0} (b : Bool) {m k : Method S A}
        → (b ≡ true → Triple pre m post fail)
        → (b ≡ false → Triple pre k post fail)
        → Triple pre (if b then m else k) post fail
    Triple-if true t u = t refl
    Triple-if false t u = u refl

    -- A weaker condition before, and stronger ones after.
    pub Triple-weaken :
        {pre pre' fail' : S → Type 0} {post' : A → S → Type 0} {m : Method S A}
        → ((s : S) → pre s → pre' s)
        → ((a : A) (s : S) → post' a s → post a s)
        → ((s : S) → fail' s → fail s)
        → Triple pre' m post' fail'
        → Triple pre m post fail
    Triple-weaken {fail'} {post'} {m} before after lost t = record {
      at = λ s p. weaken-Holds (m s) (t.at s (before s p));
    }
      where
        weaken-Holds : (out : S × Outcome A) → Holds post' fail' out → Holds post fail out
        weaken-Holds (s, ok a) h = after a s h
        weaken-Holds (s, err x) h = lost s h
        weaken-Holds (s, panic) h = lost s h
