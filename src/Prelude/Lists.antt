-- ===== src/Prelude/Lists.antt =====
-- Lists measured and indexed by native numbers, under the library's names.
use Prim.Native.Nat.{ℕ, zero, suc, ◌+◌, ◌<◌, ◌≤◌, min}
use mathlib.Core.Path.{◌≡◌, refl, ap, sym, ◌∙◌, subst}
use mathlib.Core.Logic.{◌≢◌, ◌⊎◌, inl, inr}
use mathlib.Core.Bool.{Bool, true, false}
use mathlib.Core.List.{List, [], ◌∷◌, ◌++◌}
use mathlib.Core.Option.{Option, none, some}
use native.Mathlib.Omega.{arith}
use distributed_uvm.Prelude.Tests.{if◌then◌else◌, Bool-cases}

module _ {ℓ} {A : Type ℓ} where
  abbrev pub length : List A → ℕ
  length [] = 0
  length (x ∷ xs) = suc (length xs)

  abbrev pub get_elem? : List A → ℕ → Option A
  get_elem? [] i = none
  get_elem? (x ∷ xs) zero = some x
  get_elem? (x ∷ xs) (suc i) = get_elem? xs i

  abbrev pub get_or : List A → ℕ → A → A
  get_or [] i d = d
  get_or (x ∷ xs) zero d = x
  get_or (x ∷ xs) (suc i) d = get_or xs i d

  -- A write out of bounds changes nothing.
  abbrev pub set : List A → ℕ → A → List A
  set [] i v = []
  set (x ∷ xs) zero v = v ∷ xs
  set (x ∷ xs) (suc i) v = x ∷ set xs i v

  abbrev pub take : ℕ → List A → List A
  take zero xs = []
  take (suc n) [] = []
  take (suc n) (x ∷ xs) = x ∷ take n xs

  abbrev pub drop : ℕ → List A → List A
  drop zero xs = xs
  drop (suc n) [] = []
  drop (suc n) (x ∷ xs) = drop n xs

  abbrev pub replicate : ℕ → A → List A
  replicate zero a = []
  replicate (suc n) a = a ∷ replicate n a

  -- `iter().filter(p)` with a Boolean test.
  abbrev pub keep : (A → Bool) → List A → List A
  keep p [] = []
  keep p (x ∷ xs) = if p x then x ∷ keep p xs else keep p xs

  pub length-append : (xs ys : List A) → length (xs ++ ys) ≡ length xs + length ys
  length-append [] ys = omega arith
  length-append (x ∷ xs) ys = omega (arith, length-append xs ys)

  pub length-set : (xs : List A) (i : ℕ) (v : A) → length (set xs i v) ≡ length xs
  length-set [] i v = refl
  length-set (x ∷ xs) zero v = refl
  length-set (x ∷ xs) (suc i) v = ap suc (length-set xs i v)

  pub length-replicate : (n : ℕ) (a : A) → length (replicate n a) ≡ n
  length-replicate zero a = refl
  length-replicate (suc n) a = ap suc (length-replicate n a)

  pub length-take : (n : ℕ) (xs : List A) → length (take n xs) ≡ min n (length xs)
  length-take zero xs = omega arith
  length-take (suc n) [] = omega arith
  length-take (suc n) (x ∷ xs) = omega (arith, length-take n xs)

  pub length-keep-le : (p : A → Bool) (xs : List A) → length (keep p xs) ≤ length xs
  length-keep-le p [] = omega arith
  length-keep-le p (x ∷ xs) = ground (arith, length-keep-le p xs)

  pub get_or-set_self :
      (xs : List A) (i : ℕ) (v d : A) → i < length xs → get_or (set xs i v) i d ≡ v
  get_or-set_self [] i v d h = elim h [ ]
  get_or-set_self (x ∷ xs) zero v d h = refl
  get_or-set_self (x ∷ xs) (suc i) v d h = get_or-set_self xs i v d (omega arith)

  pub get_or-set_ne :
      (xs : List A) {i j : ℕ} (v d : A) → i ≢ j → get_or (set xs i v) j d ≡ get_or xs j d
  get_or-set_ne [] v d h = refl
  get_or-set_ne (x ∷ xs) {i = zero} {j = zero} v d h = absurd (h refl)
  get_or-set_ne (x ∷ xs) {i = zero} {j = suc j} v d h = refl
  get_or-set_ne (x ∷ xs) {i = suc i} {j = zero} v d h = refl
  get_or-set_ne (x ∷ xs) {i = suc i} {j = suc j} v d h = get_or-set_ne xs v d (λ e. h (ap suc e))

  pub get_elem?-set_self :
      (xs : List A) (i : ℕ) (v : A) → i < length xs → get_elem? (set xs i v) i ≡ some v
  get_elem?-set_self [] i v h = elim h [ ]
  get_elem?-set_self (x ∷ xs) zero v h = refl
  get_elem?-set_self (x ∷ xs) (suc i) v h = get_elem?-set_self xs i v (omega arith)

  pub get_elem?-set_ne :
      (xs : List A) {i j : ℕ} (v : A) → i ≢ j → get_elem? (set xs i v) j ≡ get_elem? xs j
  get_elem?-set_ne [] v h = refl
  get_elem?-set_ne (x ∷ xs) {i = zero} {j = zero} v h = absurd (h refl)
  get_elem?-set_ne (x ∷ xs) {i = zero} {j = suc j} v h = refl
  get_elem?-set_ne (x ∷ xs) {i = suc i} {j = zero} v h = refl
  get_elem?-set_ne (x ∷ xs) {i = suc i} {j = suc j} v h = get_elem?-set_ne xs v (λ e. h (ap suc e))

  pub take_append : (xs ys : List A) → take (length xs) (xs ++ ys) ≡ xs
  take_append [] ys = refl
  take_append (x ∷ xs) ys = ap (λ zs. x ∷ zs) (take_append xs ys)

  pub drop_append : (xs ys : List A) → drop (length xs) (xs ++ ys) ≡ ys
  drop_append [] ys = refl
  drop_append (x ∷ xs) ys = drop_append xs ys

-- The empty type at every level.
pub data Empty {ℓ} : Type ℓ where

-- Membership and universal truth by recursion, which the tactics take apart.
abbrev pub In {ℓ} : {A : Type ℓ} → A → List A → Type ℓ
In a [] = Empty
In a (x ∷ xs) = (a ≡ x) ⊎ In a xs

abbrev pub Every {ℓ κ} : {A : Type ℓ} → (A → Type κ) → List A → Type κ
Every P [] = Unit
Every P (x ∷ xs) = P x × Every P xs

module _ {ℓ} {A : Type ℓ} (p : A → Bool) where
  pub keep-nil : (xs : List A) → keep p xs ≡ [] → Every (λ x. p x ≡ false) xs
  keep-nil [] h = tt
  keep-nil (x ∷ xs) h = ground (arith, keep-nil xs)

  pub keep-nil_of_Every : (xs : List A) → Every (λ x. p x ≡ false) xs → keep p xs ≡ []
  keep-nil_of_Every [] h = refl
  keep-nil_of_Every (x ∷ xs) h = ground (arith, keep-nil_of_Every xs)

  pub In-keep : (y : A) (xs : List A) → In y (keep p xs) → In y xs × (p y ≡ true)
  In-keep y [] h = elim h [ ]
  In-keep y (x ∷ xs) h = elim (Bool-cases (p x)) [
    | inl e ↦ head (In-keep y xs) e (rw e at h)
    | inr e ↦ let (i, q) = In-keep y xs (rw e at h) in (inr i, q)
  ]
    where
      head :
          (In y (keep p xs) → In y xs × (p y ≡ true))
          → p x ≡ true
          → In y (x ∷ keep p xs)
          → In y (x ∷ xs) × (p y ≡ true)
      head ih e (inl same) = (inl same, ap p same ∙ e)
      head ih e (inr later) = let (i, q) = ih later in (inr i, q)

  pub In-keep_of : (y : A) (xs : List A) → In y xs → p y ≡ true → In y (keep p xs)
  In-keep_of y [] h e = elim h [ ]
  In-keep_of y (x ∷ xs) (inl same) e = rw (ap p (sym same) ∙ e) (inl same)
  In-keep_of y (x ∷ xs) (inr later) e = elim (Bool-cases (p x)) [
    | inl k ↦ rw k (inr (In-keep_of y xs later e))
    | inr k ↦ rw k (In-keep_of y xs later e)
  ]

pub Every-In {ℓ κ} :
    {A : Type ℓ} (P : A → Type κ) (y : A) (xs : List A) → Every P xs → In y xs → P y
Every-In P y [] a h = elim h [ ]
Every-In P y (x ∷ xs) a (inl same) = subst P (sym same) a.0
Every-In P y (x ∷ xs) a (inr later) = Every-In P y xs a.1 later

pub Every-get_elem? {ℓ κ} :
    {A : Type ℓ} (P : A → Type κ) (xs : List A) (i : ℕ) (a : A)
    → Every P xs
    → get_elem? xs i ≡ some a
    → P a
Every-get_elem? P [] i a all h = absurd (ground (arith, h))
Every-get_elem? P (x ∷ xs) zero a all h = let same : x ≡ a = ground (arith, h) in subst P same all.0
Every-get_elem? P (x ∷ xs) (suc i) a all h = Every-get_elem? P xs i a all.1 h

pub Every-set {ℓ κ} :
    {A : Type ℓ} (P : A → Type κ) (xs : List A) (i : ℕ) (a : A)
    → Every P xs
    → P a
    → Every P (set xs i a)
Every-set P [] i a all p = tt
Every-set P (x ∷ xs) zero a all p = (p, all.1)
Every-set P (x ∷ xs) (suc i) a all p = (all.0, Every-set P xs i a all.1 p)

pub List-cases {ℓ} :
    {A : Type ℓ} (xs : List A) → (xs ≡ []) ⊎ ((y : A) × (ys : List A) × (xs ≡ y ∷ ys))
List-cases [] = inl refl
List-cases (x ∷ xs) = inr (x, xs, refl)
