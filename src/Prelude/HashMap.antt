-- ===== src/Prelude/HashMap.antt =====
-- `HashMap<u64, V>` and `HashMap<u8, V>`: an association list whose order is the (unspecified)
-- iteration order. `insert` replaces the value of a key that is present, `remove` drops the key.
use distributed_uvm.Prelude.Lists.{length, In}
use distributed_uvm.Prelude.Tests.{◌==◌, if◌then◌else◌, ==_iff, Bool-cases}
use Prim.Native.Nat.{ℕ, ◌+◌, ◌≤◌}
use mathlib.Core.Path.{◌≡◌, refl, subst₂}
use mathlib.Core.Logic.{inl, inr}
use mathlib.Core.Bool.{Bool, true, false}
use mathlib.Core.List.{List, [], ◌∷◌}
use mathlib.Core.Option.{Option, none, some}
use native.Mathlib.Omega.{arith}

abbrev pub HashMap {ℓ} : Type ℓ → Type ℓ
HashMap V = List (ℕ × V)

module _ {ℓ} {V : Type ℓ} where
  unfoldable pub lookup : ℕ → HashMap V → Option V
  lookup k [] = none
  lookup k ((j, v) ∷ m) = if j == k then some v else lookup k m

  unfoldable pub insert : ℕ → V → HashMap V → HashMap V
  insert k v [] = (k, v) ∷ []
  insert k v ((j, w) ∷ m) = if j == k then (k, v) ∷ m else (j, w) ∷ insert k v m

  unfoldable pub remove : ℕ → HashMap V → HashMap V
  remove k [] = []
  remove k ((j, w) ∷ m) = if j == k then remove k m else (j, w) ∷ remove k m

  unfoldable pub contains_key : ℕ → HashMap V → Bool
  contains_key k m = elim (lookup k m) [ none ↦ false | some _ ↦ true ]

  -- No key twice.
  abbrev pub IsDistinct : HashMap V → Type ℓ
  IsDistinct [] = Unit
  IsDistinct ((k, v) ∷ m) = (lookup k m ≡ none) × IsDistinct m

  pub lookup-insert :
      (j k : ℕ) (v : V) (m : HashMap V)
      → lookup j (insert k v m) ≡ (if k == j then some v else lookup j m)
  unfolding lookup insert
  lookup-insert j k v [] = refl
  lookup-insert j k v ((i, w) ∷ m) = ground (arith, lookup-insert j k v m)

  pub lookup-insert_self : (k : ℕ) (v : V) (m : HashMap V) → lookup k (insert k v m) ≡ some v
  lookup-insert_self k v m = ground (arith, lookup-insert k k v m)

  pub lookup-remove :
      (j k : ℕ) (m : HashMap V) → lookup j (remove k m) ≡ (if k == j then none else lookup j m)
  unfolding lookup remove
  lookup-remove j k [] = ground arith
  lookup-remove j k ((i, w) ∷ m) = ground (arith, lookup-remove j k m)

  pub lookup-remove_self : (k : ℕ) (m : HashMap V) → lookup k (remove k m) ≡ none
  lookup-remove_self k m = ground (arith, lookup-remove k k m)

  pub insert-IsDistinct : (k : ℕ) (v : V) (m : HashMap V) → IsDistinct m → IsDistinct (insert k v m)
  unfolding lookup insert
  insert-IsDistinct k v [] d = (refl, tt)
  insert-IsDistinct k v ((i, w) ∷ m) d =
      ground (arith, insert-IsDistinct k v m d.1, lookup-insert i k v m)

  pub remove-IsDistinct : (k : ℕ) (m : HashMap V) → IsDistinct m → IsDistinct (remove k m)
  unfolding lookup remove
  remove-IsDistinct k [] d = tt
  remove-IsDistinct k ((i, w) ∷ m) d =
      ground (arith, remove-IsDistinct k m d.1, lookup-remove i k m)

  pub remove_absent : (k : ℕ) (m : HashMap V) → lookup k m ≡ none → remove k m ≡ m
  unfolding lookup remove
  remove_absent k [] h = refl
  remove_absent k ((i, w) ∷ m) h = ground (arith, remove_absent k m)

  pub length-remove :
      (k : ℕ) (v : V) (m : HashMap V)
      → IsDistinct m
      → lookup k m ≡ some v
      → length (remove k m) + 1 ≡ length m
  unfolding lookup remove
  length-remove k v [] d h = cc
  length-remove k v ((i, w) ∷ m) d h = ground (arith, length-remove k v m d.1, remove_absent k m)

  pub length-remove-le : (k : ℕ) (m : HashMap V) → length (remove k m) ≤ length m
  unfolding remove
  length-remove-le k [] = omega arith
  length-remove-le k ((i, w) ∷ m) = ground (arith, length-remove-le k m)

  pub length-insert_new :
      (k : ℕ) (v : V) (m : HashMap V) → lookup k m ≡ none → length (insert k v m) ≡ length m + 1
  unfolding lookup insert
  length-insert_new k v [] h = omega arith
  length-insert_new k v ((i, w) ∷ m) h = ground (arith, length-insert_new k v m)

  pub length-insert_old :
      (k : ℕ) (v w : V) (m : HashMap V) → lookup k m ≡ some w → length (insert k v m) ≡ length m
  unfolding lookup insert
  length-insert_old k v w [] h = cc
  length-insert_old k v w ((i, u) ∷ m) h = ground (arith, length-insert_old k v w m)

  pub length-insert-le : (k : ℕ) (v : V) (m : HashMap V) → length (insert k v m) ≤ length m + 1
  unfolding insert
  length-insert-le k v [] = omega arith
  length-insert-le k v ((i, u) ∷ m) = ground (arith, length-insert-le k v m)

-- Every entry that an iteration over the map yields.
abbrev pub All {ℓ κ} : {V : Type ℓ} → (ℕ → V → Type κ) → HashMap V → Type κ
All P [] = Unit
All P ((k, v) ∷ m) = P k v × All P m

module _ {ℓ κ} {V : Type ℓ} (P : ℕ → V → Type κ) where
  pub All-lookup : (k : ℕ) (v : V) (m : HashMap V) → All P m → lookup k m ≡ some v → P k v
  unfolding lookup
  All-lookup k v [] a h = cc
  All-lookup k v ((i, w) ∷ m) a h = elim (Bool-cases (i == k)) [
    | inl e ↦ let same : w ≡ v = ground (arith, e) in subst₂ P ((==_iff i k).0 e) same a.0
    | inr e ↦ All-lookup k v m a.1 (ground (arith, e))
  ]

  pub All-insert : (k : ℕ) (v : V) (m : HashMap V) → P k v → All P m → All P (insert k v m)
  unfolding insert
  All-insert k v [] p a = (p, tt)
  All-insert k v ((i, w) ∷ m) p a = ground (arith, All-insert k v m p a.1)

  pub All-remove : (k : ℕ) (m : HashMap V) → All P m → All P (remove k m)
  unfolding remove
  All-remove k [] a = tt
  All-remove k ((i, w) ∷ m) a = ground (arith, All-remove k m a.1)

-- In a map without repeated keys every entry is what a lookup of its key finds.
pub lookup_of_In {ℓ} :
    {V : Type ℓ} (k : ℕ) (v : V) (m : HashMap V) → IsDistinct m → In (k, v) m → lookup k m ≡ some v
unfolding lookup
lookup_of_In k v [] d h = elim h [ ]
lookup_of_In k v ((i, w) ∷ m) d (inl q) = ground (arith, q)
lookup_of_In k v ((i, w) ∷ m) d (inr later) = elim (Bool-cases (i == k)) [
  | inl e ↦ absurd (ground (arith, e, lookup_of_In k v m d.1 later, d.0))
  | inr e ↦ rw e (lookup_of_In k v m d.1 later)
]
