-- ===== src/Common/Fifo.antt =====
-- The contract of the rings: a first-in first-out queue of at most `limit` entries, oldest first.
use distributed_uvm.Prelude.{
  ℕ, Bool, true, false, Option, none, some, List, [], ◌∷◌, ◌++◌, length, ◌==◌, if◌then◌else◌,
}

module _ {A : Type 0} where
  unfoldable pub push : ℕ → List A → A → List A × Bool
  push limit q x = if length q == limit then (q, false) else (q ++ (x ∷ []), true)

  unfoldable pub pop : List A → List A × Option A
  pop [] = ([], none)
  pop (x ∷ q) = (q, some x)
