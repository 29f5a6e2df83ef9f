-- ===== src/Libduvm.antt =====
-- crates/libduvm/src/pool.rs: the pool that an application uses without a daemon. The pool is generic
-- in its backends (`Box<dyn DuvmBackend>`), so `standalone` takes the two backends it is made of.
pub mod Slots
pub mod Ffi
use distributed_uvm.Prelude.{ℕ, ◌+◌, ◌-◌, ◌^◌, Option, none, some, List, [], ◌∷◌}
use Prim.Native.Nat.{min}
use distributed_uvm.Prelude.Outcome.{Outcome, ok, err, panic, backend_not_found}
use distributed_uvm.Prelude.HashMap.{HashMap, lookup, insert}
use distributed_uvm.Common.Page.{PageHandle, PageBuffer, backend_id}
use distributed_uvm.Backends.Trait.{DuvmBackend, default_config}

abbrev pub Pool : Type 0 → Type 0
Pool B = HashMap B

-- `saturating_add` on a `u64`
abbrev pub saturating_add : ℕ → ℕ → ℕ
saturating_add a b = min (a + b) (2 ^ 64 - 1)

module _ {B : Type 0} (ops : DuvmBackend B) where
  unfoldable pub standalone : B → B → Outcome (Pool B)
  standalone mem comp =
      let (mem', r) = ops.init mem default_config in
      let (comp', r') = ops.init comp default_config in
      elim r [
        | err e ↦ err e
        | panic ↦ panic
        | ok _ ↦ elim r' [
          | err e ↦ err e
          | panic ↦ panic
          | ok _ ↦ ok (insert 1 comp' (insert 0 mem' []))
        ]
      ]

  -- Compression is preferred.
  unfoldable pub preferred : Pool B → Option (ℕ × B)
  preferred p = elim (lookup 1 p) [
    | some b ↦ some (1, b)
    | none ↦ elim (lookup 0 p) [ some b ↦ some (0, b) | none ↦ none ]
  ]

  unfoldable pub store : Pool B → PageBuffer → Pool B × Outcome PageHandle
  store p page = elim (preferred p) [
    | none ↦ (p, err backend_not_found)
    | some (id, b) ↦
        let (b', allocated) = ops.alloc_page b in
        elim allocated [
          | err e ↦ (insert id b' p, err e)
          | panic ↦ (insert id b' p, panic)
          | ok handle ↦
              let (b'', stored) = ops.store_page b' handle page in
              elim stored [
                | ok _ ↦ (insert id b'' p, ok handle)
                | err e ↦ (insert id b'' p, err e)
                | panic ↦ (insert id b'' p, panic)
              ]
        ]
  ]

  unfoldable pub load : Pool B → PageHandle → Pool B × Outcome PageBuffer
  load p handle = elim (lookup (backend_id handle) p) [
    | none ↦ (p, err backend_not_found)
    | some b ↦ let (b', r) = ops.load_page b handle in (insert (backend_id handle) b' p, r)
  ]

  unfoldable pub free : Pool B → PageHandle → Pool B × Outcome (Unit {0})
  free p handle = elim (lookup (backend_id handle) p) [
    | none ↦ (p, err backend_not_found)
    | some b ↦ let (b', r) = ops.free_page b handle in (insert (backend_id handle) b' p, r)
  ]

  -- The loop over the backends.
  sum_capacity : Pool B → ℕ → ℕ → ℕ × ℕ
  sum_capacity [] total used = (total, used)
  sum_capacity ((id, b) ∷ p) total used =
      sum_capacity p (saturating_add total (ops.capacity b).0)
        (saturating_add used (ops.capacity b).1)

  unfoldable pub capacity : Pool B → ℕ × ℕ
  unfolding sum_capacity
  capacity p = sum_capacity p 0 0
