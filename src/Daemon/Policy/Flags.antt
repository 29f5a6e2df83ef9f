-- ===== src/Daemon/Policy/Flags.antt =====
-- The table of pages under the policy's operations, and pinning.
use distributed_uvm.Prelude.{
  ℕ, ◌≡◌, true, false, none, some, arith, ◌==◌, if◌then◌else◌, Option-cases, inl, inr,
}
use distributed_uvm.Prelude.HashMap.{lookup, lookup-insert}
use distributed_uvm.Common.Page.{insert_flag, remove_flag, pinned}
use distributed_uvm.Common.Page.Laws.{contains-insert_flag, contains-remove_flag}
use distributed_uvm.Daemon.Policy.{
  PageMeta, PolicyEngine, update, lookup_page, set_flag, clear_flag, evictable,
}

-- An in-place change shows at its offset alone.
pub lookup-update :
    (p : PolicyEngine) (o j : ℕ) (f : PageMeta → PageMeta)
    → lookup_page (update p o f) j ≡ (
        if o == j
        then elim (lookup_page p o) [ none ↦ none | some m ↦ some (f m) ]
        else lookup_page p j)
unfolding update
lookup-update p o j f = elim (Option-cases (lookup o p.pages)) [
  | inl e ↦ ground (arith, e)
  | inr (m, e) ↦ ground (arith, e, lookup-insert j o (f m) p.pages)
]

-- After the pinned flag of a tracked page is set no backend can evict the page, and after it is
-- cleared the page's backend can.
pub set_flag-evictable :
    (p : PolicyEngine) (o b : ℕ) (m : PageMeta)
    → lookup_page p o ≡ some m
    → ((n : PageMeta) × (lookup_page (set_flag p o pinned) o ≡ some n) × (evictable b n ≡ false))
      × ((n : PageMeta) × (lookup_page (clear_flag p o pinned) o ≡ some n)
          × (evictable m.backend_id n ≡ true))
unfolding set_flag clear_flag evictable
set_flag-evictable p o b m e = (
  (
    record m { flags = insert_flag m.flags pinned },
    ground (arith, e, lookup-update p o o (λ x. record x { flags = insert_flag x.flags pinned })),
    ground (arith, contains-insert_flag m.flags pinned),
  ),
  (
    record m { flags = remove_flag m.flags pinned },
    ground (arith, e, lookup-update p o o (λ x. record x { flags = remove_flag x.flags pinned })),
    ground (arith, contains-remove_flag m.flags pinned),
  ),
)
