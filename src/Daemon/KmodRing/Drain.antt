-- ===== src/Daemon/KmodRing/Drain.antt =====
-- The consumer answers what is pending: the inner loop of `run_loop` in crates/duvm-daemon/src/kmod_ring.rs
-- ends, while the kernel adds nothing.
use distributed_uvm.Prelude.{
  ℕ, zero, suc, ◌+◌, ◌^◌, ◌%◌, ◌≡◌, ◌≢◌, ◌<◌, sym, ap, ◌∙◌, some, arith, inl, inr, ◌⊎◌,
}
use native.Mathlib.Decide.{ℕ_discrete}
use native.Mathlib.Nat.{mod_self, mod-eq_of_lt, mod-add-mod}
use distributed_uvm.Backends.Trait.{DuvmBackend}
use distributed_uvm.Daemon.Engine.{Engine, Float}
use distributed_uvm.Daemon.KmodRing.{KmodRequest, Region, poll_once, drain, drained, crashed}
use distributed_uvm.Daemon.KmodRing.Order.{IsInOrder, none_pending-IsInOrder, next-IsInOrder}
use distributed_uvm.Daemon.KmodRing.Shared.{IsRegion, pending, IsNext}
use distributed_uvm.Daemon.KmodRing.Step.{poll-Goes}

-- The index after `r` in a ring of `c` entries.
next_index :
    (r c : ℕ) → r < c → (((r + 1) % c ≡ r + 1) × (r + 1 < c)) ⊎ (((r + 1) % c ≡ 0) × (r + 1 ≡ c))
next_index r c below = elim (ℕ_discrete (r + 1) c) [
  | yes e ↦ inr (rw e (mod_self c), e)
  | no ne ↦ let less : r + 1 < c = omega (arith, below, ne) in inl (mod-eq_of_lt less, less)
]

pub pending_step :
    (k : ℕ) (region : Region) (req : KmodRequest) (result : ℕ) (region' : Region)
    → IsRegion k region
    → region.req_read ≢ region.req_write
    → IsNext k region req result region'
    → suc (pending k region') ≡ pending k region
pending_step k region req result region' v ne n =
    elim (next_index region.req_read (2 ^ k) v.reads) [
      | inl (m, less) ↦ ground (arith, n.read ∙ m, n.write, ne, v.writes, less)
      | inr (m, end) ↦ ground (arith, n.read ∙ m, n.write, ne, v.writes, end)
    ]

module _ {B : Type 0} (k : ℕ) {F : Type 0} (float : Float F) (ops : DuvmBackend B) where
  -- What a drain comes to.
  pub record IsAnswered (region region' : Region) : Type 0 where
    pub valid : IsRegion k region'
    pub nothing_pending : region'.req_read ≡ region.req_write
    pub completed : region'.comp_write ≡ (region.comp_write + pending k region) % 2 ^ k
    pub in_order : IsInOrder k region region'

  abbrev pub Drains : ℕ → (ℕ → ℕ) → Region → Engine B → Type 0
  Drains fuel clock region e =
      ((region' : Region) × (e' : Engine B) × (drain float ops fuel clock region e
          ≡ some (drained region' e'))
        × IsAnswered region region')
      ⊎ ((e' : Engine B) × (drain float ops fuel clock region e ≡ some (crashed e')))

  -- In a region with rings of 2^k entries, indices within them and requests that name slots there
  -- are, with more fuel than pending requests, whatever the backends do and while the kernel adds
  -- nothing, the consumer's loop ends, unless the engine panics, with nothing pending and a region
  -- in order: the request pending at distance i from the read index has its completion, with its
  -- sequence number and slot, at distance i from the completion index, as many completions are
  -- written as requests were pending, and no other entry of the completions changes.
  pub drain-Drains :
      (fuel : ℕ) (clock : ℕ → ℕ) (region : Region) (e : Engine B)
      → IsRegion k region
      → pending k region < fuel
      → Drains fuel clock region e
  drain-Drains zero clock region e v enough = absurd (omega (arith, enough))
  drain-Drains (suc fuel) clock region e v enough =
      elim (ℕ_discrete region.req_read region.req_write) [
        | yes same ↦
            let none_pending : pending k region ≡ 0 = ground (arith, same) in
            let run : drain float ops (suc fuel) clock region e ≡ some (drained region e) =
              unfold drain poll_once in ground (arith, same) in
            inl (
              region,
              e,
              run,
              record {
                valid = v;
                nothing_pending = same;
                completed = sym (
                    ap (λ p. (region.comp_write + p) % 2 ^ k) none_pending
                    ∙ ap (λ c. c % 2 ^ k) (omega arith)
                    ∙ mod-eq_of_lt v.completes);
                in_order = none_pending-IsInOrder k region none_pending;
              },
            )
        | no ne ↦ elim (poll-Goes float ops k region (clock fuel) e v ne) [
          | inr (e', p) ↦
              let run : drain float ops (suc fuel) clock region e ≡ some (crashed e') =
                unfold drain in ground (arith, p) in
              inr (e', run)
          | inl (region₁, e₁, req, result, p, n) ↦
              let step : suc (pending k region₁) ≡ pending k region =
                pending_step k region req result region₁ v ne n in
              let run : drain float ops (suc fuel) clock region e
                  ≡ drain float ops fuel clock region₁ e₁ =
                unfold drain in ground (arith, p) in
              let moved : region.comp_write + 1 + pending k region₁
                  ≡ region.comp_write + pending k region =
                omega (arith, step) in
              elim (drain-Drains fuel clock region₁ e₁ n.valid (omega (arith, step, enough))) [
                | inl (region', e', q, a) ↦ inl (
                  region',
                  e',
                  run ∙ q,
                  record {
                    valid = a.valid;
                    nothing_pending = a.nothing_pending ∙ n.write;
                    completed =
                        a.completed
                        ∙ ap (λ c. (c + pending k region₁) % 2 ^ k) n.completed
                        ∙ mod-add-mod (region.comp_write + 1) (2 ^ k) (pending k region₁)
                        ∙ ap (λ c. c % 2 ^ k) moved;
                    in_order =
                        next-IsInOrder k region req result region₁ region' v n step a.in_order;
                  },
                )
                | inr (e', q) ↦ inr (e', run ∙ q)
              ]
        ]
      ]
