-- ===== src/Daemon/KmodRing/Loop.antt =====
-- `run_loop` of crates/duvm-daemon/src/kmod_ring.rs ends once the flag is set and the kernel adds no more.
use distributed_uvm.Prelude.{
  ℕ, zero, suc, ◌+◌, ◌^◌, ◌≡◌, ◌<◌, ◌≤◌, Bool, true, false, Option, some, arith, inl, inr, ◌⊎◌,
  Bool-cases,
}
use native.Mathlib.Decide.{ℕ_discrete}
use distributed_uvm.Backends.Trait.{DuvmBackend}
use distributed_uvm.Daemon.Engine.{Engine, Float}
use distributed_uvm.Daemon.KmodRing.{Region, Drained, drained, crashed, idle, poll_once, run_loop}
use distributed_uvm.Daemon.KmodRing.Shared.{IsRegion, pending}
use distributed_uvm.Daemon.KmodRing.Step.{poll-Goes}
use distributed_uvm.Daemon.KmodRing.Drain.{pending_step}

-- The loop ends with a region in order, or the engine panics.
abbrev pub Stops : {B : Type 0} → ℕ → Option (Drained B) → Type 0
Stops {B = B} k d =
    ((region : Region) × (e : Engine B) × (d ≡ some (drained region e)) × IsRegion k region)
    ⊎ ((e : Engine B) × (d ≡ some (crashed e)))

module _ {B : Type 0} (k : ℕ) {F : Type 0} (float : Float F) (ops : DuvmBackend B) where
  pending_below : (region : Region) → IsRegion k region → pending k region < 2 ^ k
  pending_below region v = ground (arith, v.reads, v.writes)

  module _ (quiet : ℕ) (stop : ℕ → Bool) (kernel : ℕ → Region → Region) (clock : ℕ → ℕ)
      (keeps : (s : ℕ) (r : Region) → IsRegion k r → IsRegion k (kernel s r))
      (set : (s : ℕ) → quiet ≤ s → stop s ≡ true)
      (adds_none : (s : ℕ) (r : Region)
        → quiet ≤ s
        → IsRegion k r
        → pending k (kernel s r) ≡ pending k r) where
    -- The tests that are left once the kernel is quiet.
    abbrev cost : Bool → Region → ℕ
    cost false region = 1
    cost true region = pending k region + 2

    -- The fuel covers them, and the tests until then.
    abbrev Enough : ℕ → ℕ → Bool → Region → Type 0
    Enough fuel t inside region =
        ((t < quiet) × (quiet + 2 ^ k + 2 ≤ fuel + t)) ⊎ ((quiet ≤ t) × (cost inside region ≤ fuel))

    cost_below :
        (inside : Bool) (region : Region) → IsRegion k region → cost inside region < 2 ^ k + 2
    cost_below false region v = omega (arith, pending_below region v)
    cost_below true region v = omega (arith, pending_below region v)

    -- A test before the kernel is quiet.
    early :
        (fuel t : ℕ) (inside : Bool) (region : Region)
        → t < quiet
        → quiet + 2 ^ k + 2 ≤ suc fuel + t
        → IsRegion k region
        → Enough fuel (suc t) inside region
    early fuel t inside region before more v = elim (ℕ_discrete (suc t) quiet) [
      | yes now ↦
          let little = cost_below inside region v in
          inr (omega (arith, now), omega (arith, now, more, little))
      | no later ↦ inl (omega (arith, before, later), omega (arith, more))
    ]

    -- A test of either loop, where those left cost less once the kernel is quiet.
    tested :
        (fuel t : ℕ) (inside next : Bool) (region region' : Region)
        → Enough (suc fuel) t inside region
        → (quiet ≤ t → cost next region' < cost inside region)
        → IsRegion k region'
        → Enough fuel (suc t) next region'
    tested fuel t inside next region region' (inl (before, more)) less v =
        early fuel t next region' before more v
    tested fuel t inside next region region' (inr (after, more)) less v =
        let fewer = less after in inr (omega (arith, after), omega (arith, fewer, more))

    not_set : (t : ℕ) → stop t ≡ false → ¬ (quiet ≤ t)
    not_set t later after = absurd (ground (arith, later, set t after))

    loop-Stops :
        (fuel t : ℕ) (inside : Bool) (region : Region) (e : Engine B)
        → Enough fuel t inside region
        → IsRegion k region
        → Stops k (run_loop float ops fuel inside stop kernel clock t region e)
    loop-Stops zero t inside region e (inl (before, more)) v = absurd (omega (arith, before, more))
    loop-Stops zero t false region e (inr (after, more)) v = absurd (omega (arith, more))
    loop-Stops zero t true region e (inr (after, more)) v = absurd (omega (arith, more))
    loop-Stops (suc fuel) t false region e more v =
        let region₁ = kernel t region in
        let w = keeps t region v in
        elim (Bool-cases (stop t)) [
          | inl now ↦ inl (region₁, e, unfold run_loop in ground (arith, now), w)
          | inr later ↦
              let run : run_loop float ops (suc fuel) false stop kernel clock t region e
                  ≡ run_loop float ops fuel true stop kernel clock (suc t) region₁ e =
                unfold run_loop in ground (arith, later) in
              rw run (
                loop-Stops fuel (suc t) true region₁ e
                  (tested fuel t false true region region₁ more
                    (λ after. absurd (not_set t later after)) w)
                  w)
        ]
    loop-Stops (suc fuel) t true region e more v =
        let region₁ = kernel t region in
        let w = keeps t region v in
        elim (ℕ_discrete region₁.req_read region₁.req_write) [
          | yes same ↦
              let none_pending : poll_once float ops region₁ (clock t) e ≡ idle =
                unfold poll_once in ground (arith, same) in
              let run : run_loop float ops (suc fuel) true stop kernel clock t region e
                  ≡ run_loop float ops fuel false stop kernel clock (suc t) region₁ e =
                unfold run_loop in ground (arith, none_pending) in
              rw run (
                loop-Stops fuel (suc t) false region₁ e
                  (tested fuel t true false region region₁ more (λ after. omega arith) w) w)
          | no ne ↦ elim (poll-Goes float ops k region₁ (clock t) e w ne) [
            | inr (e', p) ↦ inr (e', unfold run_loop in ground (arith, p))
            | inl (region₂, e₂, req, result, p, n) ↦
                let step = pending_step k region₁ req result region₂ w ne n in
                let run : run_loop float ops (suc fuel) true stop kernel clock t region e
                    ≡ run_loop float ops fuel true stop kernel clock (suc t) region₂ e₂ =
                  unfold run_loop in ground (arith, p) in
                rw run (
                  loop-Stops fuel (suc t) true region₂ e₂
                    (tested fuel t true true region region₂ more
                      (λ after. omega (arith, step, adds_none t region after v)) n.valid)
                    n.valid)
          ]
        ]

  -- In a region with rings of 2^k entries that is in order, and that the kernel, which may write
  -- before every test of either loop, keeps so: where from test `quiet` on the flag is set and the
  -- kernel adds no request, run_loop ends within quiet + 2^k + 2 tests, unless the engine panics,
  -- with the region in order.
  pub run_loop-Stops :
      (fuel quiet : ℕ) (stop : ℕ → Bool) (kernel : ℕ → Region → Region) (clock : ℕ → ℕ)
      (region : Region) (e : Engine B)
      → ((s : ℕ) (r : Region) → IsRegion k r → IsRegion k (kernel s r))
      → ((s : ℕ) → quiet ≤ s → stop s ≡ true)
      → ((s : ℕ) (r : Region) → quiet ≤ s → IsRegion k r → pending k (kernel s r) ≡ pending k r)
      → quiet + 2 ^ k + 2 ≤ fuel
      → IsRegion k region
      → Stops k (run_loop float ops fuel false stop kernel clock 0 region e)
  run_loop-Stops fuel quiet stop kernel clock region e keeps set adds_none enough v =
      loop-Stops quiet stop kernel clock keeps set adds_none fuel 0 false region e
        (begun (ℕ_discrete quiet 0)) v
    where
      begun :
          Dec (quiet ≡ 0) → Enough quiet stop kernel clock keeps set adds_none fuel 0 false region
      begun (yes now) = inr (omega (arith, now), omega (arith, enough))
      begun (no later) = inl (omega (arith, later), omega (arith, enough))
