-- ===== src/Backends/Rdma/Transfer.antt =====
-- A transfer ends: the poll loop stops at the timeout at the latest.
use distributed_uvm.Prelude.{
  ℕ, zero, suc, ◌+◌, ◌-◌, ◌≡◌, refl, ◌∙◌, ◌<◌, ◌≤◌, Bool, false, some, arith, ltb, if◌then◌else◌,
  Bool-cases, inl, inr, ◌⊎◌,
}
use distributed_uvm.Prelude.Outcome.{Outcome, ok, err, io_failed}
use distributed_uvm.Backends.Rdma.{
  Poll, completed, nothing, poll_failed, Verbs, RdmaState, await_completion, rdma_transfer,
  timeout_ns, transfer_wr,
}

Poll-cases :
    (p : Poll) → ((success : Bool) × (p ≡ completed success)) ⊎ (p ≡ nothing) ⊎ (p ≡ poll_failed)
Poll-cases (completed success) = inl (success, refl)
Poll-cases nothing = inr (inl refl)
Poll-cases poll_failed = inr (inr refl)

module _ {V : Type 0} (verbs : Verbs V)
    (ticks : (v : V) → verbs.clock v < verbs.clock (verbs.poll_cq v).0) where
  waits :
      (fuel start : ℕ) (v : V)
      → (verbs.poll_cq v).1 ≡ nothing
      → ltb timeout_ns (verbs.clock (verbs.poll_cq v).0 - start) ≡ false
      → await_completion verbs (suc fuel) start v
        ≡ await_completion verbs fuel start (verbs.poll_cq v).0
  waits fuel start v t soon = unfold await_completion in ground (arith, t, soon)

  await_completion-ends :
      (fuel start : ℕ) (v : V)
      → start ≤ verbs.clock v
      → start + timeout_ns < verbs.clock v + fuel
      → 0 < fuel
      → (out : V × Outcome (Unit {0})) × (await_completion verbs fuel start v ≡ some out)
  await_completion-ends zero start v early enough pos = absurd (ground (arith, pos))
  await_completion-ends (suc fuel) start v early enough pos =
      elim (Poll-cases (verbs.poll_cq v).1) [
        | inl (success, t) ↦ (
          ((verbs.poll_cq v).0, if success then ok tt else err io_failed),
          unfold await_completion in ground (arith, t),
        )
        | inr (inr t) ↦
            (((verbs.poll_cq v).0, err io_failed), unfold await_completion in ground (arith, t))
        | inr (inl t) ↦
            elim (Bool-cases (ltb timeout_ns (verbs.clock (verbs.poll_cq v).0 - start))) [
              | inl late ↦ (
                ((verbs.poll_cq v).0, err io_failed),
                unfold await_completion in ground (arith, t, late),
              )
              | inr soon ↦
                  let tick = ticks v in
                  let near : verbs.clock (verbs.poll_cq v).0 - start ≤ timeout_ns =
                    ground (arith, soon) in
                  let (out, ends) =
                    await_completion-ends fuel start (verbs.poll_cq v).0
                      (omega (arith, early, tick)) (omega (arith, enough, tick))
                      (omega (arith, enough, tick, near, early)) in
                  (out, waits fuel start v t soon ∙ ends)
            ]
      ]

  -- Where every poll of the completion queue takes time, an RDMA transfer returns with fuel of
  -- more polls than the timeout has nanoseconds.
  pub rdma_transfer-ends :
      (fuel : ℕ) (state : RdmaState) (local_offset remote_offset length : ℕ) (is_write : Bool)
      (v : V)
      → timeout_ns < fuel
      → (out : V × Outcome (Unit {0})) × (rdma_transfer verbs fuel state local_offset remote_offset
            length is_write v
          ≡ some out)
  rdma_transfer-ends fuel state local_offset remote_offset length is_write v enough =
      let wr = transfer_wr state local_offset remote_offset length is_write in
      let v' = (verbs.post_send wr v).0 in
      elim (Bool-cases (verbs.post_send wr v).1) [
        | inr t ↦ ((v', err io_failed), unfold rdma_transfer in ground (arith, t))
        | inl t ↦
            let (out, ends) =
              await_completion-ends fuel (verbs.clock v') v' (omega arith) (omega (arith, enough))
                (omega (arith, enough)) in
            (out, unfold rdma_transfer in ground (arith, t, ends))
      ]
