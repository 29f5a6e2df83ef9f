-- ===== src/Backends/Tcp/Breaker.antt =====
-- The connection of the TCP backend: when it is kept, cleared and dialled, and the slots that stay
-- reserved when it fails.
use distributed_uvm.Prelude.{
  ℕ, ◌+◌, ◌-◌, ◌^◌, ◌≡◌, refl, ◌<◌, ◌≤◌, Bool, ◌&&◌, none, some, leb, arith, Bool-cases,
  Option-cases, inl, inr, subst, Empty, ◌⊎◌,
}
use distributed_uvm.Prelude.Outcome.{Outcome, ok, err, panic, Outcome-cases, circuit_open, full}
use distributed_uvm.Common.Page.{PageHandle}
use distributed_uvm.Backends.Tcp.{
  Stream, Dial, no_address, unreachable, no_nodelay, connected, ConnState, TcpBackend, Env,
  try_reconnect, run_op, with_stream, max_consecutive_failures, attempted_lately, backoff_ns,
  alloc_page, alloc_op, fetch_decr, incr32,
}

module _ {S : Type 0} where
  -- A stream that is kept has not failed.
  abbrev pub IsClean : ConnState S → Type 0
  IsClean state = elim state.stream [
    | none ↦ Unit {0}
    | some stream ↦ state.consecutive_failures ≡ 0
  ]

  -- The connection after a call: kept after a success, cleared after an error.
  abbrev pub Settled : {T : Type 0} → ConnState S × Outcome T → Type 0
  Settled (state, ok val) =
      (stream : S) × (state.stream ≡ some stream) × (state.consecutive_failures ≡ 0)
  Settled (state, err e) = state.stream ≡ none
  Settled (state, panic) = IsClean state

  run_op-Settled :
      {T : Type 0} (state : ConnState S) (stream : S) (op : S → S × Outcome T)
      → state.consecutive_failures ≡ 0
      → Settled (run_op state stream op)
  run_op-Settled state stream op clean = elim (Outcome-cases (op stream).1) [
    | inl (val, t) ↦
        let run : run_op state stream op
            ≡ (record state { stream = some (op stream).0; consecutive_failures = 0 }, ok val) =
          unfold run_op in ground (arith, t) in
        rw run ((op stream).0, refl, refl)
    | inr (inl (e, t)) ↦
        let run : run_op state stream op ≡ (
          record state { stream = none; consecutive_failures = incr32 state.consecutive_failures },
          err e,
        ) =
          unfold run_op in ground (arith, t) in
        rw run refl
    | inr (inr t) ↦
        let run : run_op state stream op ≡ (record state { stream = some (op stream).0 }, panic) =
          unfold run_op in ground (arith, t) in
        rw run clean
  ]

  -- A new stream comes with a cleared count, an error without a stream.
  abbrev Dialled : ConnState S × Outcome (Unit {0}) → Type 0
  Dialled (state, ok val) =
      (stream : S) × (state.stream ≡ some stream) × (state.consecutive_failures ≡ 0)
  Dialled (state, err e) = state.stream ≡ none
  Dialled (state, panic) = Empty {0}

  Dial-cases :
      (d : Dial S)
      → (d ≡ no_address)
        ⊎ (d ≡ unreachable)
        ⊎ (d ≡ no_nodelay)
        ⊎ ((stream : S) × (d ≡ connected stream))
  Dial-cases no_address = inl refl
  Dial-cases unreachable = inr (inl refl)
  Dial-cases no_nodelay = inr (inr (inl refl))
  Dial-cases (connected stream) = inr (inr (inr (stream, refl)))

  abbrev is_open : Env S → ConnState S → Bool
  is_open env state =
      leb max_consecutive_failures state.consecutive_failures
      && attempted_lately env.now state.last_attempt

  try_reconnect-Dialled :
      (env : Env S) (state : ConnState S) → state.stream ≡ none → Dialled (try_reconnect env state)
  unfolding try_reconnect
  try_reconnect-Dialled env state gone = elim (Bool-cases (is_open env state)) [
    | inl t ↦ rw t gone
    | inr t ↦ elim (Dial-cases env.dial) [
      | inl d ↦ rw (t, d) gone
      | inr (inl d) ↦ rw (t, d) gone
      | inr (inr (inl d)) ↦ rw (t, d) gone
      | inr (inr (inr (stream, d))) ↦ rw (t, d) (stream, refl, refl)
    ]
  ]

  after_dial :
      {T : Type 0} (env : Env S) (op : S → S × Outcome T) (state : ConnState S)
      → state.stream ≡ none
      → Settled (with_stream env op state)
  after_dial env op state gone = elim (Outcome-cases (try_reconnect env state).1) [
    | inl (val, r) ↦
        let (stream, here, zero_failures) =
          subst (λ out. Dialled ((try_reconnect env state).0, out)) r
            (try_reconnect-Dialled env state gone) in
        let run : with_stream env op state ≡ run_op (try_reconnect env state).0 stream op =
          unfold with_stream in ground (arith, gone, r, here) in
        rw run (run_op-Settled (try_reconnect env state).0 stream op zero_failures)
    | inr (inl (e, r)) ↦
        let still_gone =
          subst (λ out. Dialled ((try_reconnect env state).0, out)) r
            (try_reconnect-Dialled env state gone) in
        let run : with_stream env op state ≡ ((try_reconnect env state).0, err e) =
          unfold with_stream in ground (arith, gone, r) in
        rw run still_gone
    | inr (inr r) ↦
        let never =
          subst (λ out. Dialled ((try_reconnect env state).0, out)) r
            (try_reconnect-Dialled env state gone) in
        elim never [ ]
  ]

  -- From a connection that is either absent or has no failure counted, whatever the stream, the
  -- dial and the operation do, with_stream leaves one as follows: after a success the stream is
  -- kept and the count is 0, after an error the stream is gone, and after a panic a stream that is
  -- kept has no failure counted.
  pub with_stream-Settled :
      {T : Type 0} (env : Env S) (op : S → S × Outcome T) (state : ConnState S)
      → IsClean state
      → Settled (with_stream env op state)
  with_stream-Settled env op state clean = elim (Option-cases state.stream) [
    | inr (stream, t) ↦
        let run : with_stream env op state ≡ run_op state stream op =
          unfold with_stream in ground (arith, t) in
        let zero_failures : state.consecutive_failures ≡ 0 = ground (arith, t, clean) in
        rw run (run_op-Settled state stream op zero_failures)
    | inl t ↦ after_dial env op state t
  ]

  -- Without a stream, with at least the maximum of consecutive failures and a dial attempted
  -- within the backoff time, with_stream changes nothing and reports an open circuit, whatever the
  -- operation and the dial would do.
  pub with_stream_open :
      {T : Type 0} (env : Env S) (op : S → S × Outcome T) (state : ConnState S) (last : ℕ)
      → state.stream ≡ none
      → max_consecutive_failures ≤ state.consecutive_failures
      → state.last_attempt ≡ some last
      → env.now - last < backoff_ns
      → with_stream env op state ≡ (state, err circuit_open)
  unfolding with_stream try_reconnect
  with_stream_open env op state last gone many tried soon = ground (arith, gone, many, tried, soon)

  module _ (io : Stream S) where
    -- The slots in use: one more after a page was allocated, and as before after an error.
    abbrev pub Counted : TcpBackend S → TcpBackend S × Outcome PageHandle → Type 0
    Counted b (b', ok handle) = (b'.pages_used ≡ b.pages_used + 1) × (b'.pages_used ≤ b'.max_pages)
    Counted b (b', err e) = b'.pages_used ≡ b.pages_used
    Counted b (b', panic) = b'.pages_used ≡ b.pages_used + 1

    -- Whatever the stream does, with a count of used pages below 2^64, alloc_page of the TCP
    -- backend counts one more used page on success, within the limit, the same number after an
    -- error, and one more after a panic.
    pub alloc_page-Counted :
        (env : Env S) (b : TcpBackend S) → b.pages_used < 2 ^ 64 → Counted b (alloc_page io env b)
    alloc_page-Counted env b small = elim (Bool-cases (leb b.max_pages b.pages_used)) [
      | inl t ↦
          let run : alloc_page io env b ≡ (b, err full) = unfold alloc_page in ground (arith, t) in
          rw run refl
      | inr t ↦ elim (Outcome-cases (with_stream env (alloc_op io b.backend_id) b.conn).1) [
        | inl (handle, r) ↦
            let used : b.pages_used < b.max_pages = ground (arith, t) in
            let run : alloc_page io env b ≡ (
              record b {
                conn = (with_stream env (alloc_op io b.backend_id) b.conn).0;
                pages_used = b.pages_used + 1;
              },
              ok handle,
            ) =
              unfold alloc_page in ground (arith, t, r) in
            rw run (refl, omega (arith, used))
        | inr (inl (e, r)) ↦
            let run : alloc_page io env b ≡ (
              record b {
                conn = (with_stream env (alloc_op io b.backend_id) b.conn).0;
                pages_used = fetch_decr (b.pages_used + 1);
              },
              err e,
            ) =
              unfold alloc_page in ground (arith, t, r) in
            rw run (omega (arith, small))
        | inr (inr r) ↦
            let run : alloc_page io env b ≡ (
              record b {
                conn = (with_stream env (alloc_op io b.backend_id) b.conn).0;
                pages_used = b.pages_used + 1;
              },
              panic,
            ) =
              unfold alloc_page in ground (arith, t, r) in
            rw run refl
      ]
    ]
