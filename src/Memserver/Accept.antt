-- ===== src/Memserver/Accept.antt =====
-- `main` of crates/duvm-memserver/src/main.rs: the connections that are taken, one thread for each. A
-- thread ends between any two steps of the loop, and between its test and its count.
use distributed_uvm.Prelude.{
  ℕ, zero, suc, ◌+◌, ◌-◌, ◌^◌, ◌%◌, ◌≤◌, ◌<◌, ◌≡◌, refl, Bool, false, ◌&&◌, arith, ltb, leb,
}

-- `active_conns`, and the threads that run.
pub record Connections : Type 0 where
  pub active_conns : ℕ
  pub threads : ℕ

-- The test of the limit, where 0 is none.
unfoldable pub is_rejected : ℕ → Connections → Bool
is_rejected max_conns c = ltb 0 max_conns && leb max_conns c.active_conns

-- `fetch_add` and the new thread.
unfoldable pub take : Connections → Connections
take c = record { active_conns = (c.active_conns + 1) % 2 ^ 64; threads = c.threads + 1 }

-- The end of a thread: `fetch_sub`, which wraps.
unfoldable pub finish : Connections → Connections
finish c = record { active_conns = (c.active_conns + 2 ^ 64 - 1) % 2 ^ 64; threads = c.threads - 1 }

-- A connection that passed the test, and is counted after `n` threads have ended meanwhile.
unfoldable pub finish_all : ℕ → Connections → Connections
finish_all zero c = c
finish_all (suc n) c = finish (finish_all n c)

pub data Reach (max_conns : ℕ) : Connections → Type 0 where
  none_yet : Reach max_conns (record { active_conns = 0; threads = 0 })
  taken :
      {c : Connections} (n : ℕ)
      → n ≤ c.threads
      → Reach max_conns c
      → is_rejected max_conns c ≡ false
      → Reach max_conns (take (finish_all n c))
  finished : {c : Connections} → 0 < c.threads → Reach max_conns c → Reach max_conns (finish c)

pub record IsCounted (max_conns : ℕ) (c : Connections) : Type 0 where
  pub counted : c.active_conns ≡ c.threads
  pub limited : c.active_conns ≤ max_conns

module _ (max_conns : ℕ) (some_limit : 0 < max_conns) (u64 : max_conns < 2 ^ 64) where
  finish-IsCounted :
      (c : Connections) → 0 < c.threads → IsCounted max_conns c → IsCounted max_conns (finish c)
  unfolding finish
  finish-IsCounted c runs i =
      let (a, b) : (c.active_conns ≡ c.threads) × (c.active_conns ≤ max_conns) =
        (i.counted, i.limited) in
      record { counted = omega (arith, a, b, runs, u64); limited = omega (arith, a, b, runs, u64) }

  finish_threads : (c : Connections) → 0 < c.threads → suc (finish c).threads ≡ c.threads
  unfolding finish
  finish_threads c runs = omega (arith, runs)

  finish_all-IsCounted :
      (n : ℕ) (c : Connections)
      → n ≤ c.threads
      → IsCounted max_conns c
      → IsCounted max_conns (finish_all n c) × (n + (finish_all n c).threads ≡ c.threads)
  unfolding finish_all
  finish_all-IsCounted zero c le i = (i, omega arith)
  finish_all-IsCounted (suc n) c le i =
      let (j, left) = finish_all-IsCounted n c (omega (arith, le)) i in
      let runs : 0 < (finish_all n c).threads = omega (arith, left, le) in
      (
        finish-IsCounted (finish_all n c) runs j,
        omega (arith, left, finish_threads (finish_all n c) runs),
      )

  take-IsCounted :
      (c : Connections)
      → c.active_conns < max_conns
      → IsCounted max_conns c
      → IsCounted max_conns (take c)
  unfolding take
  take-IsCounted c room i =
      let a = i.counted in
      record { counted = omega (arith, a, room, u64); limited = omega (arith, a, room, u64) }

  -- With a limit of connections above 0 and below 2^64, in any interleaving of connections that
  -- are taken and threads that end, also between the test of the limit and the count, the count is
  -- the number of threads that run and at most the limit.
  pub connections-IsCounted : (c : Connections) → Reach max_conns c → IsCounted max_conns c
  connections-IsCounted c none_yet = record { counted = refl; limited = omega arith }
  connections-IsCounted c' (taken {c} n le reach passed) =
      let before = connections-IsCounted c reach in
      let (j, left) = finish_all-IsCounted n c le before in
      let room : c.active_conns < max_conns =
        unfold is_rejected in ground (arith, passed, some_limit) in
      let (a, b) : ((finish_all n c).active_conns ≡ (finish_all n c).threads)
          × (c.active_conns ≡ c.threads) =
        (j.counted, before.counted) in
      take-IsCounted (finish_all n c) (omega (arith, a, b, left, room)) j
  connections-IsCounted c' (finished {c} runs reach) =
      finish-IsCounted c runs (connections-IsCounted c reach)
