-- ===== src/Backends/Tcp.antt =====
-- crates/duvm-backend-tcp/src/lib.rs: pages on a memory server behind a TCP connection, which is
-- cleared after a failure and dialled again under a circuit breaker. The stream, the answer of a
-- `connect_timeout` and the clock (in nanoseconds) are parameters.
pub mod Breaker
pub mod Remote
use distributed_uvm.Prelude.{
  ℕ, ◌+◌, ◌-◌, ◌/◌, ◌%◌, ◌^◌, Bool, true, false, ◌&&◌, Option, none, some, List, [], ◌∷◌, ◌++◌, leb,
  ltb, ◌==◌, if◌then◌else◌, take, drop, get_or, ◌*◌,
}
use distributed_uvm.Prelude.Bytes.{le_bytes, from_le_bytes}
use distributed_uvm.Prelude.Outcome.{
  Outcome, Error, ok, err, panic, full, circuit_open, io_failed, refused, not_connected,
  bad_address,
}
use distributed_uvm.Common.Page.{PageHandle, PageBuffer, page_size, new_handle, offset, Tier, rdma}
use distributed_uvm.Backends.Trait.{DuvmBackend, BackendConfig}

abbrev op_store : ℕ
op_store = 1

abbrev op_load : ℕ
op_load = 2

abbrev op_free : ℕ
op_free = 3

abbrev op_alloc : ℕ
op_alloc = 4

abbrev resp_ok : ℕ
resp_ok = 0

abbrev pub max_consecutive_failures : ℕ
max_consecutive_failures = 5

-- `BACKOFF_SECS`, in nanoseconds.
abbrev pub backoff_ns : ℕ
backoff_ns = 5 * 1000000000

-- What the code uses of a `TcpStream`. A failed call may leave any stream behind.
pub record Stream (S : Type 0) : Type 0 where
  pub write_all : List ℕ → S → S × Outcome (Unit {0})
  pub flush : S → S × Outcome (Unit {0})
  pub read_exact : ℕ → S → S × Outcome (List ℕ)

-- How `connect_timeout` and `set_nodelay` end.
pub data Dial (S : Type 0) : Type 0 where
  no_address : Dial S
  unreachable : Dial S
  no_nodelay : Dial S
  connected : S → Dial S

pub record ConnState (S : Type 0) : Type 0 where
  pub stream : Option S
  pub consecutive_failures : ℕ
  pub last_attempt : Option ℕ

pub record TcpBackend (S : Type 0) : Type 0 where
  pub conn : ConnState S
  pub backend_id : ℕ
  pub max_pages : ℕ
  pub pages_used : ℕ
  pub total_store_ns : ℕ
  pub total_load_ns : ℕ
  pub store_count : ℕ
  pub load_count : ℕ

unfoldable pub new_tcp : {S : Type 0} → ℕ → TcpBackend S
new_tcp backend_id = record {
  conn = record { stream = none; consecutive_failures = 0; last_attempt = none };
  backend_id = backend_id;
  max_pages = 1024 * 1024;
  pages_used = 0;
  total_store_ns = 0;
  total_load_ns = 0;
  store_count = 0;
  load_count = 0;
}

-- The world at one call: the time, how a dial ends, and how long the transfer takes.
pub record Env (S : Type 0) : Type 0 where
  pub now : ℕ
  pub dial : Dial S
  pub elapsed : ℕ

-- Arithmetic on a `u32` and on an `AtomicU64`.
abbrev pub incr32 : ℕ → ℕ
incr32 n = (n + 1) % 2 ^ 32

abbrev pub fetch_add : ℕ → ℕ → ℕ
fetch_add n k = (n + k) % 2 ^ 64

abbrev pub fetch_decr : ℕ → ℕ
fetch_decr n = (n + (2 ^ 64 - 1)) % 2 ^ 64

-- `is_some_and(|last| last.elapsed() < backoff)`
abbrev pub attempted_lately : ℕ → Option ℕ → Bool
attempted_lately now none = false
attempted_lately now (some last) = ltb (now - last) backoff_ns

module _ {S : Type 0} where
  abbrev pub failed : ConnState S → ConnState S
  failed state = record state { consecutive_failures = incr32 state.consecutive_failures }

  unfoldable pub try_reconnect : Env S → ConnState S → ConnState S × Outcome (Unit {0})
  try_reconnect env state =
      if leb max_consecutive_failures state.consecutive_failures
        && attempted_lately env.now state.last_attempt
      then (state, err circuit_open)
      else (let state' : ConnState S = record state { last_attempt = some env.now } in
          elim env.dial [
            | no_address ↦ (state', err bad_address)
            | unreachable ↦ (failed state', err io_failed)
            | no_nodelay ↦ (state', err io_failed)
            | connected stream ↦
                (record state' { stream = some stream; consecutive_failures = 0 }, ok tt)
          ])

  -- The second half of `with_stream`, on a stream that is there.
  unfoldable pub run_op :
      {T : Type 0} → ConnState S → S → (S → S × Outcome T) → ConnState S × Outcome T
  run_op state stream op =
      let (stream', r) = op stream in
      elim r [
        | ok val ↦ (record state { stream = some stream'; consecutive_failures = 0 }, ok val)
        | err e ↦ (
          record state { stream = none; consecutive_failures = incr32 state.consecutive_failures },
          err e,
        )
        | panic ↦ (record state { stream = some stream' }, panic)
      ]

  unfoldable pub with_stream :
      {T : Type 0} → Env S → (S → S × Outcome T) → ConnState S → ConnState S × Outcome T
  with_stream env op state = elim state.stream [
    | some stream ↦ run_op state stream op
    | none ↦
        let (state', r) = try_reconnect env state in
        elim r [
          | err e ↦ (state', err e)
          | panic ↦ (state', panic)
          | ok _ ↦ elim state'.stream [
            | none ↦ (state', err not_connected)
            | some stream ↦ run_op state' stream op
          ]
        ]
  ]

  infixl 5 ◌>>=◌ ◌>>◌
  abbrev ◌>>=◌ : {T U : Type 0} → (S → S × Outcome T) → (T → S → S × Outcome U) → S → S × Outcome U
  ◌>>=◌ m f s =
      let (s', r) = m s in elim r [ ok a ↦ f a s' | err x ↦ (s', err x) | panic ↦ (s', panic) ]

  abbrev ◌>>◌ : {T U : Type 0} → (S → S × Outcome T) → (S → S × Outcome U) → S → S × Outcome U
  m >> k = m >>= λ _. k

  abbrev succeed : {T : Type 0} → T → S → S × Outcome T
  succeed a s = (s, ok a)

  -- `if resp[0] != RESP_OK { bail!(…) }`
  abbrev check : List ℕ → S → S × Outcome (Unit {0})
  check resp s = if get_or resp 0 1 == resp_ok then (s, ok tt) else (s, err refused)

  module _ (io : Stream S) where
    unfoldable pub alloc_op : ℕ → S → S × Outcome PageHandle
    alloc_op backend_id = do
      io.write_all (op_alloc ∷ [])
      io.flush
      resp ← io.read_exact 9
      check resp
      λ s. (s, new_handle backend_id (from_le_bytes (drop 1 resp)))

    unfoldable pub free_op : PageHandle → S → S × Outcome (Unit {0})
    free_op handle = do
      io.write_all (op_free ∷ le_bytes 8 (offset handle))
      io.flush
      resp ← io.read_exact 1
      check resp

    unfoldable pub store_op : PageHandle → PageBuffer → S → S × Outcome (Unit {0})
    store_op handle page = do
      io.write_all (op_store ∷ le_bytes 8 (offset handle))
      io.write_all page
      io.flush
      resp ← io.read_exact 1
      check resp

    unfoldable pub load_op : PageHandle → S → S × Outcome PageBuffer
    load_op handle = do
      io.write_all (op_load ∷ le_bytes 8 (offset handle))
      io.flush
      status ← io.read_exact 1
      check status
      io.read_exact page_size

    module _ (env : Env S) where
      unfoldable pub init : TcpBackend S → BackendConfig → TcpBackend S × Outcome (Unit {0})
      init b config =
          let b' : TcpBackend S = record b { max_pages = config.max_pages } in
          elim env.dial [
            | no_address ↦ (b', err bad_address)
            | unreachable ↦ (b', err io_failed)
            | no_nodelay ↦ (b', err io_failed)
            | connected stream ↦ (
              record b' {
                conn = record (b.conn) { stream = some stream; consecutive_failures = 0 };
              },
              ok tt,
            )
          ]

      -- The slot is reserved first, and given back on an error.
      unfoldable pub alloc_page : TcpBackend S → TcpBackend S × Outcome PageHandle
      alloc_page b =
          if leb b.max_pages b.pages_used
          then (b, err full)
          else (let (conn, result) = with_stream env (alloc_op b.backend_id) b.conn in
              elim result [
                | ok handle ↦ (record b { conn = conn; pages_used = b.pages_used + 1 }, ok handle)
                | err e ↦
                    (record b { conn = conn; pages_used = fetch_decr (b.pages_used + 1) }, err e)
                | panic ↦ (record b { conn = conn; pages_used = b.pages_used + 1 }, panic)
              ])

      unfoldable pub free_page : TcpBackend S → PageHandle → TcpBackend S × Outcome (Unit {0})
      free_page b handle =
          let (conn, result) = with_stream env (free_op handle) b.conn in
          elim result [
            | ok _ ↦ (record b { conn = conn; pages_used = fetch_decr b.pages_used }, ok tt)
            | err e ↦ (record b { conn = conn }, err e)
            | panic ↦ (record b { conn = conn }, panic)
          ]

      unfoldable pub store_page :
          TcpBackend S → PageHandle → PageBuffer → TcpBackend S × Outcome (Unit {0})
      store_page b handle page =
          let (conn, result) = with_stream env (store_op handle page) b.conn in
          elim result [
            | ok _ ↦ (
              record b {
                conn = conn;
                total_store_ns = fetch_add b.total_store_ns env.elapsed;
                store_count = fetch_add b.store_count 1;
              },
              ok tt,
            )
            | err e ↦ (record b { conn = conn }, err e)
            | panic ↦ (record b { conn = conn }, panic)
          ]

      unfoldable pub load_page : TcpBackend S → PageHandle → TcpBackend S × Outcome PageBuffer
      load_page b handle =
          let (conn, result) = with_stream env (load_op handle) b.conn in
          elim result [
            | ok page ↦ (
              record b {
                conn = conn;
                total_load_ns = fetch_add b.total_load_ns env.elapsed;
                load_count = fetch_add b.load_count 1;
              },
              ok page,
            )
            | err e ↦ (record b { conn = conn }, err e)
            | panic ↦ (record b { conn = conn }, panic)
          ]

  unfoldable pub avg_store_ns : TcpBackend S → ℕ
  avg_store_ns b = if b.store_count == 0 then 0 else b.total_store_ns / b.store_count

  unfoldable pub avg_load_ns : TcpBackend S → ℕ
  avg_load_ns b = if b.load_count == 0 then 0 else b.total_load_ns / b.load_count

  unfoldable pub latency_ns : TcpBackend S → ℕ
  latency_ns b = if ltb 0 (avg_load_ns b) then avg_load_ns b else 250000

  unfoldable pub is_healthy : TcpBackend S → Bool
  is_healthy b = elim b.conn.stream [ none ↦ false | some stream ↦ true ]

  unfoldable pub shutdown : TcpBackend S → TcpBackend S × Outcome (Unit {0})
  shutdown b = (record b { conn = record (b.conn) { stream = none } }, ok tt)

  -- `impl DuvmBackend for TcpBackend`
  unfoldable pub tcp_ops : Stream S → Env S → DuvmBackend (TcpBackend S)
  tcp_ops io env = record {
    tier = λ b. rdma;
    init = init io env;
    alloc_page = alloc_page io env;
    free_page = free_page io env;
    store_page = store_page io env;
    load_page = load_page io env;
    capacity = λ b. (b.max_pages, b.pages_used);
    latency_ns = latency_ns;
    is_healthy = is_healthy;
    shutdown = shutdown;
  }
