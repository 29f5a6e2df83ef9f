-- ===== src/Backends/Rdma.antt =====
-- crates/duvm-backend-rdma/src/lib.rs: pages in a remote buffer that one-sided RDMA reads and writes
-- reach. The verbs library, the network card with the registered local buffer, and the clock are
-- parameters; the connection's state stands for a finished `init`.
pub mod Resources
pub mod Setup
pub mod Transfer
pub mod Slab
use distributed_uvm.Prelude.{
  ℕ, zero, suc, ◌+◌, ◌-◌, ◌*◌, ◌/◌, ◌%◌, ◌^◌, Bool, true, false, Option, none, some, List, [], ◌∷◌,
  leb, ltb, ◌==◌, if◌then◌else◌,
}
use distributed_uvm.Prelude.Outcome.{Outcome, Error, ok, err, panic, full, io_failed, not_connected}
use distributed_uvm.Common.Page.{PageHandle, PageBuffer, page_size, new_handle, offset}

-- What a poll of the completion queue finds: a completion and whether it is a success, nothing, or an
-- error.
pub data Poll : Type 0 where
  completed : Bool → Poll
  nothing : Poll
  poll_failed : Poll

-- The fields of an `ibv_send_wr` that differ between transfers.
pub record SendWr : Type 0 where
  pub is_write : Bool
  pub local_offset : ℕ
  pub length : ℕ
  pub remote_addr : ℕ
  pub rkey : ℕ

-- The card: `ibv_post_send` (true for 0), `ibv_poll_cq`, the local buffer, and the time in
-- nanoseconds.
pub record Verbs (V : Type 0) : Type 0 where
  pub post_send : SendWr → V → V × Bool
  pub poll_cq : V → V × Poll
  pub copy_in : PageBuffer → V → V
  pub copy_out : V → PageBuffer
  pub clock : V → ℕ

-- `RdmaState`, without the handles that only `shutdown` passes on.
pub record RdmaState : Type 0 where
  pub remote_addr : ℕ
  pub remote_rkey : ℕ
  pub remote_size : ℕ

pub record RdmaBackend : Type 0 where
  pub backend_id : ℕ
  pub max_pages : ℕ
  pub pages_used : ℕ
  pub state : Option RdmaState
  pub total_store_ns : ℕ
  pub total_load_ns : ℕ
  pub store_count : ℕ
  pub load_count : ℕ

unfoldable pub new_rdma : ℕ → RdmaBackend
new_rdma backend_id = record {
  backend_id = backend_id;
  max_pages = 1024 * 1024;
  pages_used = 0;
  state = none;
  total_store_ns = 0;
  total_load_ns = 0;
  store_count = 0;
  load_count = 0;
}

-- Five seconds.
abbrev pub timeout_ns : ℕ
timeout_ns = 5 * 1000000000

-- An `AtomicU64`.
abbrev fetch_add : ℕ → ℕ → ℕ
fetch_add n k = (n + k) % 2 ^ 64

abbrev fetch_decr : ℕ → ℕ
fetch_decr n = (n + (2 ^ 64 - 1)) % 2 ^ 64

-- The request of a transfer; the address wraps.
unfoldable pub transfer_wr : RdmaState → ℕ → ℕ → ℕ → Bool → SendWr
transfer_wr state local_offset remote_offset length is_write = record {
  is_write = is_write;
  local_offset = local_offset;
  length = length;
  remote_addr = (state.remote_addr + remote_offset) % 2 ^ 64;
  rkey = state.remote_rkey;
}

-- `handle.offset() * PAGE_SIZE as u64`, which wraps.
unfoldable pub remote_offset : PageHandle → ℕ
remote_offset handle = offset handle * page_size % 2 ^ 64

unfoldable pub alloc_page : RdmaBackend → RdmaBackend × Outcome PageHandle
alloc_page b =
    if leb b.max_pages b.pages_used
    then (b, err full)
    else (record b { pages_used = b.pages_used + 1 }, new_handle b.backend_id b.pages_used)

unfoldable pub free_page : RdmaBackend → PageHandle → RdmaBackend × Outcome (Unit {0})
free_page b handle = (record b { pages_used = fetch_decr b.pages_used }, ok tt)

module _ {V : Type 0} (verbs : Verbs V) where
  -- The loop of `rdma_transfer`, on fuel.
  unfoldable pub await_completion : ℕ → ℕ → V → Option (V × Outcome (Unit {0}))
  await_completion zero start v = none
  await_completion (suc fuel) start v =
      let (v', poll) = verbs.poll_cq v in
      elim poll [
        | completed success ↦ some (v', if success then ok tt else err io_failed)
        | poll_failed ↦ some (v', err io_failed)
        | nothing ↦
            let rest = await_completion fuel start v' in
            if ltb timeout_ns (verbs.clock v' - start) then some (v', err io_failed) else rest
      ]

  unfoldable pub rdma_transfer :
      ℕ → RdmaState → ℕ → ℕ → ℕ → Bool → V → Option (V × Outcome (Unit {0}))
  rdma_transfer fuel state local_offset remote_offset length is_write v =
      let (v', posted) =
        verbs.post_send (transfer_wr state local_offset remote_offset length is_write) v in
      if posted then await_completion fuel (verbs.clock v') v' else some (v', err io_failed)

  unfoldable pub store_page :
      ℕ → RdmaBackend → PageHandle → PageBuffer → V → Option (RdmaBackend × V × Outcome (Unit {0}))
  store_page fuel b handle page v = elim b.state [
    | none ↦ some (b, v, err not_connected)
    | some state ↦
        elim (rdma_transfer fuel state 0 (remote_offset handle) page_size true
          (verbs.copy_in page v)) [
            | none ↦ none
            | some (v', r) ↦ elim r [
              | err e ↦ some (b, v', err e)
              | panic ↦ some (b, v', panic)
              | ok _ ↦ some (
                record b {
                  total_store_ns = fetch_add b.total_store_ns (verbs.clock v' - verbs.clock v);
                  store_count = fetch_add b.store_count 1;
                },
                v',
                ok tt,
              )
            ]
          ]
  ]

  unfoldable pub load_page :
      ℕ → RdmaBackend → PageHandle → V → Option (RdmaBackend × V × Outcome PageBuffer)
  load_page fuel b handle v = elim b.state [
    | none ↦ some (b, v, err not_connected)
    | some state ↦ elim (rdma_transfer fuel state 0 (remote_offset handle) page_size false v) [
      | none ↦ none
      | some (v', r) ↦ elim r [
        | err e ↦ some (b, v', err e)
        | panic ↦ some (b, v', panic)
        | ok _ ↦ some (
          record b {
            total_load_ns = fetch_add b.total_load_ns (verbs.clock v' - verbs.clock v);
            load_count = fetch_add b.load_count 1;
          },
          v',
          ok (verbs.copy_out v'),
        )
      ]
    ]
  ]

unfoldable pub capacity : RdmaBackend → ℕ × ℕ
capacity b = (b.max_pages, b.pages_used)

unfoldable pub latency_ns : RdmaBackend → ℕ
latency_ns b = if b.load_count == 0 then 3000 else b.total_load_ns / b.load_count

unfoldable pub is_healthy : RdmaBackend → Bool
is_healthy b = elim b.state [ none ↦ false | some state ↦ true ]
