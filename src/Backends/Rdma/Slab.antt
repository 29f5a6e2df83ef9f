-- ===== src/Backends/Rdma/Slab.antt =====
-- Which bytes of the remote buffer a page of the RDMA backend takes, and which handles come again.
use distributed_uvm.Prelude.{◌+◌, ◌*◌, ◌^◌, ◌≡◌, ◌<◌, ◌≤◌, Bool, arith, leb, Bool-cases, inl, inr}
use distributed_uvm.Prelude.Outcome.{ok}
use distributed_uvm.Common.Page.{PageHandle, page_size, new_handle}
use distributed_uvm.Common.Page.Laws.{new_handle-parts}
use distributed_uvm.Backends.Rdma.{
  RdmaBackend, RdmaState, SendWr, transfer_wr, remote_offset, alloc_page, free_page,
}

alloc_run :
    (b : RdmaBackend) (h : PageHandle)
    → (alloc_page b).1 ≡ ok h
    → (b.pages_used < b.max_pages) × (new_handle b.backend_id b.pages_used ≡ ok h)
unfolding alloc_page
alloc_run b h got = elim (Bool-cases (leb b.max_pages b.pages_used)) [
  | inl t ↦ absurd (ground (arith, got, t))
  | inr t ↦ (ground (arith, t), ground (arith, got, t))
]

-- Where the RDMA backend's id is below 2^8 and all its pages fit in the client's part of the
-- remote buffer, which the address space holds, the transfer of a page at a handle that alloc_page
-- gave stays in that part.
pub transfer-in_slab :
    (b : RdmaBackend) (h : PageHandle) (state : RdmaState) (is_write : Bool)
    → b.backend_id < 2 ^ 8
    → (alloc_page b).1 ≡ ok h
    → b.max_pages * page_size ≤ state.remote_size
    → state.remote_addr + state.remote_size ≤ 2 ^ 64
    → let wr : SendWr = transfer_wr state 0 (remote_offset h) page_size is_write in
      (state.remote_addr ≤ wr.remote_addr)
      × (wr.remote_addr + wr.length ≤ state.remote_addr + state.remote_size)
unfolding transfer_wr remote_offset
transfer-in_slab b h state is_write id got room wide =
    let (used, made) = alloc_run b h got in
    let (below, same_id, same) = new_handle-parts b.backend_id b.pages_used h id made in
    (omega (arith, same, used, room, wide), omega (arith, same, used, room, wide))

-- With fewer than 2^64 pages in use, after an allocation on the RDMA backend and a free of any
-- handle, the next allocation returns the handle just allocated again.
pub alloc-free-alloc :
    (b : RdmaBackend) (g h : PageHandle)
    → b.pages_used < 2 ^ 64
    → (alloc_page b).1 ≡ ok h
    → (alloc_page (free_page (alloc_page b).0 g).0).1 ≡ ok h
alloc-free-alloc b g h small got =
    let (used, made) = alloc_run b h got in
    unfold alloc_page free_page in ground (arith, small, used, made)
