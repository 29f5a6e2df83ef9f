-- ===== src/Backends/RdmaServer/Slabs/Connect.antt =====
-- A client that connects: its slab, and the offset of the next one.
use distributed_uvm.Prelude.{
  ℕ, suc, ◌+◌, ◌*◌, ◌%◌, ◌^◌, ◌<◌, ◌≤◌, ◌≡◌, refl, sym, ap₂, ◌∙◌, subst, some, [], ◌∷◌, arith, ltb,
  inl, inr,
}
use distributed_uvm.Prelude.HashMap.{insert}
use distributed_uvm.Prelude.Outcome.{Outcome-cases, ok, full, io_failed}
use distributed_uvm.Common.Page.{page_size}
use distributed_uvm.Backends.Rdma.Resources.{
  State, Action, connection, connection_queue, connection_pair, acquire, attempt,
}
use distributed_uvm.Backends.Rdma.Resources.Rules.{
  Yields, Yields-if, Yields-bail, Yields-bind, Yields-pure,
}
use distributed_uvm.Backends.Rdma.Setup.{RdmaHandshake}
use distributed_uvm.Backends.RdmaServer.{
  Library, RdmaMemServer, ServerResources, Variables, handle_connect, connect_client,
  populate_write,
}
use distributed_uvm.Backends.RdmaServer.Slabs.{
  Inv, IsPartitioned, next-IsPartitioned, insert-IsPartitioned,
}

module _ {W : Type 0} (lib : Library W) (server : RdmaMemServer) where
  -- The slab of a client that is accepted, and that it is within the pages served.
  abbrev Granted : ServerResources → ℕ → ℕ × ℕ → Type 0
  Granted res offset slab =
      (slab ≡ (
        (res.buf + offset * page_size % 2 ^ 64) % 2 ^ 64,
        server.pages_per_client * page_size % 2 ^ 64,
      ))
      × ((offset + server.pages_per_client) % 2 ^ 64 ≤ server.max_pages)

  handle_connect-Yields :
      (res : ServerResources) (conn offset : ℕ)
      → Yields (Granted res offset) (handle_connect lib server res conn offset)
  unfolding handle_connect
  handle_connect-Yields res conn offset =
      let client_addr = (res.buf + offset * page_size % 2 ^ 64) % 2 ^ 64 in
      let client_size = server.pages_per_client * page_size % 2 ^ 64 in
      let cleanup = connection_queue conn ∷ connection conn ∷ [] in
      let handshake : RdmaHandshake = record {
        rkey = res.rkey;
        addr = client_addr;
        size = client_size;
      } in
      let populate : Action W (Unit {0}) = λ s.
        (record s { world = lib.madvise populate_write client_addr client_size s.world }, ok tt) in
      Yields-if (ltb server.max_pages ((offset + server.pages_per_client) % 2 ^ 64)) _ _
        (λ over. Yields-bail lib.free (connection conn ∷ []) full)
        λ fits. Yields-bind populate λ u.
          Yields-bind
            (acquire lib.free (lib.create_cq conn) (connection_queue conn) (connection conn ∷ [])
              io_failed)
            λ u.
              Yields-bind
                (acquire lib.free (lib.create_qp conn) (connection_pair conn) cleanup io_failed)
                λ u.
                  Yields-bind (attempt lib.free (lib.accept conn handshake) cleanup io_failed)
                    λ u. Yields-pure (client_addr, client_size) (refl, ground (arith, fits))

  -- A slab within a buffer that lies in the address space is at its offset.
  Granted-fresh :
      (res : ServerResources) (offset : ℕ) (slab : ℕ × ℕ)
      → res.buf + server.max_pages * page_size < 2 ^ 64
      → offset + server.pages_per_client < 2 ^ 64
      → Granted res offset slab
      → slab ≡ (res.buf + offset * page_size, server.pages_per_client * page_size)
  Granted-fresh res offset slab space room (e, below) =
      let fits : offset + server.pages_per_client ≤ server.max_pages = omega (arith, below, room) in
      e ∙ ap₂ (λ (a b : ℕ). (a, b)) (omega (arith, fits, space)) (omega (arith, fits, space))

  -- One more client: the offset moves on, and the slabs stay apart.
  module _ (res : ServerResources) (conn : ℕ) (v : Variables) (s : State W)
      (room : v.next_client_offset + server.pages_per_client < 2 ^ 64)
      (space : res.buf + server.max_pages * page_size < 2 ^ 64)
      (p : IsPartitioned server res.buf v.next_client_offset v.conn_slabs) where
    abbrev Moved : Variables → Type 0
    Moved v' =
        (v'.resources ≡ v.resources)
        × (v'.next_client_offset ≡ v.next_client_offset + server.pages_per_client)
        × IsPartitioned server res.buf (v.next_client_offset + server.pages_per_client)
            v'.conn_slabs

    wraps :
        (v.next_client_offset + server.pages_per_client) % 2 ^ 64
        ≡ v.next_client_offset + server.pages_per_client
    wraps = omega (arith, room)

    -- The variables with the offset moved.
    abbrev moved : Variables
    moved = record v {
      next_client_offset = (v.next_client_offset + server.pages_per_client) % 2 ^ 64;
    }

    moved-Moved : Moved moved
    moved-Moved = (
      refl,
      wraps,
      next-IsPartitioned server res.buf v.next_client_offset v.conn_slabs conn
          (v.next_client_offset + server.pages_per_client) (omega arith) p,
    )

    connect_client-Moved : Moved (connect_client lib server res conn v s).1
    unfolding connect_client
    connect_client-Moved =
        let next = v.next_client_offset in
        let out = handle_connect lib server res conn next s in
        let after : Variables = (connect_client lib server res conn v s).1 in
        elim (Outcome-cases out.1) [
          | inl (slab, t) ↦
              let (at_offset, below) = (handle_connect-Yields res conn next).at s slab t in
              let granted = Granted-fresh res next slab space room (at_offset, below) in
              let v' : Variables = record moved {
                conn_cqs = insert conn tt v.conn_cqs;
                conn_slabs = insert conn slab v.conn_slabs;
              } in
              let run : after ≡ v' = ground (arith, t) in
              let apart : IsPartitioned server res.buf (next + server.pages_per_client)
                  v'.conn_slabs =
                subst
                  (λ sl.
                    IsPartitioned server res.buf (next + server.pages_per_client)
                      (insert conn sl v.conn_slabs))
                  (sym granted)
                  (insert-IsPartitioned server res.buf next v.conn_slabs conn
                    (omega (arith, below, room)) p) in
              subst Moved (sym run) (refl, wraps, apart)
          | inr (inl (x, t)) ↦
              let run : after ≡ moved = ground (arith, t) in subst Moved (sym run) moved-Moved
          | inr (inr t) ↦
              let run : after ≡ moved = ground (arith, t) in subst Moved (sym run) moved-Moved
        ]

    pub connect_client-Inv :
        (n : ℕ)
        → v.resources ≡ some res
        → v.next_client_offset ≤ n * server.pages_per_client
        → Inv server (suc n) (connect_client lib server res conn v s).1
    connect_client-Inv n r below =
        let (same, next, part) = connect_client-Moved in
        let after : Variables = (connect_client lib server res conn v s).1 in
        let found : after.resources ≡ some res = same ∙ r in
        record {
          bounded = omega (arith, next, below);
          idle = λ h. absurd (ground (arith, h, found));
          mapped = λ res' h.
              let e : res ≡ res' = ground (arith, h, found) in
              subst (λ (b : ServerResources). b.buf + server.max_pages * page_size < 2 ^ 64) e
                space;
          ready = λ res' h.
              let e : res ≡ res' = ground (arith, h, found) in
              subst
                (λ (b : ServerResources).
                  IsPartitioned server b.buf after.next_client_offset after.conn_slabs)
                e (subst (λ o. IsPartitioned server res.buf o after.conn_slabs) (sym next) part);
        }
