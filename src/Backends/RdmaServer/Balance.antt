-- ===== src/Backends/RdmaServer/Balance.antt =====
-- What the handlers of crates/duvm-backend-rdma/src/server.rs take from the libraries, and what of it they
-- do not give back.
use distributed_uvm.Prelude.{
  ℕ, ◌+◌, ◌*◌, ◌%◌, ◌^◌, ◌≡◌, refl, sym, ap, ◌∙◌, subst, false, some, [], ◌∷◌, arith, ltb, inl, inr,
  ◌⊎◌,
}
use distributed_uvm.Prelude.HashMap.{lookup, insert, lookup-insert_self}
use distributed_uvm.Prelude.Outcome.{full, io_failed}
use distributed_uvm.Common.Page.{page_size}
use distributed_uvm.Backends.Rdma.Resources.{
  Resource, event, connection, connection_queue, connection_pair, Ledger, State, release, released,
  all_released, holds,
}
use distributed_uvm.Backends.Rdma.Resources.Rules.{
  Takes-bind, Takes-pure, Takes-bail, Takes-acquire, Takes-attempt, Takes-world,
}
use distributed_uvm.Backends.Rdma.Resources.Parts.{
  Parts, Parts-early, Parts-late, Parts-bind, Parts-either, Parted-cases,
}
use distributed_uvm.Backends.RdmaServer.{
  Library, RdmaMemServer, ServerResources, Variables, handle_connect, connect_client,
  connect_request, disconnected, acknowledge, populate_write,
}

abbrev with : Resource → Ledger → Ledger
with r l = record l { held = r ∷ l.held }

-- What a client that was let in leaves: its queue pair, which is never destroyed, and its completion
-- queue, whose destruction fails on that account.
abbrev left_by : ℕ → Ledger → Ledger
left_by conn l = with (connection_pair conn) (with (connection_queue conn) l)

module _ {W : Type 0} (lib : Library W) (server : RdmaMemServer) (conn : ℕ) (l : Ledger)
    (unused : holds (connection_pair conn) l.held ≡ false) where
  one : all_released (connection conn ∷ []) (with (connection conn) l) ≡ l
  one = ground arith

  both :
      all_released
        (connection_queue conn ∷ connection conn ∷ [])
        (with (connection_queue conn) (with (connection conn) l))
      ≡ l
  both = ground (arith, unused)

  kept :
      all_released
        (connection_queue conn ∷ connection conn ∷ [])
        (left_by conn (with (connection conn) l))
      ≡ left_by conn l
  kept = ground arith

  -- The connection fails before the queue pair is made, or after, or the client is let in.
  handle_connect-Parts :
      (res : ServerResources) (offset : ℕ)
      → Parts
          (with (connection conn) l)
          (handle_connect lib server res conn offset)
          (left_by conn (with (connection conn) l))
          l
          (left_by conn l)
  unfolding handle_connect
  handle_connect-Parts res offset =
      let client_addr = (res.buf + offset * page_size % 2 ^ 64) % 2 ^ 64 in
      let client_size = server.pages_per_client * page_size % 2 ^ 64 in
      let late = left_by conn l in
      let pre = with (connection conn) l in
      let queued = with (connection_queue conn) pre in
      let cleanup = connection_queue conn ∷ connection conn ∷ [] in
      Parts-either (ltb server.max_pages ((offset + server.pages_per_client) % 2 ^ 64))
        (Parts-early late (Takes-bail lib.free (connection conn ∷ []) full pre l one _))
        (Parts-bind
          (Takes-world (λ s. (lib.madvise populate_write client_addr client_size s.world, tt)) pre
            l)
          λ u.
            Parts-bind
              (Takes-acquire lib.free (lib.create_cq conn) (connection conn ∷ []) io_failed pre l
                one (connection_queue conn))
              λ u.
                Parts-bind
                  (Takes-acquire lib.free (lib.create_qp conn) cleanup io_failed queued l both
                    (connection_pair conn))
                  λ u. Parts-late l (
                    Takes-bind
                      (Takes-attempt lib.free
                        (lib.accept conn
                          (record { rkey = res.rkey; addr = client_addr; size = client_size }))
                        cleanup io_failed _ late kept)
                      λ u. Takes-pure (client_addr, client_size) _ late))

module _ {W : Type 0} (conn : ℕ) (l : Ledger) where
  -- A client that is turned away.
  pub record IsRejected (v : Variables) (out : State W × Variables) : Type 0 where
    pub left : (out.0.ledger ≡ l) ⊎ (out.0.ledger ≡ left_by conn l)
    pub slabs : out.1.conn_slabs ≡ v.conn_slabs
    pub cqs : out.1.conn_cqs ≡ v.conn_cqs

  -- A client that is accepted is in both maps.
  pub record IsAccepted (out : State W × Variables) : Type 0 where
    pub took : out.0.ledger ≡ left_by conn (with (connection conn) l)
    pub slab : ℕ × ℕ
    pub in_slabs : lookup conn out.1.conn_slabs ≡ some slab
    pub in_cqs : lookup conn out.1.conn_cqs ≡ some tt

module _ {W : Type 0} (lib : Library W) (server : RdmaMemServer) (conn : ℕ) (l : Ledger) where
  connect_client-cases :
      (res : ServerResources) (v : Variables) (s : State W)
      → holds (connection_pair conn) l.held ≡ false
      → s.ledger ≡ with (connection conn) l
      → IsAccepted conn l (connect_client lib server res conn v s)
        ⊎ IsRejected conn l v (connect_client lib server res conn v s)
  unfolding connect_client
  connect_client-cases res v s unused e =
      let out = handle_connect lib server res conn v.next_client_offset s in
      let after = connect_client lib server res conn v s in
      let Goal : State W × Variables → Type 0 = λ o. IsAccepted conn l o ⊎ IsRejected conn l v o in
      let moved : Variables = record v {
        next_client_offset = (v.next_client_offset + server.pages_per_client) % 2 ^ 64;
      } in
      let ends = (handle_connect-Parts lib server conn l unused res v.next_client_offset).at s e in
      elim (Parted-cases _ l (left_by conn l) out ends) [
        | inl (slab, t, took) ↦
            let v' : Variables = record moved {
              conn_cqs = insert conn tt v.conn_cqs;
              conn_slabs = insert conn slab v.conn_slabs;
            } in
            let run : after ≡ (out.0, v') = ground (arith, t) in
            subst Goal (sym run) (
              inl (record {
                took = took;
                slab = slab;
                in_slabs = lookup-insert_self conn slab v.conn_slabs;
                in_cqs = lookup-insert_self conn tt v.conn_cqs;
              }))
        | inr (x, t, lost) ↦
            let run : after ≡ (out.0, moved) = ground (arith, t) in
            subst Goal (sym run) (inr (record { left = lost; slabs = refl; cqs = refl }))
      ]

module _ {W : Type 0} (lib : Library W) (server : RdmaMemServer) (conn : ℕ) (l : Ledger) where
  acknowledge-cases :
      (v : Variables) (out : State W × Variables)
      → IsAccepted conn (with event l) out ⊎ IsRejected conn (with event l) v out
      → IsAccepted conn l (acknowledge lib server out)
        ⊎ IsRejected conn l v (acknowledge lib server out)
  unfolding acknowledge release
  acknowledge-cases v out (inl a) = inl (record {
    took = ap (released event) a.took;
    slab = a.slab;
    in_slabs = a.in_slabs;
    in_cqs = a.in_cqs;
  })
  acknowledge-cases v out (inr r) = inr (record {
    left = elim r.left [
      | inl e ↦ inl (ap (released event) e)
      | inr e ↦ inr (ap (released event) e)
    ];
    slabs = r.slabs;
    cqs = r.cqs;
  })

  disconnected-left :
      (v v' : Variables) (s s' : State W) (slab : ℕ × ℕ)
      → lookup conn v.conn_slabs ≡ some slab
      → lookup conn v.conn_cqs ≡ some tt
      → s.ledger ≡ with event (left_by conn (with (connection conn) l))
      → disconnected lib server conn v s ≡ some (s', v')
      → s'.ledger ≡ left_by conn l
  unfolding disconnected acknowledge release
  disconnected-left v v' s s' slab h h' e q =
      let run : s'.ledger
          ≡ released event
              (released (connection conn) (released (connection_queue conn) s.ledger)) =
        ground (arith, h, h', q) in
      run
      ∙ ap (λ m. released event (released (connection conn) (released (connection_queue conn) m))) e
      ∙ ground arith

  connect_request-cases :
      (res : ServerResources) (v : Variables) (s : State W)
      → v.resources ≡ some res
      → holds (connection_pair conn) l.held ≡ false
      → s.ledger ≡ with event l
      → IsAccepted conn l (connect_request lib server conn v s)
        ⊎ IsRejected conn l v (connect_request lib server conn v s)
  unfolding connect_request
  connect_request-cases res v s r unused e =
      let s₀ : State W = record s {
        ledger = record (s.ledger) { held = connection conn ∷ s.ledger.held };
      } in
      let joined : State W × Variables =
        acknowledge lib server (connect_client lib server res conn v s₀) in
      let run : connect_request lib server conn v s ≡ joined = ground (arith, r) in
      subst (λ o. IsAccepted conn l o ⊎ IsRejected conn l v o) (sym run)
        (acknowledge-cases v (connect_client lib server res conn v s₀) (
          connect_client-cases lib server conn (with event l) res v s₀ (ground (arith, unused))
            (ap (with (connection conn)) e)))

  -- A request of a client, and in any world its disconnection.
  abbrev pub Visited : Variables → State W → Type 0
  Visited v s =
      let (s', v') = connect_request lib server conn v s in
      (((s'.ledger ≡ l) ⊎ (s'.ledger ≡ left_by conn l))
        × (v'.conn_slabs ≡ v.conn_slabs)
        × (v'.conn_cqs ≡ v.conn_cqs))
      ⊎ ((s'.ledger ≡ left_by conn (with (connection conn) l))
          × ((w : W) (s'' : State W) (v'' : Variables)
              → disconnected lib server conn v'
                  (record { world = w; ledger = with event s'.ledger })
                ≡ some (s'', v'')
              → s''.ledger ≡ left_by conn l))

  -- Once the server has its resources, a connection request of a client that has left no queue
  -- pair either is turned away, with the server's two maps as they were, and leaves the libraries'
  -- resources as they were without its event or, beside them, the client's queue pair and
  -- completion queue; or it is accepted, which takes its id, completion queue and queue pair, and
  -- then a disconnection of that client that returns, in any world, leaves its queue pair and
  -- completion queue held, beside what was held before.
  pub connect_request-Visited :
      (res : ServerResources) (v : Variables) (s : State W)
      → v.resources ≡ some res
      → holds (connection_pair conn) l.held ≡ false
      → s.ledger ≡ with event l
      → Visited v s
  connect_request-Visited res v s r unused e = elim (connect_request-cases res v s r unused e) [
    | inl a ↦
        let (s', v') = connect_request lib server conn v s in
        let leaves : (w : W) (s'' : State W) (v'' : Variables)
            → disconnected lib server conn v' (record { world = w; ledger = with event s'.ledger })
              ≡ some (s'', v'')
            → s''.ledger ≡ left_by conn l =
          λ w s'' v'' q.
            disconnected-left v' v'' (record { world = w; ledger = with event s'.ledger }) s''
              a.slab a.in_slabs a.in_cqs (ap (with event) a.took) q in
        inr (a.took, leaves)
    | inr n ↦ inl (n.left, n.slabs, n.cqs)
  ]
