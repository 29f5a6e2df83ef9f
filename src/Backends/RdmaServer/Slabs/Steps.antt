-- ===== src/Backends/RdmaServer/Slabs/Steps.antt =====
-- Every event keeps the slabs of crates/duvm-backend-rdma/src/server.rs apart.
use distributed_uvm.Prelude.{
  ℕ, zero, suc, ◌+◌, ◌*◌, ◌%◌, ◌^◌, ◌<◌, [], if◌then◌else◌, ◌≡◌, refl, sym, subst, some, ◌∷◌, arith,
  ◌==◌, inl, inr, Bool-cases, Option-cases,
}
use distributed_uvm.Prelude.HashMap.{lookup, remove, lookup-remove}
use distributed_uvm.Prelude.Outcome.{Outcome-cases, ok, io_failed}
use distributed_uvm.Backends.Rdma.Resources.{
  State, Action, event, connection, shared_domain, buffer, region, acquire, bail,
}
use distributed_uvm.Common.Page.{page_size}
use distributed_uvm.Backends.Rdma.Resources.Rules.{Yields, Yields-bind}
use distributed_uvm.Backends.RdmaServer.{
  Library, RdmaMemServer, ServerResources, Variables, init_resources, connect_client,
  connect_request, disconnected, handle_event, acknowledge, event_loop, event_connect_request,
  event_disconnected,
}
use distributed_uvm.Backends.RdmaServer.Slabs.{
  Reach, start, later, Inv, empty-IsPartitioned, remove-IsPartitioned,
}
use distributed_uvm.Backends.RdmaServer.Slabs.Connect.{connect_client-Inv}

later-Inv : {server : RdmaMemServer} (n : ℕ) (v : Variables) → Inv server n v → Inv server (suc n) v
later-Inv n v i =
    let bound = i.bounded in
    record { bounded = omega (arith, bound); idle = i.idle; mapped = i.mapped; ready = i.ready }

remove-Inv :
    {server : RdmaMemServer} (n conn : ℕ) (v : Variables)
    → Inv server n v
    → Inv server n (record v { conn_slabs = remove conn v.conn_slabs })
remove-Inv {server} n conn v i = record {
  bounded = i.bounded;
  idle = λ r c. ground (arith, i.idle r c, lookup-remove c conn v.conn_slabs);
  mapped = i.mapped;
  ready = λ res r.
      remove-IsPartitioned server res.buf v.next_client_offset v.conn_slabs conn (i.ready res r);
}

queues-Inv :
    {server : RdmaMemServer} (n : ℕ) (v v' : Variables)
    → v'.resources ≡ v.resources
    → v'.next_client_offset ≡ v.next_client_offset
    → v'.conn_slabs ≡ v.conn_slabs
    → Inv server n v
    → Inv server n v'
queues-Inv {server} n v v' r o c i =
    let same : v ≡ record v' { conn_cqs = v.conn_cqs } = ground (arith, r, o, c) in
    let j : Inv server n (record v' { conn_cqs = v.conn_cqs }) = subst (Inv server n) same i in
    record { bounded = j.bounded; idle = j.idle; mapped = j.mapped; ready = j.ready }

module _ {W : Type 0} (lib : Library W) (server : RdmaMemServer) where
  -- The buffer's size does not wrap, and a mapping lies in the address space.
  pub record InSpace : Type 0 where
    pub sized : server.max_pages * page_size < 2 ^ 64
    pub mapping : (w : W) → lib.buffer_address w + server.max_pages * page_size % 2 ^ 64 < 2 ^ 64

  -- The buffer that is registered lies in the address space.
  abbrev IsMapped : ServerResources → Type 0
  IsMapped res = res.buf + server.max_pages * page_size < 2 ^ 64

  init_resources-Yields : (conn : ℕ) → InSpace → Yields IsMapped (init_resources lib server conn)
  unfolding init_resources
  init_resources-Yields conn space =
      let size = server.max_pages * page_size % 2 ^ 64 in
      let made : Action W ServerResources =
        λ s. (s, ok (record { buf = lib.buffer_address s.world; rkey = lib.rkey s.world })) in
      let found : Yields IsMapped made = record {
        at = λ s res h.
            let fits = space.mapping s.world in
            let sized = space.sized in
            let address : res.buf ≡ lib.buffer_address s.world = ground (arith, h) in
            omega (arith, fits, sized, address);
      } in
      let verbs : Action W (Unit {0}) =
        λ s. if lib.has_verbs conn s.world then (s, ok tt) else bail lib.free [] io_failed s in
      Yields-bind verbs λ u.
        Yields-bind (acquire lib.free lib.alloc_pd shared_domain [] io_failed) λ u.
          Yields-bind (acquire lib.free (lib.mmap size) buffer (shared_domain ∷ []) io_failed) λ u.
            Yields-bind (acquire lib.free lib.reg_mr region (buffer ∷ shared_domain ∷ []) io_failed)
              λ u. found

  connect_request-Inv :
      (n conn : ℕ) (v : Variables) (s : State W)
      → InSpace
      → suc n * server.pages_per_client < 2 ^ 64
      → Inv server n v
      → Inv server (suc n) (connect_request lib server conn v s).1
  unfolding connect_request acknowledge
  connect_request-Inv n conn v s space room i =
      let s₀ : State W = record s {
        ledger = record (s.ledger) { held = connection conn ∷ s.ledger.held };
      } in
      let after : Variables = (connect_request lib server conn v s).1 in
      let bound = i.bounded in
      elim (Option-cases v.resources) [
        | inr (res, r) ↦
            let run : after ≡ (connect_client lib server res conn v s₀).1 = ground (arith, r) in
            subst (Inv server (suc n)) (sym run) (
              connect_client-Inv lib server res conn v s₀ (omega (arith, bound, room))
                (i.mapped res r) (i.ready res r) n r bound)
        | inl r ↦ elim (Outcome-cases (init_resources lib server conn s₀).1) [
          | inl (res, t) ↦
              let v₁ : Variables = record v { resources = some res } in
              let s₁ : State W = (init_resources lib server conn s₀).0 in
              let run : after ≡ (connect_client lib server res conn v₁ s₁).1 =
                ground (arith, r, t) in
              subst (Inv server (suc n)) (sym run) (
                connect_client-Inv lib server res conn v₁ s₁ (omega (arith, bound, room))
                  ((init_resources-Yields conn space).at s₀ res t)
                  (empty-IsPartitioned server res.buf v.next_client_offset v.conn_slabs (i.idle r))
                  n refl bound)
          | inr (inl (x, t)) ↦
              let run : after ≡ v = ground (arith, r, t) in
              subst (Inv server (suc n)) (sym run) (later-Inv n v i)
          | inr (inr t) ↦
              let run : after ≡ v = ground (arith, r, t) in
              subst (Inv server (suc n)) (sym run) (later-Inv n v i)
        ]
      ]

  -- The variables after a disconnection that returns.
  disconnected-Inv :
      (n conn : ℕ) (v v' : Variables) (s s' : State W)
      → disconnected lib server conn v s ≡ some (s', v')
      → Inv server n v
      → Inv server (suc n) v'
  unfolding disconnected acknowledge
  disconnected-Inv n conn v v' s s' q i =
      let v₁ : Variables = record v { conn_slabs = remove conn v.conn_slabs } in
      let i : Inv server (suc n) v = later-Inv n v i in
      elim (Option-cases (lookup conn v.conn_slabs)) [
        | inl h ↦ elim (Option-cases (lookup conn v.conn_cqs)) [
          | inl h' ↦
              queues-Inv (suc n) v v' (ground (arith, h, h', q)) (ground (arith, h, h', q))
                (ground (arith, h, h', q)) i
          | inr (u, h') ↦
              queues-Inv (suc n) v v' (ground (arith, h, h', q)) (ground (arith, h, h', q))
                (ground (arith, h, h', q)) i
        ]
        | inr (slab, h) ↦ elim (Option-cases (lookup conn v.conn_cqs)) [
          | inl h' ↦
              queues-Inv (suc n) v₁ v' (ground (arith, h, h', q)) (ground (arith, h, h', q))
                (ground (arith, h, h', q)) (remove-Inv (suc n) conn v i)
          | inr (u, h') ↦
              queues-Inv (suc n) v₁ v' (ground (arith, h, h', q)) (ground (arith, h, h', q))
                (ground (arith, h, h', q)) (remove-Inv (suc n) conn v i)
        ]
      ]

  handle_event-Inv :
      (n kind conn : ℕ) (v v' : Variables) (s s' : State W)
      → InSpace
      → suc n * server.pages_per_client < 2 ^ 64
      → handle_event lib server kind conn v s ≡ some (s', v')
      → Inv server n v
      → Inv server (suc n) v'
  unfolding handle_event acknowledge
  handle_event-Inv n kind conn v v' s s' space room q i =
      elim (Bool-cases (kind == event_connect_request)) [
        | inl t ↦
            let same : (connect_request lib server conn v s).1 ≡ v' = ground (arith, t, q) in
            subst (Inv server (suc n)) same (connect_request-Inv n conn v s space room i)
        | inr t ↦ elim (Bool-cases (kind == event_disconnected)) [
          | inl t' ↦ disconnected-Inv n conn v v' s s' (ground (arith, t, t', q)) i
          | inr t' ↦
              let same : v ≡ v' = ground (arith, t, t', q) in
              subst (Inv server (suc n)) same (later-Inv n v i)
        ]
      ]

  -- After any sequence of events of any kinds on any connections whose handlers return, in any
  -- states of the world, where the bytes of the buffer are below 2^64, mmap gives an address from
  -- which that many bytes end below 2^64, and the pages handed out so far stay below 2^64, the
  -- slabs of the connected clients of the RDMA server have the size of a client's part, lie in the
  -- registered buffer, and do not overlap.
  pub slabs-Inv :
      (n : ℕ) (v : Variables)
      → Reach lib server n v
      → InSpace
      → n * server.pages_per_client < 2 ^ 64
      → Inv server n v
  unfolding lookup
  slabs-Inv zero v start space room = record {
    bounded = omega arith;
    idle = λ h conn. refl;
    mapped = λ res h. absurd (ground (arith, h));
    ready = λ res h. absurd (ground (arith, h));
  }
  slabs-Inv (suc n) v' (later kind conn s s' reach q) space room =
      handle_event-Inv n kind conn _ v' s s' space room q
        (slabs-Inv n _ reach space (omega (arith, room)))

  -- The event loop makes steps.
  event_loop-Reach :
      (fuel n : ℕ) (v v' : Variables) (s s' : State W)
      → Reach lib server n v
      → event_loop lib server fuel v s ≡ some (s', v')
      → (m : ℕ) × Reach lib server m v'
  unfolding event_loop
  event_loop-Reach zero n v v' s s' r h = absurd (ground (arith, h))
  event_loop-Reach (suc fuel) n v v' s s' r h = elim (Bool-cases (lib.running s.world)) [
    | inr t ↦ let same : v ≡ v' = ground (arith, h, t) in (n, subst (Reach lib server n) same r)
    | inl t ↦ elim (Bool-cases (lib.get_cm_event s.world).1) [
      | inr f ↦
          let same : v ≡ v' = ground (arith, h, t, f) in (n, subst (Reach lib server n) same r)
      | inl f ↦
          let w : W = (lib.get_cm_event s.world).0 in
          let s₁ : State W = record {
            world = w;
            ledger = record (s.ledger) { held = event ∷ s.ledger.held };
          } in
          let kind = lib.event_kind w in
          let conn = lib.event_id w in
          elim (Option-cases (handle_event lib server kind conn v s₁)) [
            | inl q ↦ absurd (ground (arith, h, t, f, q))
            | inr ((s₂, v₂), q) ↦
                event_loop-Reach fuel (suc n) v₂ v' s₂ s' (later kind conn s₁ s₂ r q)
                  (ground (arith, h, t, f, q))
          ]
    ]
  ]
