-- ===== src/Backends/RdmaServer/Slabs.antt =====
-- The slabs of the clients that are connected lie in the buffer and do not overlap, whatever events
-- come in whatever order.
pub mod Connect
pub mod Steps
use distributed_uvm.Prelude.{
  ℕ, zero, suc, ◌+◌, ◌*◌, ◌%◌, ◌^◌, ◌<◌, ◌≤◌, ◌≡◌, ◌≢◌, refl, sym, ap, ◌∙◌, subst, Bool, true,
  false, Option, none, some, List, [], ◌∷◌, arith, ltb, ◌==◌, if◌then◌else◌, inl, inr, ◌⊎◌,
  Bool-cases, Option-cases, Empty,
}
use native.Mathlib.Decide.{ℕ_discrete}
use distributed_uvm.Prelude.HashMap.{HashMap, lookup, insert, remove, lookup-insert, lookup-remove}
use distributed_uvm.Prelude.Outcome.{Outcome, Outcome-cases, ok, err, panic, full, io_failed}
use distributed_uvm.Common.Page.{page_size}
use distributed_uvm.Backends.Rdma.Resources.{
  State, Action, connection, connection_queue, acquire, attempt,
}
use distributed_uvm.Backends.Rdma.Resources.Rules.{
  Yields, Yields-if, Yields-bail, Yields-bind, Yields-pure,
}
use distributed_uvm.Backends.Rdma.Setup.{RdmaHandshake}
use distributed_uvm.Backends.RdmaServer.{
  Library, RdmaMemServer, ServerResources, Variables, no_variables, init_resources, handle_connect,
  connect_client, connect_request, disconnected, handle_event, acknowledge, populate_write,
  event_connect_request, event_established, event_disconnected,
}

-- A step of the server: an event of any kind on any connection, in any state of the world, whose
-- handler returns.
pub data Reach {W : Type 0} (lib : Library W) (server : RdmaMemServer)
    : ℕ → Variables → Type 0 where
  start : Reach lib server 0 no_variables
  later :
      {n : ℕ} {v v' : Variables} (kind conn : ℕ) (s s' : State W)
      → Reach lib server n v
      → handle_event lib server kind conn v s ≡ some (s', v')
      → Reach lib server (suc n) v'

-- A slab that begins and ends within the first `limit` pages of the buffer.
pub record IsWithin (buf limit size : ℕ) (slab : ℕ × ℕ) : Type 0 where
  pub sized : slab.1 ≡ size
  pub above : buf ≤ slab.0
  pub below : slab.0 + slab.1 ≤ buf + limit * page_size

abbrev pub IsApart : ℕ × ℕ → ℕ × ℕ → Type 0
IsApart a b = (a.0 + a.1 ≤ b.0) ⊎ (b.0 + b.1 ≤ a.0)

pub record IsPartitioned (server : RdmaMemServer) (buf next : ℕ) (slabs : HashMap (ℕ × ℕ))
    : Type 0 where
  pub within :
      (conn : ℕ) (slab : ℕ × ℕ)
      → lookup conn slabs ≡ some slab
      → IsWithin buf server.max_pages (server.pages_per_client * page_size) slab
        × (slab.0 + slab.1 ≤ buf + next * page_size)
  pub apart :
      (conn conn' : ℕ) (slab slab' : ℕ × ℕ)
      → conn ≢ conn'
      → lookup conn slabs ≡ some slab
      → lookup conn' slabs ≡ some slab'
      → IsApart slab slab'

-- What holds after `n` events.
pub record Inv (server : RdmaMemServer) (n : ℕ) (v : Variables) : Type 0 where
  pub bounded : v.next_client_offset ≤ n * server.pages_per_client
  pub idle : v.resources ≡ none → (conn : ℕ) → lookup conn v.conn_slabs ≡ none
  pub mapped :
      (res : ServerResources)
      → v.resources ≡ some res
      → res.buf + server.max_pages * page_size < 2 ^ 64
  pub ready :
      (res : ServerResources)
      → v.resources ≡ some res
      → IsPartitioned server res.buf v.next_client_offset v.conn_slabs

module _ (server : RdmaMemServer) (buf next : ℕ) (slabs : HashMap (ℕ × ℕ)) where
  pub empty-IsPartitioned : ((c : ℕ) → lookup c slabs ≡ none) → IsPartitioned server buf next slabs
  empty-IsPartitioned empty = record {
    within = λ c slab h. absurd (ground (arith, h, empty c));
    apart = λ c c' slab slab' ne h h'. absurd (ground (arith, h, empty c));
  }

module _ (server : RdmaMemServer) (buf next : ℕ) (slabs : HashMap (ℕ × ℕ)) (conn : ℕ) where
  -- The slab at the offset that is next.
  abbrev fresh : ℕ × ℕ
  fresh = (buf + next * page_size, server.pages_per_client * page_size)

  pub remove-IsPartitioned :
      IsPartitioned server buf next slabs → IsPartitioned server buf next (remove conn slabs)
  remove-IsPartitioned p = record {
    within = λ c slab h. p.within c slab (kept c slab h);
    apart =
        λ c c' slab slab' ne h h'. p.apart c c' slab slab' ne (kept c slab h) (kept c' slab' h');
  }
    where
      kept :
          (c : ℕ) (slab : ℕ × ℕ)
          → lookup c (remove conn slabs) ≡ some slab
          → lookup c slabs ≡ some slab
      kept c slab h = ground (arith, lookup-remove c conn slabs)

  pub next-IsPartitioned :
      (next' : ℕ)
      → next ≤ next'
      → IsPartitioned server buf next slabs
      → IsPartitioned server buf next' slabs
  next-IsPartitioned next' le p = record {
    within = λ c slab h. let (w, b) = p.within c slab h in (w, omega (arith, b, le));
    apart = p.apart;
  }

  new_or_old :
      (c : ℕ) (slab : ℕ × ℕ)
      → lookup c (insert conn fresh slabs) ≡ some slab
      → ((c ≡ conn) × (slab ≡ fresh)) ⊎ (lookup c slabs ≡ some slab)
  new_or_old c slab h = elim (ℕ_discrete c conn) [
    | yes e ↦ inl (e, ground (arith, h, e, lookup-insert c conn fresh slabs))
    | no ne ↦ inr (ground (arith, h, ne, lookup-insert c conn fresh slabs))
  ]

  -- A slab that is fresh is beyond all others.
  beyond :
      (c : ℕ) (slab slab' : ℕ × ℕ)
      → IsPartitioned server buf next slabs
      → lookup c slabs ≡ some slab
      → slab' ≡ fresh
      → slab.0 + slab.1 ≤ slab'.0
  beyond c slab slab' p h f = rw f ((p.within c slab h).1)

  fresh-IsWithin :
      (slab : ℕ × ℕ)
      → next + server.pages_per_client ≤ server.max_pages
      → slab ≡ fresh
      → IsWithin buf server.max_pages (server.pages_per_client * page_size) slab
        × (slab.0 + slab.1 ≤ buf + (next + server.pages_per_client) * page_size)
  fresh-IsWithin slab fits f =
      rw f (record { sized = refl; above = omega arith; below = omega (arith, fits) }, omega arith)

  pub insert-IsPartitioned :
      next + server.pages_per_client ≤ server.max_pages
      → IsPartitioned server buf next slabs
      → IsPartitioned server buf (next + server.pages_per_client) (insert conn fresh slabs)
  insert-IsPartitioned fits p = record {
    within = λ c slab h. elim (new_or_old c slab h) [
      | inl (e, f) ↦ fresh-IsWithin slab fits f
      | inr old ↦ let (w, b) = p.within c slab old in (w, omega (arith, b))
    ];
    apart = λ c c' slab slab' ne h h'. elim (new_or_old c slab h) [
      | inl (e, f) ↦ elim (new_or_old c' slab' h') [
        | inl (e', f') ↦ absurd (ne (e ∙ sym e'))
        | inr old' ↦ inr (beyond c' slab' slab p old' f)
      ]
      | inr old ↦ elim (new_or_old c' slab' h') [
        | inl (e', f') ↦ inl (beyond c slab slab' p old f')
        | inr old' ↦ p.apart c c' slab slab' ne old old'
      ]
    ];
  }
