-- ===== src/Backends/RdmaServer.antt =====
-- crates/duvm-backend-rdma/src/server.rs: the RDMA memory server. It registers one buffer and gives each
-- client a slab of it. The libraries are parameters, as for the client; a connection is named by the
-- address of its id. Sizes and addresses are 64-bit and wrap.
pub mod Balance
pub mod Slabs
use distributed_uvm.Prelude.{
  ℕ, zero, suc, ◌+◌, ◌*◌, ◌%◌, ◌^◌, Bool, true, false, Option, none, some, List, [], ◌∷◌, ltb, ◌==◌,
  if◌then◌else◌,
}
use distributed_uvm.Prelude.HashMap.{HashMap, lookup, insert, remove}
use distributed_uvm.Prelude.Outcome.{Outcome, Error, ok, err, panic, io_failed, full}
use distributed_uvm.Common.Page.{page_size}
use distributed_uvm.Backends.Rdma.Setup.{RdmaHandshake}
use distributed_uvm.Backends.Rdma.Resources.{
  Resource, channel, id, event, shared_domain, buffer, region, connection, connection_queue,
  connection_pair, Ledger, State, Action, ◌>>=◌, ◌>>◌, pure, bail, acquire, attempt, release,
}

abbrev pub event_connect_request : ℕ
event_connect_request = 4

abbrev pub event_established : ℕ
event_established = 9

abbrev pub event_disconnected : ℕ
event_disconnected = 10

-- `MADV_POPULATE_WRITE` and `MADV_DONTNEED`
pub data Advice : Type 0 where
  populate_write dont_need : Advice

-- What the server calls. The kind and the connection are those of the event at hand; `buffer_address`
-- and `rkey` are what mmap and `ibv_reg_mr` returned. `destroy_id_returns` is whether `rdma_destroy_id`
-- returns for a connection with an event that is not acknowledged: it is documented to wait for that.
-- The event of a request belongs to the listening id.
pub record Library (W : Type 0) : Type 0 where
  pub rdma_available : W → Bool
  pub running : W → Bool
  pub create_event_channel : W → W × Bool
  pub create_id : W → W × Bool
  pub bind_addr : ℕ → W → W × Bool
  pub listen : W → W × Bool
  pub get_cm_event : W → W × Bool
  pub event_kind : W → ℕ
  pub event_id : W → ℕ
  pub has_verbs : ℕ → W → Bool
  pub alloc_pd : W → W × Bool
  pub mmap : ℕ → W → W × Bool
  pub buffer_address : W → ℕ
  pub reg_mr : W → W × Bool
  pub rkey : W → ℕ
  pub madvise : Advice → ℕ → ℕ → W → W
  pub create_cq : ℕ → W → W × Bool
  pub create_qp : ℕ → W → W × Bool
  pub accept : ℕ → RdmaHandshake → W → W × Bool
  pub disconnect : ℕ → W → W
  pub destroy_id_returns : ℕ → W → Bool
  pub free : Resource → W → W

pub record RdmaMemServer : Type 0 where
  pub max_pages : ℕ
  pub pages_per_client : ℕ
  pub port : ℕ

-- `ServerResources`: the address and the key of the buffer.
pub record ServerResources : Type 0 where
  pub buf : ℕ
  pub rkey : ℕ

-- The variables of `run`. A slab is its address and its size.
pub record Variables : Type 0 where
  pub resources : Option ServerResources
  pub next_client_offset : ℕ
  pub conn_cqs : HashMap (Unit {0})
  pub conn_slabs : HashMap (ℕ × ℕ)

abbrev pub no_variables : Variables
no_variables = record { resources = none; next_client_offset = 0; conn_cqs = []; conn_slabs = [] }

module _ {W : Type 0} (lib : Library W) (server : RdmaMemServer) where
  unfoldable pub init_resources : ℕ → Action W ServerResources
  init_resources conn = do
    λ s. if lib.has_verbs conn s.world then (s, ok tt) else bail lib.free [] io_failed s
    acquire lib.free lib.alloc_pd shared_domain [] io_failed
    acquire lib.free (lib.mmap (server.max_pages * page_size % 2 ^ 64)) buffer (shared_domain ∷ [])
        io_failed
    acquire lib.free lib.reg_mr region (buffer ∷ shared_domain ∷ []) io_failed
    λ s. (s, ok (record { buf = lib.buffer_address s.world; rkey = lib.rkey s.world }))

  -- `client_offset_pages` is the value that `fetch_add` returned. The sum wraps.
  unfoldable pub handle_connect : ServerResources → ℕ → ℕ → Action W (ℕ × ℕ)
  handle_connect res conn client_offset_pages =
      let client_addr = (res.buf + client_offset_pages * page_size % 2 ^ 64) % 2 ^ 64 in
      let client_size = server.pages_per_client * page_size % 2 ^ 64 in
      if ltb server.max_pages ((client_offset_pages + server.pages_per_client) % 2 ^ 64)
      then bail lib.free (connection conn ∷ []) full
      else (do
        λ s.
            (record s { world = lib.madvise populate_write client_addr client_size s.world }, ok tt)
        acquire lib.free (lib.create_cq conn) (connection_queue conn) (connection conn ∷ [])
            io_failed
        acquire lib.free (lib.create_qp conn) (connection_pair conn)
            (connection_queue conn ∷ connection conn ∷ []) io_failed
        attempt lib.free
            (lib.accept conn (record { rkey = res.rkey; addr = client_addr; size = client_size }))
            (connection_queue conn ∷ connection conn ∷ []) io_failed
        pure (client_addr, client_size))

  -- A connection request once there are resources.
  unfoldable pub connect_client : ServerResources → ℕ → Variables → State W → State W × Variables
  connect_client res conn v s =
      let v' : Variables = record v {
        next_client_offset = (v.next_client_offset + server.pages_per_client) % 2 ^ 64;
      } in
      let (s', r) = handle_connect res conn v.next_client_offset s in
      elim r [
        | ok slab ↦ (
          s',
          record v' {
            conn_cqs = insert conn tt v.conn_cqs;
            conn_slabs = insert conn slab v.conn_slabs;
          },
        )
        | _ ↦ (s', v')
      ]

  unfoldable pub acknowledge : State W × Variables → State W × Variables
  acknowledge (s, v) = ((release lib.free event s).0, v)

  -- The id of a requested connection comes with the event.
  unfoldable pub connect_request : ℕ → Variables → State W → State W × Variables
  connect_request conn v s =
      let s : State W = record s {
        ledger = record (s.ledger) { held = connection conn ∷ s.ledger.held };
      } in
      elim v.resources [
        | some res ↦ acknowledge (connect_client res conn v s)
        | none ↦
            let (s', r) = init_resources conn s in
            elim r [
              | ok res ↦
                  acknowledge (connect_client res conn (record v { resources = some res }) s')
              | _ ↦ ((release lib.free (connection conn) (release lib.free event s').0).0, v)
            ]
      ]

  -- The id is destroyed before the event is acknowledged.
  unfoldable pub disconnected : ℕ → Variables → State W → Option (State W × Variables)
  disconnected conn v s =
      let (s, v) : State W × Variables = elim (lookup conn v.conn_slabs) [
        | none ↦ (s, v)
        | some slab ↦ (
          record s { world = lib.madvise dont_need slab.0 slab.1 s.world },
          record v { conn_slabs = remove conn v.conn_slabs },
        )
      ] in
      let s : State W = record s { world = lib.disconnect conn s.world } in
      let (s, v) : State W × Variables = elim (lookup conn v.conn_cqs) [
        | none ↦ (s, v)
        | some q ↦ (
          (release lib.free (connection_queue conn) s).0,
          record v { conn_cqs = remove conn v.conn_cqs },
        )
      ] in
      if lib.destroy_id_returns conn s.world
      then some (acknowledge ((release lib.free (connection conn) s).0, v))
      else none

  unfoldable pub handle_event : ℕ → ℕ → Variables → State W → Option (State W × Variables)
  handle_event kind conn v s =
      if kind == event_connect_request
      then some (connect_request conn v s)
      else if kind == event_established
      then some (acknowledge (s, v))
      else if kind == event_disconnected
      then disconnected conn v s
      else some (acknowledge (s, v))

  unfoldable pub open_listener : Action W (Unit {0})
  open_listener = do
    λ s. if lib.rdma_available s.world then (s, ok tt) else bail lib.free [] io_failed s
    acquire lib.free lib.create_event_channel channel [] io_failed
    acquire lib.free lib.create_id id (channel ∷ []) io_failed
    attempt lib.free (lib.bind_addr server.port) (id ∷ channel ∷ []) io_failed
    attempt lib.free lib.listen (id ∷ channel ∷ []) io_failed

  -- The loop ends when the server is stopped or an event cannot be had, so it runs on fuel. It has
  -- no result either where a handler does not return.
  unfoldable pub event_loop : ℕ → Variables → State W → Option (State W × Variables)
  event_loop zero v s = none
  event_loop (suc fuel) v s =
      let (w, success) = lib.get_cm_event s.world in
      let s' : State W = record {
        world = w;
        ledger = record (s.ledger) { held = event ∷ s.ledger.held };
      } in
      let rest : Option (State W × Variables) =
        elim (handle_event (lib.event_kind w) (lib.event_id w) v s') [
          | none ↦ none
          | some (s'', v') ↦ event_loop fuel v' s''
        ] in
      if lib.running s.world
      then if success then rest else some (record s { world = w }, v)
      else some (s, v)

  destroy_queues : HashMap (Unit {0}) → State W → State W
  destroy_queues [] s = s
  destroy_queues ((conn, q) ∷ qs) s =
      destroy_queues qs (release lib.free (connection_queue conn) s).0

  unfoldable pub clean_up : Variables → State W → State W
  unfolding destroy_queues
  clean_up v s =
      let s = destroy_queues v.conn_cqs s in
      let s : State W = elim v.resources [
        | none ↦ s
        | some res ↦
            (release lib.free shared_domain
              (release lib.free buffer (release lib.free region s).0).0).0
      ] in
      (release lib.free channel (release lib.free id s).0).0

  unfoldable pub run : ℕ → State W → Option (State W × Outcome (Unit {0}))
  run fuel s =
      let (s', r) = open_listener s in
      elim r [
        | err x ↦ some (s', err x)
        | panic ↦ some (s', panic)
        | ok u ↦ elim (event_loop fuel no_variables s') [
          | none ↦ none
          | some (s'', v) ↦ some (clean_up v s'', ok tt)
        ]
      ]
