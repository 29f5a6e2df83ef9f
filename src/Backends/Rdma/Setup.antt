-- ===== src/Backends/Rdma/Setup.antt =====
-- `init` and `shutdown` of the RDMA backend: the connection is set up in steps, and an error releases
-- by hand what the steps before it acquired.
pub mod Balance
use distributed_uvm.Prelude.{
  ℕ, Bool, true, false, Option, none, some, List, [], ◌∷◌, ◌==◌, if◌then◌else◌,
}
use distributed_uvm.Prelude.Outcome.{
  Outcome, Error, ok, err, panic, io_failed, refused, bad_address, bad_data, not_connected,
}
use distributed_uvm.Backends.Trait.{BackendConfig}
use distributed_uvm.Backends.Rdma.{RdmaBackend, RdmaState}
use distributed_uvm.Backends.Rdma.Resources.{
  Resource, channel, id, event, domain, queue, buffer, region, State, Action, ◌>>=◌, ◌>>◌, pure,
  bail, acquire, attempt, release,
}

-- `RdmaHandshake`, without padding.
pub record RdmaHandshake : Type 0 where
  pub rkey : ℕ
  pub addr : ℕ
  pub size : ℕ

-- What `init` calls. `free` is the function that gives a resource of the kind back; the kind of the
-- event and its private data (none where it is too short) are those of the event at hand.
pub record Library (W : Type 0) : Type 0 where
  pub rdma_available : W → Bool
  pub create_event_channel : W → W × Bool
  pub create_id : W → W × Bool
  pub resolve_addr : ℕ → ℕ → W → W × Bool
  pub resolve_route : W → W × Bool
  pub poll : ℕ → W → W × Bool
  pub get_cm_event : W → W × Bool
  pub event_kind : W → ℕ
  pub private_data : W → Option RdmaHandshake
  pub alloc_pd : W → W × Bool
  pub create_cq : W → W × Bool
  pub mmap : W → W × Bool
  pub reg_mr : W → W × Bool
  pub create_qp : W → W × Bool
  pub connect : W → W × Bool
  pub disconnect : W → W
  pub free : Resource → W → W

abbrev pub event_addr_resolved : ℕ
event_addr_resolved = 0

abbrev pub event_route_resolved : ℕ
event_route_resolved = 2

abbrev pub event_established : ℕ
event_established = 9

-- The backend's address as `init` parses it: a port and an IPv4 address.
pub record Address : Type 0 where
  pub port : Option ℕ
  pub ip : Option ℕ

abbrev pub port_or_default : Address → ℕ
port_or_default a = elim a.port [ none ↦ 9200 | some port ↦ port ]

-- What is held before the memory is set up, and at the end, the newest first.
abbrev pub of_address : List Resource
of_address = id ∷ channel ∷ []

abbrev pub of_connection : List Resource
of_connection = region ∷ buffer ∷ queue ∷ domain ∷ of_address

module _ {W : Type 0} (lib : Library W) where
  -- The caller's clean-up after an error is an argument.
  unfoldable pub wait_cm_event : ℕ → List Resource → Action W (Unit {0})
  wait_cm_event timeout_ms cleanup = do
    attempt lib.free (lib.poll timeout_ms) cleanup io_failed
    acquire lib.free lib.get_cm_event event cleanup io_failed

  -- An event of another kind is an error; so far nothing is acknowledged.
  unfoldable pub expect_event : ℕ → List Resource → Action W (Unit {0})
  expect_event kind cleanup s =
      if lib.event_kind s.world == kind
      then (s, ok tt)
      else bail lib.free (event ∷ cleanup) refused s

  unfoldable pub open_id : Action W (Unit {0})
  open_id = do
    λ s. if lib.rdma_available s.world then (s, ok tt) else bail lib.free [] io_failed s
    acquire lib.free lib.create_event_channel channel [] io_failed
    acquire lib.free lib.create_id id (channel ∷ []) io_failed

  -- The address that does not parse returns at once.
  unfoldable pub parse_ip : Address → Action W ℕ
  parse_ip a = elim a.ip [ none ↦ bail lib.free [] bad_address | some ip ↦ pure ip ]

  unfoldable pub resolve_address : Address → Action W (Unit {0})
  resolve_address a = do
    ip ← parse_ip a
    attempt lib.free (lib.resolve_addr ip (port_or_default a)) of_address io_failed
    wait_cm_event 5000 of_address
    expect_event event_addr_resolved of_address
    release lib.free event

  unfoldable pub resolve_route : Action W (Unit {0})
  resolve_route = do
    attempt lib.free lib.resolve_route of_address io_failed
    wait_cm_event 5000 of_address
    expect_event event_route_resolved of_address
    release lib.free event

  unfoldable pub create_memory : Action W (Unit {0})
  create_memory = do
    acquire lib.free lib.alloc_pd domain of_address io_failed
    acquire lib.free lib.create_cq queue (domain ∷ of_address) io_failed
    acquire lib.free lib.mmap buffer (queue ∷ domain ∷ of_address) io_failed
    acquire lib.free lib.reg_mr region (buffer ∷ queue ∷ domain ∷ of_address) io_failed
    attempt lib.free lib.create_qp of_connection io_failed

  -- The private data of the event, which is read before the acknowledgement.
  unfoldable pub read_handshake : Action W RdmaHandshake
  read_handshake s = elim (lib.private_data s.world) [
    | none ↦ bail lib.free (event ∷ of_connection) bad_data s
    | some handshake ↦ (s, ok handshake)
  ]

  unfoldable pub connect : Action W RdmaHandshake
  connect = do
    attempt lib.free lib.connect of_connection io_failed
    wait_cm_event 10000 of_connection
    expect_event event_established of_connection
    handshake ← read_handshake
    release lib.free event
    pure handshake

  unfoldable pub set_up : Address → Action W RdmaHandshake
  set_up a = do open_id; resolve_address a; resolve_route; create_memory; connect

  -- The end of `init`; the state that the mutex held before is overwritten.
  unfoldable pub finish :
      RdmaBackend → State W × Outcome RdmaHandshake → State W × RdmaBackend × Outcome (Unit {0})
  finish b (s, err x) = (s, b, err x)
  finish b (s, panic) = (s, b, panic)
  finish b (s, ok handshake) = (
    s,
    record b {
      state = some (record {
        remote_addr = handshake.addr;
        remote_rkey = handshake.rkey;
        remote_size = handshake.size;
      });
    },
    ok tt,
  )

  unfoldable pub init :
      Address → BackendConfig → RdmaBackend → State W → State W × RdmaBackend × Outcome (Unit {0})
  init a config b s = finish (record b { max_pages = config.max_pages }) (set_up a s)

  unfoldable pub shut_down : Action W (Unit {0})
  shut_down = do
    λ s. (record s { world = lib.disconnect s.world }, ok tt)
    release lib.free region
    release lib.free queue
    release lib.free domain
    release lib.free buffer
    release lib.free id
    release lib.free channel

  unfoldable pub shutdown : RdmaBackend → State W → State W × RdmaBackend × Outcome (Unit {0})
  shutdown b s = elim b.state [
    | none ↦ (s, b, ok tt)
    | some state ↦ let (s', r) = shut_down s in (s', record b { state = none }, ok tt)
  ]
