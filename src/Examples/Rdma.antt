-- ===== src/Examples/Rdma.antt =====
-- The set-up of RDMA connections, and the RDMA server.
use distributed_uvm.Prelude.{ℕ, refl, true, none, some, [], ◌∷◌, arith}
use distributed_uvm.Backends.Trait.{BackendConfig}
use distributed_uvm.Backends.Rdma.Resources.{Ledger, State, event}
use distributed_uvm.Backends.Rdma.Setup.{RdmaHandshake, Address, init}
use distributed_uvm.Backends.Rdma.Setup as Setup
use distributed_uvm.Backends.RdmaServer.{
  Library, RdmaMemServer, Variables, no_variables, connect_request, handle_event,
  event_connect_request,
}
use distributed_uvm.Backends.RdmaServer.Slabs.{Reach, start, later, Inv}
use distributed_uvm.Backends.RdmaServer.Slabs.Steps.{InSpace, slabs-Inv}
use distributed_uvm.Backends.RdmaServer.Balance.{Visited, connect_request-Visited}

-- A client's library in which the connection manager's events come in order, counted by the world.
abbrev client : Setup.Library ℕ
client = record {
  rdma_available = λ w. true;
  create_event_channel = λ w. (w, true);
  create_id = λ w. (w, true);
  resolve_addr = λ ip port w. (0, true);
  resolve_route = λ w. (2, true);
  poll = λ timeout w. (w, true);
  get_cm_event = λ w. (w, true);
  event_kind = λ w. w;
  private_data = λ w. some (record { rkey = 5; addr = 4096; size = 8192 });
  alloc_pd = λ w. (w, true);
  create_cq = λ w. (w, true);
  mmap = λ w. (w, true);
  reg_mr = λ w. (w, true);
  create_qp = λ w. (w, true);
  connect = λ w. (9, true);
  disconnect = λ w. w;
  free = λ r w. w;
}

abbrev nothing : Ledger
nothing = record { held = []; misused = 0 }

abbrev address : Address
address = record { port = none; ip = some 7 }

abbrev config : BackendConfig
config = record { max_pages = 2 }

abbrev idle : State ℕ
idle = record { world = 0; ledger = nothing }

-- A server's library in which every call succeeds.
abbrev host : Library ℕ
host = record {
  rdma_available = λ w. true;
  running = λ w. true;
  create_event_channel = λ w. (w, true);
  create_id = λ w. (w, true);
  bind_addr = λ port w. (w, true);
  listen = λ w. (w, true);
  get_cm_event = λ w. (w, true);
  event_kind = λ w. w;
  event_id = λ w. w;
  has_verbs = λ conn w. true;
  alloc_pd = λ w. (w, true);
  mmap = λ size w. (w, true);
  buffer_address = λ w. 65536;
  reg_mr = λ w. (w, true);
  rkey = λ w. 5;
  madvise = λ advice addr size w. w;
  create_cq = λ conn w. (w, true);
  create_qp = λ conn w. (w, true);
  accept = λ conn handshake w. (w, true);
  disconnect = λ conn w. w;
  destroy_id_returns = λ conn w. true;
  free = λ r w. w;
}

abbrev server : RdmaMemServer
server = record { max_pages = 8; pages_per_client = 2; port = 4791 }

-- The variables after a request.
abbrev first : Variables
first = (connect_request host server 1 no_variables idle).1

abbrev second : Variables
second = (connect_request host server 2 first idle).1

host-InSpace : InSpace host server
host-InSpace = record { sized = omega arith; mapping = λ w. omega arith }

second_reached : Reach host server 2 second
unfolding handle_event
second_reached =
    later event_connect_request 2 idle (connect_request host server 2 first idle).0
      (later event_connect_request 1 idle (connect_request host server 1 no_variables idle).0 start
        refl)
      refl

slabs-Inv_example : Inv server 2 second
slabs-Inv_example = slabs-Inv host server 2 second second_reached host-InSpace (omega arith)

abbrev ready : Variables
ready = record no_variables { resources = some (record { buf = 65536; rkey = 5 }) }

abbrev arrived : State ℕ
arrived = record { world = 0; ledger = record { held = event ∷ []; misused = 0 } }

connect_request-Visited_example : Visited host server 1 nothing ready arrived
connect_request-Visited_example =
    connect_request-Visited host server 1 nothing (record { buf = 65536; rkey = 5 }) ready arrived
      refl refl refl
