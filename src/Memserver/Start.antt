-- ===== src/Memserver/Start.antt =====
-- `main` of crates/duvm-memserver/src/main.rs before it accepts: what the arguments come to. Splitting the
-- address at its colons and parsing a port are parameters.
use Prim.Native.String.{String}
use distributed_uvm.Prelude.{
  ℕ, ◌+◌, ◌%◌, ◌^◌, ◌≡◌, ◌≢◌, ◌<◌, Bool, Option, none, some, arith, ltb, if◌then◌else◌,
}
use distributed_uvm.Backends.RdmaServer.{RdmaMemServer}
use distributed_uvm.Memserver.{PageStore, new_store}

-- `Args`.
pub record Args : Type 0 where
  pub bind : String
  pub max_pages : ℕ
  pub rdma : Bool
  pub rdma_pages_per_client : ℕ
  pub rdma_port : Option ℕ
  pub max_connections : ℕ
  pub idle_timeout : ℕ

-- `split(':').next_back()` and the parser of a `u16`.
pub record Parsers : Type 0 where
  pub last_part : String → Option String
  pub parse_u16 : String → Option ℕ

-- What the thread for RDMA and the loop over the connections run with.
pub record Listener : Type 0 where
  pub rdma : Option RdmaMemServer
  pub store : PageStore
  pub max_conns : ℕ
  pub idle_timeout : Option ℕ

abbrev pub unwrap_or {ℓ} : {A : Type ℓ} → A → Option A → A
unwrap_or d none = d
unwrap_or d (some a) = a

module _ (parsers : Parsers) where
  unfoldable pub tcp_port : String → ℕ
  tcp_port bind = unwrap_or 9200 (parsers.parse_u16 (unwrap_or "9200" (parsers.last_part bind)))

  -- The sum of two `u16` wraps in a release build.
  unfoldable pub rdma_port : Args → ℕ
  rdma_port args = unwrap_or ((tcp_port args.bind + 1) % 2 ^ 16) args.rdma_port

  unfoldable pub start : Args → Listener
  start args = record {
    rdma =
        if args.rdma
        then some (record {
          port = rdma_port args;
          max_pages = args.max_pages;
          pages_per_client = args.rdma_pages_per_client;
        })
        else none;
    store = new_store args.max_pages;
    max_conns = args.max_connections;
    idle_timeout = if ltb 0 args.idle_timeout then some args.idle_timeout else none;
  }

  -- The port that is chosen for RDMA is not the port for TCP, though a port that is given may be.
  pub rdma_port-apart :
      (args : Args)
      → args.rdma_port ≡ none
      → tcp_port args.bind < 2 ^ 16
      → rdma_port args ≢ tcp_port args.bind
  rdma_port-apart args chosen port e =
      let wrapped : (tcp_port args.bind + 1) % 2 ^ 16 ≡ tcp_port args.bind =
        unfold rdma_port in ground (arith, e, chosen) in
      omega (arith, wrapped, port)
