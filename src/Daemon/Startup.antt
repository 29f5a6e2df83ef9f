-- ===== src/Daemon/Startup.antt =====
-- crates/duvm-daemon/src/engine.rs: `Engine::new`, which makes the backends that the configuration asks
-- for. What a backend does when it is made and initialised is a parameter.
pub mod Kinds
pub mod Local
pub mod Numbered
use Prim.Native.String.{String}
use text.Mathlib.Text.{◌==◌ as str_eq}
use distributed_uvm.Prelude.{
  ℕ, ◌+◌, ◌%◌, ◌^◌, Bool, true, false, not, ◌&&◌, ◌||◌, Option, none, some, List, [], ◌∷◌,
  if◌then◌else◌,
}
use distributed_uvm.Prelude.Outcome.{Outcome, ok, err, panic, no_candidate}
use distributed_uvm.Prelude.HashMap.{HashMap, insert}
use distributed_uvm.Prelude.Method.{Method, ◌>>=◌, ◌>>◌, pure, throw, or_else}
use distributed_uvm.Daemon.Config.{
  DaemonConfig, MemoryBackendConfig, CompressBackendConfig, RemoteBackendConfig,
}
use distributed_uvm.Daemon.Engine.{Engine, with_backends}

-- `new` and then `init` of each kind of backend: the id, the peer, the pages, and the world around.
pub record Makers (W B : Type 0) : Type 0 where
  pub memory : ℕ → ℕ → W → W × Outcome B
  pub compress : ℕ → ℕ → W → W × Outcome B
  pub rdma : ℕ → String → ℕ → W → W × Outcome B
  pub tcp : ℕ → String → ℕ → W → W × Outcome B
  pub is_rdma_available : W → Bool

-- The variables of `new`.
pub record Building (W B : Type 0) : Type 0 where
  pub world : W
  pub backends : HashMap B
  pub next_id : ℕ

-- The loops over the transports: `match transport { ... }`.
unfoldable pub uses_rdma : String → Bool → Bool
uses_rdma transport rdma_available =
    if str_eq transport "rdma"
    then true
    else if str_eq transport "tcp"
    then false
    else if str_eq transport "auto"
    then rdma_available
    else if str_eq transport "both"
    then true
    else false

unfoldable pub uses_tcp : String → Bool → Bool
uses_tcp transport rdma_available =
    if str_eq transport "rdma"
    then false
    else if str_eq transport "tcp"
    then true
    else if str_eq transport "auto"
    then not rdma_available
    else if str_eq transport "both"
    then true
    else true

abbrev pub falls_back : String → Bool
falls_back transport = str_eq transport "auto" || str_eq transport "both"

module _ {W B : Type 0} (makers : Makers W B) where
  -- Make a backend under the next id. The id is a `u8`, which wraps in a release build.
  unfoldable pub add : (ℕ → W → W × Outcome B) → Method (Building W B) (Unit {0})
  add make s =
      let (w, r) = make s.next_id s.world in
      elim r [
        | ok backend ↦ (
          record {
            world = w;
            backends = insert s.next_id backend s.backends;
            next_id = (s.next_id + 1) % 2 ^ 8;
          },
          ok tt,
        )
        | err x ↦ (record s { world = w }, err x)
        | panic ↦ (record s { world = w }, panic)
      ]

  unfoldable pub add_memory : Option MemoryBackendConfig → Method (Building W B) (Unit {0})
  add_memory none = pure tt
  add_memory (some cfg) =
      if cfg.enabled then add (λ id. makers.memory id cfg.max_pages) else pure tt

  unfoldable pub add_compress : Option CompressBackendConfig → Method (Building W B) (Unit {0})
  add_compress none = pure tt
  add_compress (some cfg) =
      if cfg.enabled then add (λ id. makers.compress id cfg.max_pages) else pure tt

  -- Whether TCP stands in for a connection by RDMA that failed.
  unfoldable pub add_rdma : String → ℕ → String → Method (Building W B) Bool
  add_rdma transport pages addr = or_else (add (λ id. makers.rdma id addr pages) >> pure false) (
      if falls_back transport
      then or_else (add (λ id. makers.tcp id addr pages) >> pure true) (pure false)
      else pure false)

  unfoldable pub add_peer : Bool → Bool → String → ℕ → String → Method (Building W B) (Unit {0})
  add_peer use_rdma use_tcp transport pages addr = do
    tcp_fallback_created ← (if use_rdma then add_rdma transport pages addr else pure false)
    (if use_tcp && not tcp_fallback_created
        then or_else (add (λ id. makers.tcp id addr pages)) (pure tt)
        else pure tt)

  unfoldable pub add_peers :
      Bool → Bool → String → ℕ → List String → Method (Building W B) (Unit {0})
  add_peers use_rdma use_tcp transport pages [] = pure tt
  add_peers use_rdma use_tcp transport pages (addr ∷ addrs) =
      add_peer use_rdma use_tcp transport pages addr
      >> add_peers use_rdma use_tcp transport pages addrs

  unfoldable pub add_remote : Option RemoteBackendConfig → Method (Building W B) (Unit {0})
  add_remote none s = (s, ok tt)
  add_remote (some cfg) s =
      if cfg.enabled
      then (let rdma_available = makers.is_rdma_available s.world in
          if str_eq cfg.transport "rdma" && not rdma_available
          then throw no_candidate s
          else add_peers (uses_rdma cfg.transport rdma_available)
              (uses_tcp cfg.transport rdma_available) cfg.transport cfg.max_pages_per_peer cfg.peers
              s)
      else (s, ok tt)

  unfoldable pub add_all : DaemonConfig → Method (Building W B) (Unit {0})
  add_all config = do
    add_memory config.backends.memory
    add_compress config.backends.compress
    add_remote config.backends.remote

  unfoldable pub new : DaemonConfig → Method W (Engine B)
  new config w =
      let (s, r) = add_all config (record { world = w; backends = []; next_id = 0 }) in
      elim r [
        | ok _ ↦ (s.world, ok (with_backends s.backends))
        | err x ↦ (s.world, err x)
        | panic ↦ (s.world, panic)
      ]
