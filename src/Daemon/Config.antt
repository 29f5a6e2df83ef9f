-- ===== src/Daemon/Config.antt =====
-- crates/duvm-daemon/src/config.rs: the configuration of the daemon. The file system and the TOML parser
-- are parameters; what goes to the log is left out.
pub mod Valid
use Prim.Native.String.{String}
use text.Mathlib.TextEquality.{eq_iff}
use text.Mathlib.Text.{◌==◌ as str_eq}
use distributed_uvm.Prelude.{
  ℕ, ◌≡◌, ◌<◌, refl, sym, ◌∙◌, ap, Bool, true, false, ◌&&◌, Option, none, some, List, arith,
  Option-cases, Bool-cases, inl, inr, if◌then◌else◌, ◌==◌, ◌↔◌,
}
use distributed_uvm.Prelude.Outcome.{Outcome, Outcome-cases, ok, err, invalid_config}

pub record DaemonSection : Type 0 where
  pub log_level : String
  pub socket_path : String
  pub metrics_port : ℕ

pub record PolicySection : Type 0 where
  pub strategy : String
  pub prefetch_depth : ℕ

pub record MemoryBackendConfig : Type 0 where
  pub enabled : Bool
  pub max_pages : ℕ

pub record CompressBackendConfig : Type 0 where
  pub enabled : Bool
  pub max_pages : ℕ

pub record RemoteBackendConfig : Type 0 where
  pub enabled : Bool
  pub transport : String
  pub peers : List String
  pub max_pages_per_peer : ℕ

pub record BackendsSection : Type 0 where
  pub memory : Option MemoryBackendConfig
  pub compress : Option CompressBackendConfig
  pub remote : Option RemoteBackendConfig

pub record DaemonConfig : Type 0 where
  pub daemon : DaemonSection
  pub policy : PolicySection
  pub backends : BackendsSection

abbrev pub default_log_level : String
default_log_level = "info"

abbrev pub default_socket_path : String
default_socket_path = "/run/duvm/duvm.sock"

abbrev pub default_metrics_port : ℕ
default_metrics_port = 9100

abbrev pub default_strategy : String
default_strategy = "lru"

abbrev pub default_prefetch_depth : ℕ
default_prefetch_depth = 4

abbrev pub default_max_pages : ℕ
default_max_pages = 262144

abbrev pub default_daemon : DaemonSection
default_daemon = record {
  log_level = default_log_level;
  socket_path = default_socket_path;
  metrics_port = default_metrics_port;
}

abbrev pub default_policy : PolicySection
default_policy = record { strategy = default_strategy; prefetch_depth = default_prefetch_depth }

abbrev pub default_backends : BackendsSection
default_backends = record {
  memory = some (record { enabled = true; max_pages = default_max_pages });
  compress = some (record { enabled = true; max_pages = default_max_pages });
  remote = none;
}

abbrev pub default_config : DaemonConfig
default_config = record {
  daemon = default_daemon;
  policy = default_policy;
  backends = default_backends;
}

-- Whether a section has a backend that is enabled and can hold no page.
abbrev pub memory_is_empty : Option MemoryBackendConfig → Bool
memory_is_empty none = false
memory_is_empty (some mem) = mem.enabled && (mem.max_pages == 0)

abbrev pub compress_is_empty : Option CompressBackendConfig → Bool
compress_is_empty none = false
compress_is_empty (some comp) = comp.enabled && (comp.max_pages == 0)

unfoldable pub validate : DaemonConfig → Outcome (Unit {0})
validate config =
    if memory_is_empty config.backends.memory
    then err invalid_config
    else if compress_is_empty config.backends.compress
    then err invalid_config
    else if str_eq config.policy.strategy "lru"
    then ok tt
    else err invalid_config

-- `Path::exists`, `read_to_string` and the TOML parser.
pub record Files : Type 0 where
  pub exists : String → Bool
  pub read : String → Option String
  pub parse : String → Option DaemonConfig

unfoldable pub load_or_default : Files → String → DaemonConfig
load_or_default files path =
    if files.exists path
    then elim (files.read path) [
      | none ↦ default_config
      | some content ↦ elim (files.parse content) [
        | none ↦ default_config
        | some config ↦ elim (validate config) [ ok _ ↦ config | _ ↦ default_config ]
      ]
    ]
    else default_config

unfoldable pub apply_cli_overrides : Option String → Option String → DaemonConfig → DaemonConfig
apply_cli_overrides socket_path log_level config =
    let config : DaemonConfig = elim socket_path [
      | none ↦ config
      | some path ↦ record config { daemon = record (config.daemon) { socket_path = path } }
    ] in
    elim log_level [
      | none ↦ config
      | some level ↦ record config { daemon = record (config.daemon) { log_level = level } }
    ]

-- `Args` of crates/duvm-daemon/src/main.rs, what `main` reads once the log is set up.
pub record Args : Type 0 where
  pub config : String
  pub uffd_mode : Bool
  pub socket : String
  pub kmod_ctl : String

-- The configuration of the engine that consumes the kernel's rings, and of the engine that `main`
-- falls back to.
unfoldable pub kmod_config : Files → Args → DaemonConfig
kmod_config files args =
    apply_cli_overrides
      (if str_eq args.socket "/run/duvm/duvm.sock" then none else some args.socket) none
      (load_or_default files args.config)
