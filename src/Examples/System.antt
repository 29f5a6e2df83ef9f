-- ===== src/Examples/System.antt =====
-- The start of the daemon, the control program, the C interface of the pool and userfaultfd.
use distributed_uvm.Prelude.{
  ℕ, ◌≡◌, ◌↔◌, refl, sym, ◌∙◌, Bool, true, false, none, some, [], ◌∷◌, arith,
}
use distributed_uvm.Prelude.Outcome.{ok, err, io_failed}
use distributed_uvm.Daemon.Config.{DaemonConfig, Files, Args, default_config, validate, kmod_config}
use distributed_uvm.Daemon.Config.Valid.{IsValid, validate_iff}
use distributed_uvm.Daemon.Engine.{Engine, with_backends}
use distributed_uvm.Prelude.HashMap.{insert}
use distributed_uvm.Daemon.Startup.{
  Makers, new, add_all, add_memory, add_compress, add_remote, add_peers, add_peer, add_rdma, add,
  uses_rdma, uses_tcp,
}
use distributed_uvm.Daemon.Startup.Kinds.{Kind, memory, compress, tcp, Tagged}
use distributed_uvm.Daemon.Startup.Numbered.{IsStarted, new-IsStarted, peer_count}
use distributed_uvm.Daemon.Program.{Devices, by_rings, main, Serves, main-Serves}
use distributed_uvm.Daemon.KmodRing.{Region}
use distributed_uvm.Backends.Trait.{DuvmBackend}
use distributed_uvm.Common.Page.{Tier}
use distributed_uvm.Prelude.{◌+◌, ◌*◌, ◌≤◌}
use distributed_uvm.Daemon.Config.{load_or_default, apply_cli_overrides}
use distributed_uvm.Ctl.{
  Command, modprobe, insmod, rmmod, mkswap, swapon, swapoff, start, stop, System, Node,
  is_module_loaded, is_swap_active, cmd_enable, cmd_disable, cmd_drain,
}
use distributed_uvm.Ctl.Rules.{Behaves, activates, unloads}
use distributed_uvm.Ctl.Order.{IsOrderly, cmd_disable-IsOrderly}
use distributed_uvm.Ctl.Effects.{IsEnabled, IsDisabled, IsDrained, Effect, commands-Effect}
use distributed_uvm.Daemon.Uffd.{Calls, Process, would_block, new as new_region}
use distributed_uvm.Daemon.Uffd.Region.{IsUndone, new-IsUndone}

abbrev broken : DaemonConfig
broken = record default_config { policy = record { strategy = "fifo"; prefetch_depth = 4 } }

abbrev files : Files
files = record {
  exists = λ path. true;
  read = λ path. some "a configuration";
  parse = λ content. some broken;
}

abbrev args : Args
args = record {
  config = "/etc/duvm/duvm.toml";
  uffd_mode = false;
  socket = "/tmp/duvm.sock";
  kmod_ctl = "/dev/duvm_ctl";
}

-- A backend is its id and its kind; the only peer cannot be reached by RDMA.
abbrev makers : Makers (Unit {0}) (ℕ × Kind)
makers = record {
  memory = λ id pages w. (w, ok (id, memory));
  compress = λ id pages w. (w, ok (id, compress));
  rdma = λ id addr pages w. (w, err io_failed);
  tcp = λ id addr pages w. (w, ok (id, tcp));
  is_rdma_available = λ w. true;
}

abbrev id_of : ℕ × Kind → ℕ
id_of b = b.0

abbrev kind_of : ℕ × Kind → Kind
kind_of b = b.1

makers-Tagged : Tagged makers id_of kind_of
makers-Tagged = record {
  memory_tag = λ id pages w b h. (ground (arith, h), ground (arith, h));
  compress_tag = λ id pages w b h. (ground (arith, h), ground (arith, h));
  rdma_tag = λ id addr pages w b h. absurd (ground (arith, h));
  tcp_tag = λ id addr pages w b h. (ground (arith, h), ground (arith, h));
}

abbrev two_ways : DaemonConfig
two_ways = record default_config {
  backends = record (default_config.backends) {
    remote = some (record {
      enabled = true;
      transport = "both";
      peers = "10.0.0.2:9200" ∷ [];
      max_pages_per_peer = 1024;
    });
  };
}

abbrev started : Engine (ℕ × Kind)
started = with_backends ((0, (0, memory)) ∷ (1, (1, compress)) ∷ (2, (2, tcp)) ∷ [])

starts : (new makers two_ways tt).1 ≡ ok started
unfolding new add_all add_memory add_compress add_remote add_peers add_peer add_rdma add uses_rdma
    uses_tcp insert
starts = refl

new-IsStarted_example : IsStarted makers two_ways id_of kind_of makers-Tagged started
new-IsStarted_example =
    new-IsStarted makers two_ways id_of kind_of makers-Tagged tt started (omega arith) starts

-- The same with a file that asks for the two ways, and a device that opens.
abbrev both_ways : Files
both_ways = record {
  exists = λ path. true;
  read = λ path. some "a configuration";
  parse = λ content. some two_ways;
}

abbrev rings : Region
rings = record {
  req_write = 0;
  req_read = 0;
  comp_write = 0;
  mask = 0;
  requests = [];
  completions = [];
  staging = [];
}

abbrev devices : Devices (Unit {0})
devices = record { open_ctl = λ path w. (w, ok rings); bind = λ path w. (w, ok tt) }

abbrev stub_ops : DuvmBackend (ℕ × Kind)
stub_ops = record {
  tier = λ b. Tier.local;
  init = λ b config. (b, ok tt);
  alloc_page = λ b. (b, err io_failed);
  free_page = λ b h. (b, ok tt);
  store_page = λ b h page. (b, err io_failed);
  load_page = λ b h. (b, err io_failed);
  capacity = λ b. (0, 0);
  latency_ns = λ b. 0;
  is_healthy = λ b. true;
  shutdown = λ b. (b, ok tt);
}

served : (main devices stub_ops [] makers both_ways args tt).1 ≡ ok (by_rings rings started)
unfolding main kmod_config load_or_default validate apply_cli_overrides new add_all add_memory
    add_compress add_remote add_peers add_peer add_rdma add uses_rdma uses_tcp insert
served = refl

few_peers : 2 + 2 * peer_count (kmod_config both_ways args).backends.remote ≤ 255
unfolding kmod_config load_or_default validate apply_cli_overrides
few_peers = omega arith

main-Serves_example :
    Serves devices stub_ops makers both_ways args id_of kind_of makers-Tagged []
      (by_rings rings started)
main-Serves_example =
    main-Serves devices stub_ops makers both_ways args id_of kind_of makers-Tagged [] tt
      (by_rings rings started) few_peers served

-- A node is whether the module is loaded and whether its swap area is in use. Every program ends well.
abbrev spawn : Command → Bool × Bool → Bool × Bool
spawn (modprobe mb) (l, a) = (true, a)
spawn (insmod path mb) (l, a) = (true, a)
spawn rmmod (l, a) = (false, a)
spawn mkswap (l, a) = (l, a)
spawn (swapon pri) (l, a) = (l, true)
spawn swapoff (l, a) = (l, false)
spawn (start name) (l, a) = (l, a)
spawn (stop name) (l, a) = (l, a)

abbrev node : System (Bool × Bool)
node = record {
  is_root = λ w. true;
  spawn = λ cmd w. (spawn cmd w, true);
  modules = λ w. some (elim w.0 [ true ↦ "duvm_kmod 16384 0" ∷ [] | false ↦ [] ]);
  swaps = λ w. some (elim w.1 [ true ↦ "/dev/duvm_swap0 partition" ∷ [] | false ↦ [] ]);
  is_active = λ name w. true;
  exists = λ path w. true;
  osrelease = λ w. none;
}

loaded_lem : (w : Bool × Bool) → is_module_loaded node w ≡ w.0
unfolding is_module_loaded
loaded_lem (true, a) = refl
loaded_lem (false, a) = refl

active_lem : (w : Bool × Bool) → is_swap_active node w ≡ w.1
unfolding is_swap_active
active_lem (l, true) = refl
active_lem (l, false) = refl

stays_off_lem :
    (cmd : Command) (w : Bool × Bool)
    → activates cmd ≡ false
    → w.1 ≡ false
    → (spawn cmd w).1 ≡ false
stays_off_lem (modprobe mb) w h e = e
stays_off_lem (insmod path mb) w h e = e
stays_off_lem rmmod w h e = e
stays_off_lem mkswap w h e = e
stays_off_lem (swapon pri) w h e = absurd (ground (arith, h))
stays_off_lem swapoff w h e = refl
stays_off_lem (start name) w h e = e
stays_off_lem (stop name) w h e = e

stays_loaded_lem :
    (cmd : Command) (w : Bool × Bool) → unloads cmd ≡ false → w.0 ≡ true → (spawn cmd w).0 ≡ true
stays_loaded_lem (modprobe mb) w h e = refl
stays_loaded_lem (insmod path mb) w h e = refl
stays_loaded_lem rmmod w h e = absurd (ground (arith, h))
stays_loaded_lem mkswap w h e = e
stays_loaded_lem (swapon pri) w h e = e
stays_loaded_lem swapoff w h e = e
stays_loaded_lem (start name) w h e = e
stays_loaded_lem (stop name) w h e = e

node-Behaves : Behaves node
node-Behaves = record {
  swapped_on = λ pri w h. active_lem (w.0, true);
  swapped_off = λ w h. active_lem (w.0, false);
  stays_off =
      λ cmd w h e. active_lem (spawn cmd w) ∙ stays_off_lem cmd w h (sym (active_lem w) ∙ e);
  probed = λ mb w h. loaded_lem (true, w.1);
  inserted = λ path mb w h. loaded_lem (true, w.1);
  removed = λ w h. loaded_lem (false, w.1);
  module_stays =
      λ cmd w h e. loaded_lem (spawn cmd w) ∙ stays_loaded_lem cmd w h (sym (loaded_lem w) ∙ e);
}

abbrev in_use : Node (Bool × Bool)
in_use = record { world = (true, true); commands = [] }

cmd_disable-IsOrderly_example : IsOrderly node (cmd_disable node in_use).0.commands
cmd_disable-IsOrderly_example = cmd_disable-IsOrderly node node-Behaves in_use tt

commands-Effect_example :
    Effect node (IsEnabled node) (cmd_enable node "100" 4096 in_use)
    × Effect node (IsDisabled node) (cmd_disable node in_use)
    × Effect node (IsDrained node) (cmd_drain node in_use)
commands-Effect_example = commands-Effect node node-Behaves "100" 4096 in_use

-- The descriptor is had, but the region cannot be registered.
abbrev calls : Calls (Unit {0})
calls = record {
  userfaultfd = λ w. (w, some 5);
  ioctl_api = λ fd w. (w, true);
  mmap = λ len w. (w, some 65536);
  ioctl_register = λ fd range w. (w, false);
  ioctl_copy = λ fd copy w. (w, true);
  read = λ fd w. (w, would_block);
  munmap = λ base len w. w;
  close = λ fd w. w;
}

abbrev process : Process (Unit {0})
process = record { world = tt; open_fds = 3; mapped = 1 }

new-IsUndone_example : IsUndone calls 5000 process (new_region calls 5000 process)
new-IsUndone_example = new-IsUndone calls 5000 process (omega arith)

validate_iff_example : (validate broken ≡ ok tt) ↔ IsValid broken
validate_iff_example = validate_iff broken
