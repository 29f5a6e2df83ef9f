-- ===== src/Ctl.antt =====
-- crates/duvm-ctl/src/main.rs: the commands of the control program that change the node. The system
-- commands and the files under /proc are parameters. Output and argument parsing are left out;
-- Client has the commands that ask the daemon.
pub mod Rules
pub mod Order
pub mod Effects
pub mod Client
use Prim.Native.String.{String, ◌++◌}
use text.Mathlib.Text.{starts_with, find?}
use distributed_uvm.Prelude.{
  ℕ, Bool, true, false, not, ◌||◌, Option, none, some, List, [], ◌∷◌, if◌then◌else◌,
}
use distributed_uvm.Prelude.Outcome.{
  Outcome, Error, ok, err, panic, io_failed, not_root, no_device, no_module_file,
}
use distributed_uvm.Prelude.Method.{Method, ◌>>=◌, ◌>>◌, pure, throw, or_else}

-- The programs that are run, with the arguments that vary; the priority is its text.
pub data Command : Type 0 where
  modprobe : ℕ → Command
  insmod : String → ℕ → Command
  rmmod : Command
  mkswap : Command
  swapon : String → Command
  swapoff : Command
  start stop : String → Command

-- `spawn` runs a program, and says whether it could be run and ended well. A file of /proc is its
-- lines, where it can be read; `osrelease` is trimmed.
pub record System (W : Type 0) : Type 0 where
  pub is_root : W → Bool
  pub spawn : Command → W → W × Bool
  pub modules : W → Option (List String)
  pub swaps : W → Option (List String)
  pub is_active : String → W → Bool
  pub exists : String → W → Bool
  pub osrelease : W → Option String

-- The world, and the programs run so far, the last one first, each with the world it was run in.
pub record Node (W : Type 0) : Type 0 where
  pub world : W
  pub commands : List (Command × W)

abbrev pub any_line : (String → Bool) → List String → Bool
any_line p [] = false
any_line p (l ∷ ls) = p l || any_line p ls

abbrev pub contains : String → String → Bool
contains l t = elim (find? l t) [ none ↦ false | some _ ↦ true ]

abbrev pub swap_device : String
swap_device = "/dev/duvm_swap0"

abbrev pub extra_path : String → String
extra_path kver = "/lib/modules/" ++ kver ++ "/extra/duvm-kmod.ko"

module _ {W : Type 0} (sys : System W) where
  abbrev pub Action : Type 0
  Action = Method (Node W) (Unit {0})

  unfoldable pub is_module_loaded : W → Bool
  is_module_loaded w = elim (sys.modules w) [
    | none ↦ false
    | some lines ↦ any_line (λ l. starts_with l "duvm_kmod ") lines
  ]

  unfoldable pub is_swap_active : W → Bool
  is_swap_active w = elim (sys.swaps w) [
    | none ↦ false
    | some lines ↦ any_line (λ l. contains l "duvm_swap") lines
  ]

  unfoldable pub run_ok : Command → Action
  run_ok cmd s =
      let (w, success) = sys.spawn cmd s.world in
      let s' : Node W = record { world = w; commands = (cmd, s.world) ∷ s.commands } in
      if success then (s', ok tt) else (s', err io_failed)

  unfoldable pub check_root : Action
  check_root s = if sys.is_root s.world then (s, ok tt) else (s, err not_root)

  -- A test of the world before a part of the code.
  unfoldable pub when : (W → Bool) → Action → Action
  when test action s = if test s.world then action s else (s, ok tt)

  -- A failure that is only reported.
  abbrev pub warn : Action → Action
  warn action = or_else action (pure tt)

  unfoldable pub find_kmod_path : Method (Node W) String
  find_kmod_path s =
      if sys.exists "/lib/modules/duvm-kmod.ko" s.world
      then (s, ok "/lib/modules/duvm-kmod.ko")
      else if sys.exists "/usr/local/lib/duvm-kmod.ko" s.world
      then (s, ok "/usr/local/lib/duvm-kmod.ko")
      else elim (sys.osrelease s.world) [
        | none ↦ (s, err no_module_file)
        | some kver ↦
            if sys.exists (extra_path kver) s.world
            then (s, ok (extra_path kver))
            else (s, err no_module_file)
      ]

  unfoldable pub load_module : ℕ → Action
  load_module size_mb =
      or_else (run_ok (modprobe size_mb)) (find_kmod_path >>= λ path. run_ok (insmod path size_mb))

  unfoldable pub need_device : Action
  need_device s = if sys.exists swap_device s.world then (s, ok tt) else (s, err no_device)

  unfoldable pub cmd_enable : String → ℕ → Action
  cmd_enable priority size_mb = do
    check_root
    when (λ w. not (is_module_loaded w)) (load_module size_mb)
    need_device
    when (λ w. not (is_swap_active w)) (run_ok mkswap)
    when (λ w. not (sys.is_active "duvm-memserver" w)) (warn (run_ok (start "duvm-memserver")))
    when (λ w. not (sys.is_active "duvm-daemon" w)) (warn (run_ok (start "duvm-daemon")))
    when (λ w. not (is_swap_active w)) (run_ok (swapon priority))

  unfoldable pub cmd_disable : Action
  cmd_disable = do
    check_root
    when is_swap_active (run_ok swapoff)
    when (sys.is_active "duvm-daemon") (warn (run_ok (stop "duvm-daemon")))
    when (sys.is_active "duvm-memserver") (warn (run_ok (stop "duvm-memserver")))
    when is_module_loaded (run_ok rmmod)

  unfoldable pub cmd_drain : Action
  cmd_drain = do check_root; when is_swap_active (run_ok swapoff)
