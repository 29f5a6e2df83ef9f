-- ===== src/Examples/Client.antt =====
-- The control program that asks a daemon, and the kernel's device.
use Prim.Native.String.{String, ◌++◌}
use text.Mathlib.Text.{find?, get?}
use distributed_uvm.Prelude.{ℕ, ◌≡◌, refl, true, false, none, some, [], ◌∷◌, arith}
use distributed_uvm.Prelude.Outcome.{ok}
use distributed_uvm.Daemon.Control.{Response, status, backends, stats, pong, unknown_command}
use distributed_uvm.Daemon.Policy.{tracked_pages}
use distributed_uvm.Common.Stats.{snapshot}
use distributed_uvm.Daemon.Engine.{Engine, with_backends}
use distributed_uvm.Ctl.{System}
use distributed_uvm.Ctl.Client
use distributed_uvm.Ctl.Client.{
  Texts, Trims, IsJson, response_line, daemon_socket, main, main-answer,
}
use distributed_uvm.Daemon.KmodRing.Layout.{Header}
use distributed_uvm.Daemon.KmodRing.Open.{
  Calls, Process, IsU32, IsUndone, open_consumer, open_consumer-IsUndone,
}

-- A JSON library whose values are texts, and whose layout adds a newline; a line up to its newline.
abbrev render : Response → String
render pong = "\"pong\""
render (unknown_command cmd) = "{\"error\": \"unknown command\"}"
render (backends infos) = "[]"
render _ = "{\"status\": \"running\"}"

abbrev texts : Texts String
texts = record {
  from_str = some;
  to_string = λ v. v;
  to_string_pretty = λ v. some (v ++ "\n");
  value_of = render;
  trim = λ line. elim (find? line "\n") [
    | none ↦ line
    | some i ↦ elim (get? line 0 i) [ none ↦ line | some text ↦ text ]
  ];
}

abbrev engine : Engine ℕ
engine = with_backends ((0, 7) ∷ [])

texts_trim : Trims {B = ℕ} [] engine texts
unfolding response_line
texts_trim = record {
  status_line = refl;
  stats_line = refl;
  backends_line = refl;
  ping_line = refl;
  answer_line = answer_line;
}
  where
    answer_line :
        (r : Response) → texts.trim (response_line texts r ++ "\n") ≡ response_line texts r
    answer_line (status n s) = refl
    answer_line (backends infos) = refl
    answer_line (stats s) = refl
    answer_line pong = refl
    answer_line (unknown_command cmd) = refl

texts_json : IsJson {B = ℕ} [] engine texts
texts_json = record {
  status_object = λ n s. refl;
  stats_object = λ s. refl;
  backends_array = λ l. refl;
  reads_back = λ r. refl;
}

abbrev sys : System String
sys = record {
  is_root = λ w. false;
  spawn = λ cmd w. (w, false);
  modules = λ w. none;
  swaps = λ w. none;
  is_active = λ name w. false;
  exists = λ path w. false;
  osrelease = λ w. none;
}

main-answer_example :
    (main sys
      (daemon_socket [] engine texts)
      texts
      "/run/duvm/duvm.sock"
      Client.Commands.status
      (record { world = ""; commands = [] })).1
    ≡ ok (some "{\"status\": \"running\"}\n")
main-answer_example =
    main-answer [] engine texts sys "/run/duvm/duvm.sock" texts_trim texts_json
      Client.Commands.status (status (tracked_pages engine.policy) (snapshot engine.stats))
      (record { world = ""; commands = [] }) refl

abbrev header : Header
header = record { capacity = 64; version = 2; staging_pages = 16 }

abbrev calls : Calls (Unit {0})
calls = record {
  open_file = λ w. (w, true);
  mmap_header = λ len w. (w, some (4096, header));
  mmap = λ len w. (w, some 8192);
  munmap = λ base len w. w;
  close = λ w. w;
}

calls-IsU32 : IsU32 calls
calls-IsU32 len w base h found = (ground (arith, found), ground (arith, found))

abbrev process : Process (Unit {0})
process = record { world = tt; open_files = 3; mapped = 65536 }

open_consumer-IsUndone_example : IsUndone calls process (open_consumer calls process)
open_consumer-IsUndone_example = open_consumer-IsUndone calls process calls-IsU32
