-- ===== src/Ctl/Client.antt =====
-- crates/duvm-ctl/src/main.rs: `main`, and the commands that ask the daemon. The socket, the JSON library
-- and `trim` are parameters.
use Prim.Native.String.{String, ◌++◌}
use text.Mathlib.Text.{starts_with}
use distributed_uvm.Prelude.{
  ℕ, ◌≡◌, refl, ap, ◌∙◌, Bool, true, false, ◌||◌, Option, none, some, List, [], ◌∷◌, arith,
  if◌then◌else◌, Option-cases, inl, inr,
}
use distributed_uvm.Prelude.Outcome.{Outcome, ok, err, panic, io_failed, bad_data}
use distributed_uvm.Prelude.Method.{Method, ◌>>=◌, ◌>>◌, pure}
use distributed_uvm.Backends.Trait.{BackendInfo}
use distributed_uvm.Daemon.Control.{Response, respond, handle_client}
use distributed_uvm.Daemon.Policy.{tracked_pages}
use distributed_uvm.Common.Stats.{StatsSnapshot, snapshot}
use distributed_uvm.Daemon.Engine.{Engine}
use distributed_uvm.Ctl.{System, Node, cmd_enable, cmd_disable, cmd_drain}

-- `Commands`; the priority is its text.
pub data Commands : Type 0 where
  status stats backends ping : Commands
  enable : String → ℕ → Commands
  disable drain : Commands

-- The socket: the path that is connected to, what is written, and the line that is read, which is
-- empty where the daemon has closed.
pub record Socket (W : Type 0) : Type 0 where
  pub connect : String → W → W × Bool
  pub write_all : String → W → W × Bool
  pub read_line : W → W × Option String

-- The JSON library: its values, `from_str`, `to_string`, `to_string_pretty`, which may fail, and the
-- value that it makes of an answer; and `trim`.
pub record Texts (V : Type 0) : Type 0 where
  pub from_str : String → Option V
  pub to_string : V → String
  pub to_string_pretty : V → Option String
  pub value_of : Response → V
  pub trim : String → String

module _ {W V : Type 0} (socket : Socket W) (texts : Texts V) where
  io : W × Bool → W × Outcome (Unit {0})
  io (w, true) = (w, ok tt)
  io (w, false) = (w, err io_failed)

  read : W × Option String → W × Outcome String
  read (w, none) = (w, err io_failed)
  read (w, some line) = (w, ok (texts.trim line))

  unfoldable pub send_command : String → String → Method W String
  unfolding io read
  send_command path cmd = do
    (λ w. io (socket.connect path w))
    (λ w. io (socket.write_all cmd w))
    (λ w. io (socket.write_all "\n" w))
    (λ w. read (socket.read_line w))

  -- What is printed.
  unfoldable pub print : String → Outcome String
  print response =
      if starts_with response "{" || starts_with response "["
      then elim (texts.from_str response) [
        | none ↦ ok response
        | some v ↦ elim (texts.to_string_pretty v) [ none ↦ err bad_data | some text ↦ ok text ]
      ]
      else ok response

  unfoldable pub daemon_command : String → String → Method W String
  daemon_command path cmd = send_command path cmd >>= λ response w. (w, print response)

module _ {W V : Type 0} (sys : System W) (socket : Socket W) (texts : Texts V) (path : String) where
  -- A command to the daemon leaves the node's commands as they are.
  unfoldable pub ask : String → Method (Node W) (Option String)
  ask cmd s =
      let (w, r) = daemon_command socket texts path cmd s.world in
      elim r [
        | ok text ↦ (record s { world = w }, ok (some text))
        | err x ↦ (record s { world = w }, err x)
        | panic ↦ (record s { world = w }, panic)
      ]

  -- The dispatch of `main`, with what is printed for the daemon's answer.
  unfoldable pub main : Commands → Method (Node W) (Option String)
  main status = ask "status"
  main stats = ask "stats"
  main backends = ask "backends"
  main ping = ask "ping"
  main (enable priority size_mb) = cmd_enable sys priority size_mb >> pure none
  main disable = cmd_disable sys >> pure none
  main drain = cmd_drain sys >> pure none

-- The line that the daemon writes for an answer, without its newline.
unfoldable pub response_line : {V : Type 0} → Texts V → Response → String
response_line texts (Response.status n x) = texts.to_string (texts.value_of (Response.status n x))
response_line texts (Response.backends x) = texts.to_string (texts.value_of (Response.backends x))
response_line texts (Response.stats x) = texts.to_string (texts.value_of (Response.stats x))
response_line texts Response.pong = "pong"
response_line texts (Response.unknown_command cmd) =
    texts.to_string (texts.value_of (Response.unknown_command cmd))

-- The daemon at the other end of the socket: its world is what was written.
module _ {B V : Type 0} (infos : List BackendInfo) (e : Engine B) (texts : Texts V) where
  abbrev first_line : List Response → String
  first_line [] = ""
  first_line (r ∷ rs) = response_line texts r ++ "\n"

  unfoldable pub daemon_socket : Socket String
  daemon_socket = record {
    connect = λ path w. ("", true);
    write_all = λ text w. (w ++ text, true);
    read_line = λ w. (w, some (first_line (handle_client infos ((texts.trim w, e, true) ∷ [])).0));
  }

  -- What a command asks of the daemon.
  abbrev pub answer : Commands → Option Response
  answer status = some (Response.status (tracked_pages e.policy) (snapshot e.stats))
  answer stats = some (Response.stats (snapshot e.stats))
  answer backends = some (Response.backends infos)
  answer ping = some Response.pong
  answer _ = none

  -- The text of a value, where the library can write it.
  abbrev pretty : Option String → Outcome (Option String)
  pretty none = err bad_data
  pretty (some text) = ok (some text)

  -- What a user is to see of an answer.
  abbrev pub shown : Response → Outcome (Option String)
  shown Response.pong = ok (some "pong")
  shown r = pretty (texts.to_string_pretty (texts.value_of r))

  -- `trim` takes the newline off the daemon's commands and answers.
  pub record Trims : Type 0 where
    pub status_line : texts.trim "status\n" ≡ "status"
    pub stats_line : texts.trim "stats\n" ≡ "stats"
    pub backends_line : texts.trim "backends\n" ≡ "backends"
    pub ping_line : texts.trim "ping\n" ≡ "ping"
    pub answer_line :
        (r : Response) → texts.trim (response_line texts r ++ "\n") ≡ response_line texts r

  -- The library writes a struct as an object and a sequence as an array, and reads back what it
  -- has written.
  pub record IsJson : Type 0 where
    pub status_object :
        (n : ℕ) (s : StatsSnapshot)
        → starts_with (texts.to_string (texts.value_of (Response.status n s))) "{" ≡ true
    pub stats_object :
        (s : StatsSnapshot)
        → starts_with (texts.to_string (texts.value_of (Response.stats s))) "{" ≡ true
    pub backends_array :
        (l : List BackendInfo)
        → starts_with (texts.to_string (texts.value_of (Response.backends l))) "[" ≡ true
    pub reads_back :
        (r : Response)
        → texts.from_str (texts.to_string (texts.value_of r)) ≡ some (texts.value_of r)

  module _ (sys : System String) (path : String) (t : Trims) (j : IsJson) where
    -- What is printed of the line that comes back.
    line_back :
        (cmd : String) (out : Outcome String)
        → texts.trim (("" ++ cmd) ++ "\n") ≡ cmd
        → print daemon_socket texts (response_line texts (respond infos e cmd)) ≡ out
        → print daemon_socket texts (
            texts.trim
              (response_line texts (respond infos e (texts.trim (("" ++ cmd) ++ "\n"))) ++ "\n"))
          ≡ out
    line_back cmd out trims h = rw trims (rw (t.answer_line (respond infos e cmd)) h)

    ask_ok :
        (cmd : String) (text : String) (s : Node String)
        → texts.trim (("" ++ cmd) ++ "\n") ≡ cmd
        → print daemon_socket texts (response_line texts (respond infos e cmd)) ≡ ok text
        → (ask sys daemon_socket texts path cmd s).1 ≡ ok (some text)
    unfolding ask daemon_command send_command io read daemon_socket handle_client
    ask_ok cmd text s trims out = ground (arith, line_back cmd (ok text) trims out)

    ask_err :
        (cmd : String) (s : Node String)
        → texts.trim (("" ++ cmd) ++ "\n") ≡ cmd
        → print daemon_socket texts (response_line texts (respond infos e cmd)) ≡ err bad_data
        → (ask sys daemon_socket texts path cmd s).1 ≡ err bad_data
    unfolding ask daemon_command send_command io read daemon_socket handle_client
    ask_err cmd s trims out = ground (arith, line_back cmd (err bad_data) trims out)

    -- The daemon's JSON is printed as the library lays it out.
    asked :
        (cmd : String) (r : Response) (s : Node String)
        → texts.trim (("" ++ cmd) ++ "\n") ≡ cmd
        → respond infos e cmd ≡ r
        → response_line texts r ≡ texts.to_string (texts.value_of r)
        → (starts_with (texts.to_string (texts.value_of r)) "{"
            || starts_with (texts.to_string (texts.value_of r)) "[")
          ≡ true
        → (ask sys daemon_socket texts path cmd s).1
          ≡ pretty (texts.to_string_pretty (texts.value_of r))
    unfolding print
    asked cmd r s trims is_r line json =
        elim (Option-cases (texts.to_string_pretty (texts.value_of r))) [
          | inl none_out ↦ rw none_out (
              ask_err cmd s trims
                (rw is_r (rw line (rw json (rw (j.reads_back r) (rw none_out refl))))))
          | inr (text, some_out) ↦ rw some_out (
              ask_ok cmd text s trims
                (rw is_r (rw line (rw json (rw (j.reads_back r) (rw some_out refl))))))
        ]

    pong_printed : print daemon_socket texts "pong" ≡ ok "pong"
    unfolding print
    pong_printed = refl

    same_answer :
        (x r : Response) (out : Outcome (Option String))
        → out ≡ shown x
        → some x ≡ some r
        → out ≡ shown r
    same_answer x r out p h = let same : x ≡ r = ground (arith, h) in p ∙ ap shown same

    -- With a daemon that listens, a `trim` that takes the newline off commands and answers, and a
    -- JSON library that writes a struct as an object and a sequence as an array and reads back
    -- what it has written, ping prints "pong", and status, stats and backends print the library's
    -- layout of the value of the daemon's counters and tracked pages, of its counters and of its
    -- backends, and end with an error where the library cannot lay it out.
    pub main-answer :
        (cmd : Commands) (r : Response) (s : Node String)
        → answer cmd ≡ some r
        → (main sys daemon_socket texts path cmd s).1 ≡ shown r
    unfolding main respond response_line
    main-answer status r s h =
        let x = Response.status (tracked_pages e.policy) (snapshot e.stats) in
        let object = j.status_object (tracked_pages e.policy) (snapshot e.stats) in
        same_answer x r _ (asked "status" x s t.status_line refl refl (rw object refl)) h
    main-answer stats r s h =
        let x = Response.stats (snapshot e.stats) in
        let object = j.stats_object (snapshot e.stats) in
        same_answer x r _ (asked "stats" x s t.stats_line refl refl (rw object refl)) h
    main-answer backends r s h =
        let x = Response.backends infos in
        let array = j.backends_array infos in
        same_answer x r _ (asked "backends" x s t.backends_line refl refl (ground (arith, array))) h
    main-answer ping r s h =
        same_answer Response.pong r _ (ask_ok "ping" "pong" s t.ping_line pong_printed) h
    main-answer (enable priority size_mb) r s h = absurd (ground (arith, h))
    main-answer disable r s h = absurd (ground (arith, h))
    main-answer drain r s h = absurd (ground (arith, h))
