-- ===== src/Daemon/Control.antt =====
-- crates/duvm-daemon/src/engine.rs: the control socket (`handle_client`) and the end of `run`, which shuts
-- the backends down. The socket gives lines and takes lines; a write may fail.
use Prim.Native.String.{String}
use text.Mathlib.Text.{◌==◌ as str_eq}
use distributed_uvm.Prelude.{
  ℕ, ◌≡◌, refl, sym, ap, subst, Bool, List, [], ◌∷◌, ◌++◌, map, arith, if◌then◌else◌, inl, inr,
}
use distributed_uvm.Prelude.Outcome.{Outcome, Outcome-cases, ok, err, panic, io_failed}
use distributed_uvm.Prelude.HashMap.{HashMap}
use distributed_uvm.Common.Stats.{StatsSnapshot, snapshot}
use distributed_uvm.Backends.Trait.{DuvmBackend, BackendInfo}
use distributed_uvm.Daemon.Policy.{tracked_pages}
use distributed_uvm.Daemon.Engine.{Engine, backend_info}

-- What is answered; its JSON text is left out.
pub data Response : Type 0 where
  status : ℕ → StatsSnapshot → Response
  backends : List BackendInfo → Response
  stats : StatsSnapshot → Response
  pong : Response
  unknown_command : String → Response

-- What a client is served from: it does not change while the client is connected, but for the counters
-- and the table, which are read at each command.
unfoldable pub respond : {B : Type 0} → List BackendInfo → Engine B → String → Response
respond infos e cmd =
    if str_eq cmd "status"
    then status (tracked_pages e.policy) (snapshot e.stats)
    else if str_eq cmd "backends"
    then backends infos
    else if str_eq cmd "stats"
    then stats (snapshot e.stats)
    else if str_eq cmd "ping"
    then pong
    else unknown_command cmd

-- The lines of a client, trimmed, each with the engine at the time, and whether its answer can be
-- written: the answers that were written, and how the loop ends.
unfoldable pub handle_client :
    {B : Type 0}
    → List BackendInfo
    → List (String × Engine B × Bool)
    → List Response × Outcome (Unit {0})
handle_client infos [] = ([], ok tt)
handle_client infos ((cmd, e, writable) ∷ lines) =
    let (rest, r) = handle_client infos lines in
    if writable then (respond infos e cmd ∷ rest, r) else ([], err io_failed)

-- What the loop of `run` takes up: a client with its lines, or a failed `accept`.
pub data Arrival (B : Type 0) : Type 0 where
  client : List (String × Engine B × Bool) → Arrival B
  accept_failed : Arrival B

module _ {B : Type 0} (ops : DuvmBackend B) where
  -- The loop of `run` until it is interrupted; each client is a task of its own, which ends with
  -- its answers and a result that is only logged.
  unfoldable pub serve_clients :
      Engine B → List (Arrival B) → List (List Response × Outcome (Unit {0}))
  serve_clients e [] = []
  serve_clients e (client lines ∷ arrivals) =
      handle_client (backend_info ops e) lines ∷ serve_clients e arrivals
  serve_clients e (accept_failed ∷ arrivals) = serve_clients e arrivals

  -- The loop over the backends, which ends at the first error.
  unfoldable pub shutdown_all : HashMap B → HashMap B × Outcome (Unit {0})
  shutdown_all [] = ([], ok tt)
  shutdown_all ((id, b) ∷ bs) =
      let (b', r) = ops.shutdown b in
      let (bs', rest) = shutdown_all bs in
      elim r [
        | ok _ ↦ ((id, b') ∷ bs', rest)
        | err x ↦ ((id, b') ∷ bs, err x)
        | panic ↦ ((id, b') ∷ bs, panic)
      ]

  -- A backend that was shut down.
  abbrev shut : ℕ × B → ℕ × B
  shut entry = (entry.0, (ops.shutdown entry.1).0)

  -- All backends are shut down, or those up to the first that fails; the others are as they were.
  abbrev pub IsShut : HashMap B → HashMap B × Outcome (Unit {0}) → Type 0
  IsShut bs (bs', ok u) = bs' ≡ map shut bs
  IsShut bs (bs', _) =
      (before : HashMap B) × (entry : ℕ × B) × (after : HashMap B) × (bs
        ≡ before ++ (entry ∷ after))
      × (bs' ≡ map shut before ++ (shut entry ∷ after))

  extend :
      (entry : ℕ × B) (bs : HashMap B) (out : HashMap B × Outcome (Unit {0}))
      → IsShut bs out
      → IsShut (entry ∷ bs) (shut entry ∷ out.0, out.1)
  extend entry bs (bs', ok u) e = ap (λ es. shut entry ∷ es) e
  extend entry bs (bs', err x) (before, b, after, e, e') =
      (entry ∷ before, b, after, ap (λ es. entry ∷ es) e, ap (λ es. shut entry ∷ es) e')
  extend entry bs (bs', panic) (before, b, after, e, e') =
      (entry ∷ before, b, after, ap (λ es. entry ∷ es) e, ap (λ es. shut entry ∷ es) e')

  pub shutdown_all-IsShut : (bs : HashMap B) → IsShut bs (shutdown_all bs)
  unfolding shutdown_all
  shutdown_all-IsShut [] = refl
  shutdown_all-IsShut ((id, b) ∷ bs) =
      let rest = shutdown_all-IsShut bs in
      elim (Outcome-cases (ops.shutdown b).1) [
        | inl (u, t) ↦
            let done : HashMap B × Outcome (Unit {0}) =
              ((id, (ops.shutdown b).0) ∷ (shutdown_all bs).0, (shutdown_all bs).1) in
            let run : shutdown_all ((id, b) ∷ bs) ≡ done = ground (arith, t) in
            subst (IsShut ((id, b) ∷ bs)) (sym run) (extend (id, b) bs (shutdown_all bs) rest)
        | inr (inl (x, t)) ↦
            let run : shutdown_all ((id, b) ∷ bs) ≡ ((id, (ops.shutdown b).0) ∷ bs, err x) =
              ground (arith, t) in
            subst (IsShut ((id, b) ∷ bs)) (sym run) ([], (id, b), bs, refl, refl)
        | inr (inr t) ↦
            let run : shutdown_all ((id, b) ∷ bs) ≡ ((id, (ops.shutdown b).0) ∷ bs, panic) =
              ground (arith, t) in
            subst (IsShut ((id, b) ∷ bs)) (sym run) ([], (id, b), bs, refl, refl)
      ]
