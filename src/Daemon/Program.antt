-- ===== src/Daemon/Program.antt =====
-- crates/duvm-daemon/src/main.rs: `main`, and `run` of engine.rs, which serves the control socket until the
-- daemon is interrupted. What the device, the socket and the backends do is a parameter, and so are the
-- clients that arrive; the rings are served by `run_loop` (KmodRing).
use Prim.Native.String.{String}
use distributed_uvm.Prelude.{
  List, ℕ, ◌+◌, ◌*◌, ◌≤◌, ◌≡◌, ap, true, false, arith, if◌then◌else◌, Bool-cases, inl, inr, ◌⊎◌,
  subst,
}
use distributed_uvm.Prelude.Outcome.{Outcome, Error, Outcome-cases, ok, err, panic}
use distributed_uvm.Prelude.Method.{Method, ◌>>=◌}
use distributed_uvm.Backends.Trait.{DuvmBackend}
use distributed_uvm.Daemon.Config.{DaemonConfig, Files, Args, kmod_config, default_config}
use distributed_uvm.Daemon.Config.Valid.{IsValid, kmod_config-IsValid}
use distributed_uvm.Daemon.Engine.{Engine}
use distributed_uvm.Daemon.Control.{
  Response, Arrival, serve_clients, shutdown_all, IsShut, shutdown_all-IsShut,
}
use distributed_uvm.Daemon.KmodRing.{Region}
use distributed_uvm.Daemon.Startup.{Makers, new}
use distributed_uvm.Daemon.Startup.Kinds.{Kind, Tagged}
use distributed_uvm.Daemon.Startup.Numbered.{IsStarted, new-IsStarted, peer_count}

-- `KmodRingConsumer::open`, and what `run` does at a path: the directory, the stale socket, the
-- listener.
pub record Devices (W : Type 0) : Type 0 where
  pub open_ctl : String → W → W × Outcome Region
  pub bind : String → W → W × Outcome (Unit {0})

abbrev pub Answers : Type 0
Answers = List (List Response × Outcome (Unit {0}))

-- What the daemon serves: the rings of the region until it is stopped, or the socket until it was
-- interrupted, with the answers of its clients and the backends shut down.
pub data Served (B : Type 0) : Type 0 where
  by_rings : Region → Engine B → Served B
  by_socket : Answers → Engine B → Served B

module _ {W B : Type 0} (devices : Devices W) (ops : DuvmBackend B)
    (arrivals : List (Arrival B)) where
  unfoldable pub run : DaemonConfig → Engine B → Method W (Answers × Engine B)
  run config e w =
      let (w', bound) = devices.bind config.daemon.socket_path w in
      elim bound [
        | err x ↦ (w', err x)
        | panic ↦ (w', panic)
        | ok _ ↦
            let answers = serve_clients ops e arrivals in
            let (backends, r) = shutdown_all ops e.backends in
            elim r [
              | ok _ ↦ (w', ok (answers, record e { backends = backends }))
              | err x ↦ (w', err x)
              | panic ↦ (w', panic)
            ]
      ]

  module _ (makers : Makers W B) where
    unfoldable pub fall_back : Method W (Served B)
    fall_back w =
        let (w', r) = (new makers default_config >>= run default_config) w in
        elim r [
          | ok out ↦ (w', ok (by_socket out.0 out.1))
          | err x ↦ (w', err x)
          | panic ↦ (w', panic)
        ]

    unfoldable pub main : Files → Args → Method W (Served B)
    main files args w =
        let (w₁, made) = new makers (kmod_config files args) w in
        elim made [
          | err x ↦ (w₁, err x)
          | panic ↦ (w₁, panic)
          | ok e ↦
              if args.uffd_mode
              then fall_back w₁
              else (let (w₂, opened) = devices.open_ctl args.kmod_ctl w₁ in
                  elim opened [
                    | ok region ↦ (w₂, ok (by_rings region e))
                    | err x ↦ fall_back w₂
                    | panic ↦ (w₂, panic)
                  ])
        ]

-- What main serves when it does not fail, by what: the engine of the configuration where the device
-- opens, and the engine of the defaults, shut down at the end, where it does not or is not wanted.
module _ {W B : Type 0} (devices : Devices W) (ops : DuvmBackend B) (makers : Makers W B)
    (files : Files) (args : Args) (id_of : B → ℕ) (kind_of : B → Kind)
    (tagged : Tagged makers id_of kind_of) (arrivals : List (Arrival B)) where
  abbrev pub Serves : Served B → Type 0
  Serves (by_rings region e) =
      (args.uffd_mode ≡ false)
      × IsValid (kmod_config files args)
      × IsStarted makers (kmod_config files args) id_of kind_of tagged e
      × ((w w' : W) × (devices.open_ctl args.kmod_ctl w ≡ (w', ok region)))
  Serves (by_socket answers e) =
      ((args.uffd_mode ≡ true)
        ⊎ ((w w' : W) × (x : Error) × (devices.open_ctl args.kmod_ctl w ≡ (w', err x))))
      × ((e₀ : Engine B) × IsStarted makers default_config id_of kind_of tagged e₀
          × (answers ≡ serve_clients ops e₀ arrivals)
          × IsShut ops e₀.backends (e.backends, ok tt))

  run-IsShut :
      (config : DaemonConfig) (e e' : Engine B) (answers : Answers) (w : W)
      → (run devices ops arrivals config e w).1 ≡ ok (answers, e')
      → (answers ≡ serve_clients ops e arrivals) × IsShut ops e.backends (e'.backends, ok tt)
  run-IsShut config e e' answers w h =
      let shut = shutdown_all-IsShut ops e.backends in
      elim (Outcome-cases (devices.bind config.daemon.socket_path w).1) [
        | inr (inl (x, t)) ↦ absurd (unfold run in ground (arith, h, t))
        | inr (inr t) ↦ absurd (unfold run in ground (arith, h, t))
        | inl (u, t) ↦ elim (Outcome-cases (shutdown_all ops e.backends).1) [
          | inr (inl (x, r)) ↦ absurd (unfold run in ground (arith, h, t, r))
          | inr (inr r) ↦ absurd (unfold run in ground (arith, h, t, r))
          | inl (v, r) ↦
              let backends = (shutdown_all ops e.backends).0 in
              let same : backends ≡ e'.backends = unfold run in ground (arith, h, t, r) in
              (
                unfold run in ground (arith, h, t, r),
                subst (λ bs. IsShut ops e.backends (bs, ok tt)) same
                    (subst (λ o. IsShut ops e.backends (backends, o)) r shut),
              )
        ]
      ]

  fall_back-Serves :
      (w : W) (served : Served B)
      → (args.uffd_mode ≡ true)
        ⊎ ((w w' : W) × (x : Error) × (devices.open_ctl args.kmod_ctl w ≡ (w', err x)))
      → (fall_back devices ops arrivals makers w).1 ≡ ok served
      → Serves served
  fall_back-Serves w served why h = elim (Outcome-cases (new makers default_config w).1) [
    | inr (inl (x, t)) ↦ absurd (unfold fall_back in ground (arith, h, t))
    | inr (inr t) ↦ absurd (unfold fall_back in ground (arith, h, t))
    | inl (e₀, t) ↦
        let w₁ = (new makers default_config w).0 in
        elim (Outcome-cases (run devices ops arrivals default_config e₀ w₁).1) [
          | inr (inl (x, r)) ↦ absurd (unfold fall_back in ground (arith, h, t, r))
          | inr (inr r) ↦ absurd (unfold fall_back in ground (arith, h, t, r))
          | inl (out, r) ↦
              let same : by_socket out.0 out.1 ≡ served =
                unfold fall_back in ground (arith, h, t, r) in
              let shut = run-IsShut default_config e₀ out.1 out.0 w₁ r in
              subst Serves same (
                why,
                (
                  e₀,
                  new-IsStarted makers default_config id_of kind_of tagged w e₀ (omega arith) t,
                  shut.0,
                  shut.1,
                ),
              )
        ]
  ]

  -- With at most 126 peers configured, over backends that keep the id and are of the kind they are
  -- made with, what main serves when it does not fail is either the rings of the opened device,
  -- not in userfaultfd mode, with an engine started on the configuration of the file and the
  -- command line, which is valid, or, in userfaultfd mode or where the device did not open, the
  -- control socket with an engine started on the default configuration, all of whose backends are
  -- shut down at the end.
  pub main-Serves :
      (w : W) (served : Served B)
      → 2 + 2 * peer_count (kmod_config files args).backends.remote ≤ 255
      → (main devices ops arrivals makers files args w).1 ≡ ok served
      → Serves served
  main-Serves w served room h =
      let config = kmod_config files args in
      let w₁ = (new makers config w).0 in
      let opened = devices.open_ctl args.kmod_ctl w₁ in
      elim (Outcome-cases (new makers config w).1) [
        | inr (inl (x, t)) ↦ absurd (unfold main in ground (arith, h, t))
        | inr (inr t) ↦ absurd (unfold main in ground (arith, h, t))
        | inl (e, t) ↦ elim (Bool-cases args.uffd_mode) [
          | inl mode ↦
              fall_back-Serves w₁ served (inl mode) (unfold main in ground (arith, h, t, mode))
          | inr mode ↦ elim (Outcome-cases opened.1) [
            | inr (inr o) ↦ absurd (unfold main in ground (arith, h, t, mode, o))
            | inr (inl (x, o)) ↦
                fall_back-Serves opened.0 served (inr (w₁, opened.0, x, ap (λ r. (opened.0, r)) o))
                  (unfold main in ground (arith, h, t, mode, o))
            | inl (region, o) ↦
                let same : by_rings region e ≡ served =
                  unfold main in ground (arith, h, t, mode, o) in
                subst Serves same (
                  mode,
                  kmod_config-IsValid files args,
                  new-IsStarted makers config id_of kind_of tagged w e room t,
                  (w₁, opened.0, ap (λ r. (opened.0, r)) o),
                )
          ]
        ]
      ]
