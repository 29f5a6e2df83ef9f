-- ===== src/Ctl/Effects.antt =====
-- What the commands of crates/duvm-ctl/src/main.rs leave where they report success.
use Prim.Native.String.{String}
use distributed_uvm.Prelude.{
  List, [], ◌∷◌, ◌⊎◌, ℕ, ◌≡◌, refl, sym, subst, true, false, not, arith, inl, inr, Bool-cases,
  Empty,
}
use distributed_uvm.Prelude.Outcome.{Outcome, ok, err, panic, no_device}
use distributed_uvm.Prelude.Method.{Holds, Triple, Triple-bind, Triple-else, Triple-weaken}
use distributed_uvm.Ctl.{
  Command, modprobe, insmod, rmmod, mkswap, swapon, swapoff, start, stop, System, Node,
  is_module_loaded, is_swap_active, run_ok, when, warn, need_device, load_module, find_kmod_path,
  cmd_enable, cmd_disable, cmd_drain, swap_device,
}
use distributed_uvm.Ctl.Rules.{Behaves, Triple-run, Triple-when, Triple-root, Triple-warn}

module _ {W : Type 0} (sys : System W) where
  abbrev Any : Node W → Type 0
  Any s = Unit {0}

  abbrev Loaded : Node W → Type 0
  Loaded s = is_module_loaded sys s.world ≡ true

  abbrev Off : Node W → Type 0
  Off s = is_swap_active sys s.world ≡ false

  -- The module serves a swap area that is in use.
  pub record IsEnabled (w : W) : Type 0 where
    pub is_loaded : is_module_loaded sys w ≡ true
    pub is_active : is_swap_active sys w ≡ true

  pub record IsDisabled (w : W) : Type 0 where
    pub is_unloaded : is_module_loaded sys w ≡ false
    pub is_inactive : is_swap_active sys w ≡ false

  abbrev pub IsDrained : W → Type 0
  IsDrained w = is_swap_active sys w ≡ false

  abbrev IsLastFailed : List (Command × W) → Type 0
  IsLastFailed [] = Empty {0}
  IsLastFailed ((cmd, w) ∷ cmds) = (sys.spawn cmd w).1 ≡ false

  -- Why a command gives up: the user, the device, or the program that was run last.
  abbrev pub IsBlocked : Node W → Type 0
  IsBlocked s =
      (sys.is_root s.world ≡ false)
      ⊎ (sys.exists swap_device s.world ≡ false)
      ⊎ IsLastFailed s.commands

  -- A command reports success and has had its effect, or it was kept from it.
  abbrev pub Effect : (W → Type 0) → Node W × Outcome (Unit {0}) → Type 0
  Effect P (s, ok u) = P s.world
  Effect P (s, err x) = IsBlocked s
  Effect P (s, panic) = IsBlocked s

  Holds-Effect :
      (P : W → Type 0) (out : Node W × Outcome (Unit {0}))
      → Holds (λ u s. P s.world) IsBlocked out
      → Effect P out
  Holds-Effect P (s, ok u) h = h
  Holds-Effect P (s, err x) h = h
  Holds-Effect P (s, panic) h = h

  find_kmod_path_same : (s : Node W) → (find_kmod_path sys s).0 ≡ s
  unfolding find_kmod_path
  find_kmod_path_same s = ground arith

  module _ (behaves : Behaves sys) where
    load-Triple : (mb : ℕ) → Triple Any (load_module sys mb) (λ u. Loaded) IsBlocked
    unfolding load_module
    load-Triple mb =
        Triple-else {mid = λ s. IsLastFailed s.commands}
          (Triple-run sys (modprobe mb) (λ s p t. behaves.probed mb s.world t) (λ s p f. f))
          (λ s p. inr (inr p))
          (Triple-bind find-Triple λ path.
            Triple-run sys (insmod path mb) (λ s p t. behaves.inserted path mb s.world t)
              (λ s p f. inr (inr f)))
      where
        find-Triple :
            Triple (λ s. IsLastFailed s.commands) (find_kmod_path sys) (λ path. Any) IsBlocked
        find-Triple = record {
          at = λ s p.
              kept (find_kmod_path sys s)
                (subst (λ (s : Node W). IsLastFailed s.commands) (sym (find_kmod_path_same s)) p);
        }
          where
            kept :
                (out : Node W × Outcome String)
                → IsLastFailed out.0.commands
                → Holds (λ path. Any) IsBlocked out
            kept (s, ok path) p = tt
            kept (s, err x) p = inr (inr p)
            kept (s, panic) p = inr (inr p)

    device-Triple : Triple Loaded (need_device sys) (λ u. Loaded) IsBlocked
    unfolding need_device
    device-Triple = record {
      at = λ s p. elim (Bool-cases (sys.exists swap_device s.world)) [
        | inl e ↦
            let run : need_device sys s ≡ (s, ok tt) = ground (arith, e) in
            subst (Holds (λ u. Loaded) IsBlocked) (sym run) p
        | inr e ↦
            let run : need_device sys s ≡ (s, err no_device) = ground (arith, e) in
            subst (Holds (λ u. Loaded) IsBlocked) (sym run) (inr (inl e))
      ];
    }

    start-Triple :
        (name : String)
        → Triple Loaded
            (when sys (λ w. not (sys.is_active name w)) (warn sys (run_ok sys (start name))))
            (λ u. Loaded)
            IsBlocked
    start-Triple name =
        Triple-when sys (λ w. not (sys.is_active name w))
          (Triple-warn sys (start name) (λ s p. behaves.module_stays (start name) s.world refl p.0))
          (λ s p inactive. p)

    enable-Triple :
        (priority : String) (mb : ℕ)
        → Triple Any (cmd_enable sys priority mb) (λ u s. IsEnabled s.world) IsBlocked
    unfolding cmd_enable
    enable-Triple priority mb = Triple-bind (Triple-root sys (λ s p user. inl user)) λ u.
        Triple-bind
          (Triple-when sys {post = Loaded} (λ w. not (is_module_loaded sys w))
            (Triple-weaken (λ s p. tt) (λ a s p. p) (λ s p. p) (load-Triple mb))
            (λ s p e. ground (arith, e)))
          λ u. Triple-bind device-Triple λ u.
            Triple-bind
              (Triple-when sys (λ w. not (is_swap_active sys w))
                (Triple-run sys mkswap (λ s p t. behaves.module_stays mkswap s.world refl p.0)
                  (λ s p f. inr (inr f)))
                (λ s p e. p))
              λ u. Triple-bind (start-Triple "duvm-memserver") λ u.
                Triple-bind (start-Triple "duvm-daemon") λ u.
                  Triple-when sys {post = λ s. IsEnabled s.world} (λ w. not (is_swap_active sys w))
                    (Triple-run sys (swapon priority)
                      (λ s p t. record {
                        is_loaded = behaves.module_stays (swapon priority) s.world refl p.0;
                        is_active = behaves.swapped_on priority s.world t;
                      })
                      (λ s p f. inr (inr f)))
                    (λ s p e. record { is_loaded = p; is_active = ground (arith, e) })

    drain_swap :
        Triple Any (when sys (is_swap_active sys) (run_ok sys swapoff)) (λ u. Off) IsBlocked
    drain_swap =
        Triple-when sys (is_swap_active sys)
          (Triple-run sys swapoff (λ s p t. behaves.swapped_off s.world t) (λ s p f. inr (inr f)))
          (λ s p inactive. inactive)

    stop-Triple :
        (name : String)
        → Triple Off
            (when sys (sys.is_active name) (warn sys (run_ok sys (stop name))))
            (λ u. Off)
            IsBlocked
    stop-Triple name =
        Triple-when sys (sys.is_active name)
          (Triple-warn sys (stop name) (λ s p. behaves.stays_off (stop name) s.world refl p.0))
          (λ s p inactive. p)

    disable-Triple : Triple Any (cmd_disable sys) (λ u s. IsDisabled s.world) IsBlocked
    unfolding cmd_disable
    disable-Triple = Triple-bind (Triple-root sys (λ s p user. inl user)) λ u.
        Triple-bind drain_swap λ u. Triple-bind (stop-Triple "duvm-daemon") λ u.
          Triple-bind (stop-Triple "duvm-memserver") λ u.
            Triple-when sys {post = λ s. IsDisabled s.world} (is_module_loaded sys)
              (Triple-run sys rmmod
                (λ s p t. record {
                  is_unloaded = behaves.removed s.world t;
                  is_inactive = behaves.stays_off rmmod s.world refl p.0;
                })
                (λ s p f. inr (inr f)))
              (λ s p unloaded. record { is_unloaded = unloaded; is_inactive = p })

    drain-Triple : Triple Any (cmd_drain sys) (λ u. Off) IsBlocked
    unfolding cmd_drain
    drain-Triple = Triple-bind (Triple-root sys (λ s p user. inl user)) λ u. drain_swap

    -- Where the system commands behave as documented, enable either leaves the module loaded and
    -- its swap area in use, disable either leaves neither, and drain either leaves the swap area
    -- out of use; or the command was kept from it, since the user is not root, the swap device is
    -- missing, or the program that was run last failed.
    pub commands-Effect :
        (priority : String) (mb : ℕ) (s : Node W)
        → Effect IsEnabled (cmd_enable sys priority mb s)
          × Effect IsDisabled (cmd_disable sys s)
          × Effect IsDrained (cmd_drain sys s)
    commands-Effect priority mb s = (
      Holds-Effect IsEnabled (cmd_enable sys priority mb s) ((enable-Triple priority mb).at s tt),
      Holds-Effect IsDisabled (cmd_disable sys s) (disable-Triple.at s tt),
      Holds-Effect IsDrained (cmd_drain sys s) (drain-Triple.at s tt),
    )
