-- ===== src/Ctl/Order.antt =====
-- `disable` of crates/duvm-ctl/src/main.rs brings the remote pages back before it takes anything down.
use Prim.Native.String.{String}
use distributed_uvm.Prelude.{◌&&◌, ◌≡◌, refl, Bool, true, false, List, [], ◌∷◌, arith}
use distributed_uvm.Prelude.Outcome.{Outcome, ok, err, panic}
use distributed_uvm.Prelude.Method.{Holds, Triple, Triple-bind}
use distributed_uvm.Ctl.{
  Command, rmmod, swapoff, stop, System, Node, is_module_loaded, is_swap_active, run_ok, when, warn,
  cmd_disable,
}
use distributed_uvm.Ctl.Rules.{Behaves, Triple-run, Triple-when, Triple-root, Triple-warn}

-- The programs that take away what serves remote pages.
abbrev pub tears_down : Command → Bool
tears_down rmmod = true
tears_down (stop name) = true
tears_down _ = false

module _ {W : Type 0} (sys : System W) where
  -- Each of those was run while no swap area of the module was in use.
  abbrev pub IsOrderly : List (Command × W) → Type 0
  IsOrderly [] = Unit
  IsOrderly ((cmd, w) ∷ cmds) = ((tears_down cmd && is_swap_active sys w) ≡ false) × IsOrderly cmds

  abbrev Orderly : Node W → Type 0
  Orderly s = IsOrderly s.commands

  -- Orderly so far, and the pages are back.
  abbrev Drained : Node W → Type 0
  Drained s = IsOrderly s.commands × (is_swap_active sys s.world ≡ false)

  module _ (behaves : Behaves sys) where
    stop-Triple :
        (name : String)
        → Triple Drained
            (when sys (sys.is_active name) (warn sys (run_ok sys (stop name))))
            (λ u. Drained)
            Orderly
    stop-Triple name =
        Triple-when sys (sys.is_active name)
          (Triple-warn sys (stop name) (λ s p.
            let ((o, off), active) = p in
            ((ground (arith, off), o), behaves.stays_off (stop name) s.world refl off)))
          (λ s p inactive. p)

    disable-Triple : Triple Orderly (cmd_disable sys) (λ u. Orderly) Orderly
    unfolding cmd_disable
    disable-Triple = Triple-bind (Triple-root sys (λ s o user. o)) λ u.
        Triple-bind
          (Triple-when sys {post = Drained} (is_swap_active sys)
            (Triple-run sys swapoff (λ s p t. ((refl, p.0), behaves.swapped_off s.world t))
              (λ s p f. (refl, p.0)))
            (λ s o off. (o, off)))
          λ u. Triple-bind (stop-Triple "duvm-daemon") λ u.
            Triple-bind (stop-Triple "duvm-memserver") λ u.
              Triple-when sys (is_module_loaded sys)
                (Triple-run sys rmmod
                  (λ s p t. let ((o, off), loaded) = p in (ground (arith, off), o))
                  (λ s p f. let ((o, off), loaded) = p in (ground (arith, off), o)))
                (λ s p unloaded. p.0)

    -- Where the system commands behave as documented, disable runs every program that stops a
    -- service or unloads the module while the module's swap area is not in use, whether disable
    -- succeeds or fails at any step.
    pub cmd_disable-IsOrderly :
        (s : Node W) → IsOrderly s.commands → IsOrderly (cmd_disable sys s).0.commands
    cmd_disable-IsOrderly s o = either (cmd_disable sys s) (disable-Triple.at s o)
      where
        either :
            (out : Node W × Outcome (Unit {0})) → Holds (λ u. Orderly) Orderly out → Orderly out.0
        either (s, ok u) h = h
        either (s, err x) h = h
        either (s, panic) h = h
