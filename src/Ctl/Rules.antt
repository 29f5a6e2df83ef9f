-- ===== src/Ctl/Rules.antt =====
-- How the system commands behave, and the rules for the parts that crates/duvm-ctl/src/main.rs is made of.
use Prim.Native.String.{String}
use distributed_uvm.Prelude.{
  refl, ◌≢◌, ℕ, ◌≡◌, sym, subst, Bool, true, false, ◌∷◌, arith, inl, inr, Bool-cases,
}
use distributed_uvm.Prelude.Outcome.{Outcome, panic, ok, err, io_failed, not_root}
use distributed_uvm.Prelude.Method.{Holds, Triple}
use distributed_uvm.Ctl.{
  Command, modprobe, insmod, rmmod, swapon, swapoff, System, Node, Action, is_module_loaded,
  is_swap_active, run_ok, when, warn, check_root,
}

-- Only `swapon` adds a swap area and only the module's loaders load it.
abbrev pub activates : Command → Bool
activates (swapon pri) = true
activates _ = false

abbrev pub unloads : Command → Bool
unloads rmmod = true
unloads _ = false

-- What a program that ended well has done, and what no other program does.
pub record Behaves {W : Type 0} (sys : System W) : Type 0 where
  pub swapped_on :
      (pri : String) (w : W)
      → (sys.spawn (swapon pri) w).1 ≡ true
      → is_swap_active sys (sys.spawn (swapon pri) w).0 ≡ true
  pub swapped_off :
      (w : W) → (sys.spawn swapoff w).1 ≡ true → is_swap_active sys (sys.spawn swapoff w).0 ≡ false
  pub stays_off :
      (cmd : Command) (w : W)
      → activates cmd ≡ false
      → is_swap_active sys w ≡ false
      → is_swap_active sys (sys.spawn cmd w).0 ≡ false
  pub probed :
      (mb : ℕ) (w : W)
      → (sys.spawn (modprobe mb) w).1 ≡ true
      → is_module_loaded sys (sys.spawn (modprobe mb) w).0 ≡ true
  pub inserted :
      (path : String) (mb : ℕ) (w : W)
      → (sys.spawn (insmod path mb) w).1 ≡ true
      → is_module_loaded sys (sys.spawn (insmod path mb) w).0 ≡ true
  pub removed :
      (w : W) → (sys.spawn rmmod w).1 ≡ true → is_module_loaded sys (sys.spawn rmmod w).0 ≡ false
  pub module_stays :
      (cmd : Command) (w : W)
      → unloads cmd ≡ false
      → is_module_loaded sys w ≡ true
      → is_module_loaded sys (sys.spawn cmd w).0 ≡ true

module _ {W : Type 0} (sys : System W) where
  -- The node after a program was run.
  abbrev pub ran : Command → Node W → Node W
  ran cmd s = record { world = (sys.spawn cmd s.world).0; commands = (cmd, s.world) ∷ s.commands }

  module _ {pre post fail : Node W → Type 0} where
    pub Triple-run :
        (cmd : Command)
        → ((s : Node W) → pre s → (sys.spawn cmd s.world).1 ≡ true → post (ran cmd s))
        → ((s : Node W) → pre s → (sys.spawn cmd s.world).1 ≡ false → fail (ran cmd s))
        → Triple pre (run_ok sys cmd) (λ u. post) fail
    unfolding run_ok
    Triple-run cmd good bad = record {
      at = λ s p. elim (Bool-cases (sys.spawn cmd s.world).1) [
        | inl t ↦
            let run : run_ok sys cmd s ≡ (ran cmd s, ok tt) = ground (arith, t) in
            subst (Holds (λ u. post) fail) (sym run) (good s p t)
        | inr f ↦
            let run : run_ok sys cmd s ≡ (ran cmd s, err io_failed) = ground (arith, f) in
            subst (Holds (λ u. post) fail) (sym run) (bad s p f)
      ];
    }

    pub Triple-when :
        (test : W → Bool) {action : Action sys}
        → Triple (λ s. pre s × (test s.world ≡ true)) action (λ u. post) fail
        → ((s : Node W) → pre s → test s.world ≡ false → post s)
        → Triple pre (when sys test action) (λ u. post) fail
    unfolding when
    Triple-when test {action} t skip = record {
      at = λ s p. elim (Bool-cases (test s.world)) [
        | inl e ↦
            let run : when sys test action s ≡ action s = ground (arith, e) in
            subst (Holds (λ u. post) fail) (sym run) (t.at s (p, e))
        | inr e ↦
            let run : when sys test action s ≡ (s, ok tt) = ground (arith, e) in
            subst (Holds (λ u. post) fail) (sym run) (skip s p e)
      ];
    }

  warn-Holds :
      (keep fail : Node W → Type 0) (out : Node W × Outcome (Unit {0}))
      → keep out.0
      → out.1 ≢ panic
      → Holds {A = Unit {0}}
          (λ u. keep)
          fail
          (elim out.1 [ ok a ↦ (out.0, ok a) | err x ↦ (out.0, ok tt) | panic ↦ (out.0, panic) ])
  warn-Holds keep fail (s, ok u) k h = k
  warn-Holds keep fail (s, err x) k h = k
  warn-Holds keep fail (s, panic) k h = absurd (h refl)

  run_ok_lem :
      (cmd : Command) (s : Node W)
      → ((run_ok sys cmd s).0 ≡ ran cmd s) × ((run_ok sys cmd s).1 ≢ panic)
  unfolding run_ok
  run_ok_lem cmd s = elim (Bool-cases (sys.spawn cmd s.world).1) [
    | inl t ↦ (ground (arith, t), λ h. absurd (ground (arith, t, h)))
    | inr t ↦ (ground (arith, t), λ h. absurd (ground (arith, t, h)))
  ]

  -- A program whose failure is only reported.
  pub Triple-warn :
      {pre keep fail : Node W → Type 0} (cmd : Command)
      → ((s : Node W) → pre s → keep (ran cmd s))
      → Triple pre (warn sys (run_ok sys cmd)) (λ u. keep) fail
  Triple-warn {keep} {fail} cmd kept = record {
    at = λ s p.
        let (same, returns) = run_ok_lem cmd s in
        warn-Holds keep fail (run_ok sys cmd s) (subst keep (sym same) (kept s p)) returns;
  }

  pub Triple-root :
      {pre fail : Node W → Type 0}
      → ((s : Node W) → pre s → sys.is_root s.world ≡ false → fail s)
      → Triple pre (check_root sys) (λ u. pre) fail
  unfolding check_root
  Triple-root {pre} {fail} lost = record {
    at = λ s p. elim (Bool-cases (sys.is_root s.world)) [
      | inl e ↦
          let run : check_root sys s ≡ (s, ok tt) = ground (arith, e) in
          subst (Holds (λ u. pre) fail) (sym run) p
      | inr e ↦
          let run : check_root sys s ≡ (s, err not_root) = ground (arith, e) in
          subst (Holds (λ u. pre) fail) (sym run) (lost s p e)
    ];
  }
