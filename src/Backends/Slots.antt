-- ===== src/Backends/Slots.antt =====
-- Maps whose keys all stand below a bound: a backend's pages and its next offset.
use distributed_uvm.Prelude.{ℕ, ◌≤◌, ◌<◌, ◌≡◌, none, arith, [], ◌∷◌, Option-cases, inl, inr}
use distributed_uvm.Prelude.HashMap.{HashMap, lookup, All, All-lookup}

module _ {ℓ} {V : Type ℓ} where
  abbrev pub IsBelow : ℕ → HashMap V → Type 0
  IsBelow n ps = All (λ k v. k < n) ps

  pub IsBelow-mono : (m n : ℕ) (ps : HashMap V) → m ≤ n → IsBelow m ps → IsBelow n ps
  IsBelow-mono m n [] h a = tt
  IsBelow-mono m n (p ∷ ps) h a = (omega arith, IsBelow-mono m n ps h a.1)

  -- A key that is not below the bound is absent.
  pub lookup_above : (n : ℕ) (ps : HashMap V) → IsBelow n ps → lookup n ps ≡ none
  lookup_above n ps a = elim (Option-cases (lookup n ps)) [
    | inl e ↦ e
    | inr (v, e) ↦ absurd (omega (arith, All-lookup (λ k (w : V). k < n) n v ps a e))
  ]
