-- ===== src/Daemon/KmodRing/Order.antt =====
-- The completions of crates/duvm-daemon/src/kmod_ring.rs stand in the order of the requests.
use distributed_uvm.Prelude.{
  ℕ, zero, suc, ◌+◌, ◌-◌, ◌^◌, ◌%◌, ◌≡◌, ◌≢◌, ◌<◌, ◌≤◌, refl, sym, ap, ◌∙◌, some, arith, get_elem?,
  get_elem?-set_self, get_elem?-set_ne,
}
use native.Mathlib.Nat.{mod-eq_of_lt, mod-add-mod, add-mod_right}
use distributed_uvm.Prelude.Bits.{pow_pos}
use distributed_uvm.Prelude.Modular.{mod_apart, mod_shift}
use distributed_uvm.Daemon.KmodRing.{KmodRequest, Region}
use distributed_uvm.Daemon.KmodRing.Shared.{IsRegion, pending, IsNext, answer_to}

-- The request that is pending at distance `i` from the read index is answered at distance `i` from
-- the completion index, and no other completion is written.
pub record IsInOrder (k : ℕ) (region region' : Region) : Type 0 where
  pub answered :
      (i : ℕ)
      → i < pending k region
      → (req : KmodRequest) × (result : ℕ) × (get_elem? region.requests
            ((region.req_read + i) % 2 ^ k)
          ≡ some req)
        × (get_elem? region'.completions ((region.comp_write + i) % 2 ^ k)
            ≡ some (answer_to req result))
  pub untouched :
      (i : ℕ)
      → pending k region ≤ i
      → i < 2 ^ k
      → get_elem? region'.completions ((region.comp_write + i) % 2 ^ k)
        ≡ get_elem? region.completions ((region.comp_write + i) % 2 ^ k)

pub none_pending-IsInOrder :
    (k : ℕ) (region : Region) → pending k region ≡ 0 → IsInOrder k region region
none_pending-IsInOrder k region e = record {
  answered = λ i below. absurd (omega (arith, e, below));
  untouched = λ i above below. refl;
}

-- The turn of an index, and a whole round of it.
next_turn : (k h h' i : ℕ) → h' ≡ (h + 1) % 2 ^ k → (h' + i) % 2 ^ k ≡ (h + suc i) % 2 ^ k
next_turn k h h' i e = ap (λ x. (x + i) % 2 ^ k) e ∙ mod_shift h i (2 ^ k)

full_turn : (k h h' : ℕ) → h < 2 ^ k → h' ≡ (h + 1) % 2 ^ k → (h' + (2 ^ k - 1)) % 2 ^ k ≡ h
full_turn k h h' below e =
    ap (λ x. (x + (2 ^ k - 1)) % 2 ^ k) e
    ∙ mod-add-mod (h + 1) (2 ^ k) (2 ^ k - 1)
    ∙ ap (λ x. x % 2 ^ k) (omega (arith, pow_pos k))
    ∙ add-mod_right h (2 ^ k)
    ∙ mod-eq_of_lt below

first_turn : (k h : ℕ) → h < 2 ^ k → (h + 0) % 2 ^ k ≡ h
first_turn k h below = ap (λ x. x % 2 ^ k) (omega arith) ∙ mod-eq_of_lt below

-- A poll, and what comes after it.
module _ (k : ℕ) (region : Region) (asked : KmodRequest) (given : ℕ) (region₁ region' : Region)
    (v : IsRegion k region) (n : IsNext k region asked given region₁)
    (step : suc (pending k region₁) ≡ pending k region) (later : IsInOrder k region₁ region') where
  first :
      get_elem? region'.completions ((region.comp_write + 0) % 2 ^ k) ≡ some (answer_to asked given)
  first =
      let c = region.comp_write in
      let full = full_turn k c region₁.comp_write v.completes n.completed in
      let kept =
        later.untouched (2 ^ k - 1) (omega (arith, step, few)) (omega (arith, pow_pos k)) in
      ap (get_elem? region'.completions) (first_turn k c v.completes ∙ sym full)
      ∙ kept
      ∙ ap (get_elem? region₁.completions) full
      ∙ ap (λ xs. get_elem? xs c) n.written
      ∙ get_elem?-set_self region.completions c (answer_to asked given)
          (omega (arith, v.completes, v.completions))
    where
      few : pending k region < 2 ^ k
      few = ground (arith, v.reads, v.writes)

  next_answered :
      (i : ℕ)
      → i < pending k region
      → (req : KmodRequest) × (result : ℕ) × (get_elem? region.requests
            ((region.req_read + i) % 2 ^ k)
          ≡ some req)
        × (get_elem? region'.completions ((region.comp_write + i) % 2 ^ k)
            ≡ some (answer_to req result))
  next_answered zero below = (
    asked,
    given,
    ap (get_elem? region.requests) (first_turn k region.req_read v.reads) ∙ n.here,
    first,
  )
  next_answered (suc i) below =
      let (req, result, here, there) = later.answered i (omega (arith, step, below)) in
      (
        req,
        result,
        ap (λ xs. get_elem? xs ((region.req_read + suc i) % 2 ^ k)) (sym n.requests)
            ∙ ap (get_elem? region₁.requests)
                (sym (next_turn k region.req_read region₁.req_read i n.read))
            ∙ here,
        ap (get_elem? region'.completions)
              (sym (next_turn k region.comp_write region₁.comp_write i n.completed))
            ∙ there,
      )

  next_untouched :
      (i : ℕ)
      → pending k region ≤ i
      → i < 2 ^ k
      → get_elem? region'.completions ((region.comp_write + i) % 2 ^ k)
        ≡ get_elem? region.completions ((region.comp_write + i) % 2 ^ k)
  next_untouched zero above below = absurd (omega (arith, step, above))
  next_untouched (suc i) above below =
      let c = region.comp_write in
      let turn = next_turn k c region₁.comp_write i n.completed in
      let apart : c ≢ (c + suc i) % 2 ^ k = λ e.
        mod_apart c 0 (suc i) (2 ^ k) v.completes (omega arith) below
          (first_turn k c v.completes ∙ e) in
      ap (get_elem? region'.completions) (sym turn)
      ∙ later.untouched i (omega (arith, step, above)) (omega (arith, below))
      ∙ ap (get_elem? region₁.completions) turn
      ∙ ap (λ xs. get_elem? xs ((c + suc i) % 2 ^ k)) n.written
      ∙ get_elem?-set_ne region.completions (answer_to asked given) apart

  pub next-IsInOrder : IsInOrder k region region'
  next-IsInOrder = record { answered = next_answered; untouched = next_untouched }
