-- ===== src/Common/Page/Laws.antt =====
-- What page.rs promises: handles pack and unpack, flags are set and cleared one by one.
use Prim.Native.Nat.{bit_and, bit_or}
use distributed_uvm.Prelude.{ℕ, ◌+◌, ◌*◌, ◌/◌, ◌%◌, ◌^◌, ◌≤◌, ◌<◌, ◌≡◌, ◌≢◌, ap, true, false, arith}
use distributed_uvm.Prelude.Bits.{bit_and_mask, bit_or_shift}
use distributed_uvm.Prelude.Bits.Flags.{
  bit_and-bit_or_self, bit_and-bit_or_other, bit_and_clear, bit_and_clear_other,
}
use distributed_uvm.Prelude.Outcome.{ok, panic}
use distributed_uvm.Common.Page.{
  PageHandle, new_handle, backend_id, offset, Tier, tier_eq, PageFlags, contains, insert_flag,
  remove_flag,
}

pub new_handle-eq : (b o : ℕ) → b < 2 ^ 8 → o < 2 ^ 56 → new_handle b o ≡ ok (b * 2 ^ 56 + o)
unfolding new_handle
new_handle-eq b o hb ho =
    let shift : b * 2 ^ 56 % 2 ^ 64 ≡ b * 2 ^ 56 = omega arith in
    ground (arith, bit_or_shift 56 b o ho, ap (λ x. bit_or x o) shift)

pub offset-eq : (h : PageHandle) → offset h ≡ h % 2 ^ 56
unfolding offset
offset-eq h = bit_and_mask 56 h

pub offset-lt : (h : PageHandle) → offset h < 2 ^ 56
offset-lt h = omega (arith, offset-eq h)

new_handle-lt : (b o : ℕ) (h : PageHandle) → new_handle b o ≡ ok h → o < 2 ^ 56
unfolding new_handle
new_handle-lt b o h e = ground arith

-- A handle made of a backend id below 2^8 and an offset gives both back, and the offset is below
-- 2^56.
pub new_handle-parts :
    (b o : ℕ) (h : PageHandle)
    → b < 2 ^ 8
    → new_handle b o ≡ ok h
    → (o < 2 ^ 56) × (backend_id h ≡ b) × (offset h ≡ o)
unfolding backend_id
new_handle-parts b o h hb e =
    ground (arith, new_handle-lt b o h e, new_handle-eq b o hb (new_handle-lt b o h e), offset-eq h)

-- Every 64-bit handle is the handle made of its own backend id and offset.
pub handle-new_handle : (h : PageHandle) → h < 2 ^ 64 → new_handle (backend_id h) (offset h) ≡ ok h
unfolding backend_id
handle-new_handle h hh =
    ground (
      arith,
      new_handle-eq (h / 2 ^ 56 % 2 ^ 8) (offset h) (omega arith) (offset-lt h),
      offset-eq h,
    )

pub new_handle_panics : (b o : ℕ) → 2 ^ 56 ≤ o → new_handle b o ≡ panic
unfolding new_handle
new_handle_panics b o h = ground arith

pub contains-insert_flag : (s f : PageFlags) → contains (insert_flag s f) f ≡ true
unfolding contains insert_flag
contains-insert_flag s f = ground (arith, bit_and-bit_or_self s f)

pub contains-insert_flag_other :
    (s f g : PageFlags) → bit_and f g ≡ 0 → contains (insert_flag s f) g ≡ contains s g
unfolding contains insert_flag
contains-insert_flag_other s f g h = ground (arith, bit_and-bit_or_other s f g h)

pub contains-remove_flag :
    (s f : PageFlags) → f < 2 ^ 8 → f ≢ 0 → contains (remove_flag s f) f ≡ false
unfolding contains remove_flag
contains-remove_flag s f h ne = ground (arith, bit_and_clear 8 s f h)

pub contains-remove_flag_other :
    (s f g : PageFlags)
    → f < 2 ^ 8
    → g < 2 ^ 8
    → bit_and f g ≡ 0
    → contains (remove_flag s f) g ≡ contains s g
unfolding contains remove_flag
contains-remove_flag_other s f g hf hg h = ground (arith, bit_and_clear_other 8 s f g hf hg h)

pub tier_eq→eq : (s t : Tier) → tier_eq s t ≡ true → s ≡ t
unfolding tier_eq
tier_eq→eq s t h = ground arith

pub tier_eq_refl : (t : Tier) → tier_eq t t ≡ true
unfolding tier_eq
tier_eq_refl t = ground arith
