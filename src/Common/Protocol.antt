-- ===== src/Common/Protocol.antt =====
-- crates/duvm-common/src/protocol.rs: opcodes and the two messages of the rings.
use distributed_uvm.Prelude.{ℕ, ◌==◌, Option, none, some, ◌≡◌, if◌then◌else◌, arith}

pub data OpCode : Type 0 where
  nop store load invalidate prefetch : OpCode

unfoldable pub from_u8 : ℕ → Option OpCode
from_u8 v =
    if v == 0
    then some nop
    else if v == 1
    then some store
    else if v == 2
    then some load
    else if v == 3
    then some invalidate
    else if v == 4
    then some prefetch
    else none

-- The discriminants of `#[repr(u8)]`.
unfoldable pub to_u8 : OpCode → ℕ
to_u8 nop = 0
to_u8 store = 1
to_u8 load = 2
to_u8 invalidate = 3
to_u8 prefetch = 4

-- The padding and the reserved bytes carry nothing and are left out.
pub record RingRequest : Type 0 where
  pub op : ℕ
  pub flags : ℕ
  pub seq : ℕ
  pub pfn : ℕ
  pub offset : ℕ
  pub staging_slot : ℕ

-- `result` is the bit pattern of the `i32`.
pub record RingCompletion : Type 0 where
  pub seq : ℕ
  pub result : ℕ
  pub handle : ℕ
  pub staging_slot : ℕ

pub from_u8-to_u8 : (c : OpCode) → from_u8 (to_u8 c) ≡ some c
unfolding from_u8 to_u8
from_u8-to_u8 c = ground arith

-- A byte that decodes to an opcode is the byte of that opcode.
pub to_u8-from_u8 : (v : ℕ) (c : OpCode) → from_u8 v ≡ some c → to_u8 c ≡ v
unfolding from_u8 to_u8
to_u8-from_u8 v c h = ground arith
