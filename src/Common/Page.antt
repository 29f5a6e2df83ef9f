-- ===== src/Common/Page.antt =====
-- crates/duvm-common/src/page.rs: page handles, tiers and page flags.
pub mod Laws
pub mod Text
pub mod Operators
use Prim.Native.Nat.{bit_and, bit_or}
use distributed_uvm.Prelude.{
  ℕ, ◌+◌, ◌-◌, ◌*◌, ◌/◌, ◌%◌, ◌^◌, ◌≡◌, Bool, true, false, not, List, arith, ltb, ◌==◌,
  if◌then◌else◌,
}
use distributed_uvm.Prelude.Outcome.{Outcome, ok, panic}

-- The `u64` that a `PageHandle` wraps: the backend in the upper 8 bits, the offset in the lower 56.
abbrev pub PageHandle : Type 0
PageHandle = ℕ

-- `u64::MAX`
abbrev pub invalid : PageHandle
invalid = 2 ^ 64 - 1

-- `PageHandle::new`, whose `assert!` panics. A shift of a `u64` drops what leaves its 64 bits.
unfoldable pub new_handle : ℕ → ℕ → Outcome PageHandle
new_handle backend_id offset =
    if ltb offset (2 ^ 56) then ok (bit_or (backend_id * 2 ^ 56 % 2 ^ 64) offset) else panic

-- The cast to `u8` keeps the low byte.
unfoldable pub backend_id : PageHandle → ℕ
backend_id h = h / 2 ^ 56 % 2 ^ 8

unfoldable pub offset : PageHandle → ℕ
offset h = bit_and h (2 ^ 56 - 1)

abbrev pub raw : PageHandle → ℕ
raw h = h

abbrev pub from_raw : ℕ → PageHandle
from_raw r = r

unfoldable pub is_valid : PageHandle → Bool
is_valid h = not (h == invalid)

abbrev pub page_size : ℕ
page_size = 4096

-- `[u8; PAGE_SIZE]`, as its bytes.
abbrev pub PageBuffer : Type 0
PageBuffer = List ℕ

pub data Tier : Type 0 where
  local compressed cxl rdma gpu : Tier

-- The derived `PartialEq`.
unfoldable pub tier_eq : Tier → Tier → Bool
tier_eq local local = true
tier_eq compressed compressed = true
tier_eq cxl cxl = true
tier_eq rdma rdma = true
tier_eq gpu gpu = true
tier_eq _ _ = false

-- The `u8` of flags.
abbrev pub PageFlags : Type 0
PageFlags = ℕ

abbrev pub dirty : PageFlags
dirty = 1

abbrev pub pinned : PageFlags
pinned = 2

abbrev pub prefetched : PageFlags
prefetched = 4

abbrev pub migrating : PageFlags
migrating = 8

abbrev pub empty_flags : PageFlags
empty_flags = 0

unfoldable pub contains : PageFlags → PageFlags → Bool
contains flags flag = bit_and flags flag == flag

-- `!` on a `u8`
abbrev pub complement : PageFlags → PageFlags
complement flag = 2 ^ 8 - 1 - flag

-- `insert`, and `|=`
unfoldable pub insert_flag : PageFlags → PageFlags → PageFlags
insert_flag flags flag = bit_or flags flag

-- `remove`, and `&= !flag`
unfoldable pub remove_flag : PageFlags → PageFlags → PageFlags
remove_flag flags flag = bit_and flags (complement flag)
