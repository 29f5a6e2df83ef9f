-- ===== src/Common/Page/Operators.antt =====
-- The operators on flags of crates/duvm-common/src/page.rs, on a `u8`; `!` is `complement`.
use Prim.Native.Nat.{bit_and, bit_or}
use distributed_uvm.Common.Page.{PageFlags}

unfoldable pub bitor : PageFlags → PageFlags → PageFlags
bitor a b = bit_or a b

-- An assignment gives the new value.
unfoldable pub bitor_assign : PageFlags → PageFlags → PageFlags
bitor_assign a b = bit_or a b

unfoldable pub bitand : PageFlags → PageFlags → PageFlags
bitand a b = bit_and a b

unfoldable pub bitand_assign : PageFlags → PageFlags → PageFlags
bitand_assign a b = bit_and a b
