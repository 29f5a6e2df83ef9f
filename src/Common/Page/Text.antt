-- ===== src/Common/Page/Text.antt =====
-- The texts of crates/duvm-common/src/page.rs that `Display` gives; the printing of a number is a parameter.
use Prim.Native.String.{String, ◌++◌}
use distributed_uvm.Prelude.{ℕ}
use distributed_uvm.Common.Page.{PageHandle, backend_id, offset, Tier}

unfoldable pub display_handle : (ℕ → String) → PageHandle → String
display_handle show h =
    "PageHandle(backend=" ++ show (backend_id h) ++ ", offset=" ++ show (offset h) ++ ")"

unfoldable pub display_tier : Tier → String
display_tier Tier.local = "local"
display_tier Tier.compressed = "compressed"
display_tier Tier.cxl = "cxl"
display_tier Tier.rdma = "rdma"
display_tier Tier.gpu = "gpu"
