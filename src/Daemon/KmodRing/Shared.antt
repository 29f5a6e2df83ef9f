-- ===== src/Daemon/KmodRing/Shared.antt =====
-- The region shared with the kernel: its indices, and what answering one request changes in it.
use Prim.Native.Nat.{bit_and}
use distributed_uvm.Prelude.{
  ℕ, ◌+◌, ◌-◌, ◌^◌, ◌%◌, ◌≡◌, ◌<◌, refl, sym, ap, ◌∙◌, subst, some, List, arith, length, get_elem?,
  set, length-set, leb, if◌then◌else◌,
}
use native.Mathlib.Nat.{mod-lt}
use distributed_uvm.Prelude.Bits.{bit_and_mask, pow_pos}
use distributed_uvm.Common.Page.{PageBuffer}
use distributed_uvm.Daemon.Engine.{Engine}
use distributed_uvm.Daemon.KmodRing.{KmodRequest, KmodCompletion, Region, answered, complete}

-- A ring of 2^k entries, as the kernel makes it, whose requests name slots that there are.
pub record IsRegion (k : ℕ) (region : Region) : Type 0 where
  pub masks : region.mask ≡ 2 ^ k - 1
  pub reads : region.req_read < 2 ^ k
  pub writes : region.req_write < 2 ^ k
  pub completes : region.comp_write < 2 ^ k
  pub requests : length region.requests ≡ 2 ^ k
  pub completions : length region.completions ≡ 2 ^ k
  pub slots :
      (i : ℕ) (req : KmodRequest)
      → get_elem? region.requests i ≡ some req
      → req.staging_slot < length region.staging

-- How many requests are pending.
abbrev pub pending : ℕ → Region → ℕ
pending k region =
    if leb region.req_read region.req_write
    then region.req_write - region.req_read
    else region.req_write + 2 ^ k - region.req_read

-- The completion that answers a request.
abbrev pub answer_to : KmodRequest → ℕ → KmodCompletion
answer_to req result = record { seq = req.seq; result = result; staging_slot = req.staging_slot }

-- The request `req` at the read index is answered with `result` at the completion index.
pub record IsNext (k : ℕ) (region : Region) (req : KmodRequest) (result : ℕ) (region' : Region)
    : Type 0 where
  pub valid : IsRegion k region'
  pub here : get_elem? region.requests region.req_read ≡ some req
  pub written :
      region'.completions ≡ set region.completions region.comp_write (answer_to req result)
  pub requests : region'.requests ≡ region.requests
  pub read : region'.req_read ≡ (region.req_read + 1) % 2 ^ k
  pub write : region'.req_write ≡ region.req_write
  pub completed : region'.comp_write ≡ (region.comp_write + 1) % 2 ^ k

-- A page written to the staging buffer is no concern of the indices.
pub staged-IsRegion :
    (k : ℕ) (region : Region) (slot : ℕ) (page : PageBuffer)
    → IsRegion k region
    → IsRegion k (record region { staging = set region.staging slot page })
staged-IsRegion k region slot page v = record {
  masks = v.masks;
  reads = v.reads;
  writes = v.writes;
  completes = v.completes;
  requests = v.requests;
  completions = v.completions;
  slots = λ i req h.
      subst (λ n. req.staging_slot < n) (sym (length-set region.staging slot page))
        (v.slots i req h);
}

-- The region that `complete` leaves.
abbrev pub completed_region : Region → KmodRequest → ℕ → Region
completed_region region req result = record region {
  req_read = bit_and (region.req_read + 1) region.mask;
  completions = set region.completions region.comp_write (answer_to req result);
  comp_write = bit_and (region.comp_write + 1) region.mask;
}

pub complete_run :
    {B : Type 0} (k : ℕ) (region : Region) (req : KmodRequest) (result : ℕ) (e : Engine B)
    → IsRegion k region
    → complete region req result e ≡ answered (completed_region region req result) e
complete_run k region req result e v =
    let room : region.comp_write < length region.completions =
      omega (arith, v.completes, v.completions) in
    unfold complete in ground (arith, room)

pub complete-IsNext :
    (k : ℕ) (region : Region) (staging : List PageBuffer) (req : KmodRequest) (result : ℕ)
    → IsRegion k (record region { staging = staging })
    → get_elem? region.requests region.req_read ≡ some req
    → IsNext k region req result (completed_region (record region { staging = staging }) req result)
complete-IsNext k region staging req result v here =
    let read : bit_and (region.req_read + 1) region.mask ≡ (region.req_read + 1) % 2 ^ k =
      ap (bit_and (region.req_read + 1)) v.masks ∙ bit_and_mask k (region.req_read + 1) in
    let comp : bit_and (region.comp_write + 1) region.mask ≡ (region.comp_write + 1) % 2 ^ k =
      ap (bit_and (region.comp_write + 1)) v.masks ∙ bit_and_mask k (region.comp_write + 1) in
    record {
      valid = record {
        masks = v.masks;
        reads = subst (λ x. x < 2 ^ k) (sym read) (below (region.req_read + 1));
        writes = v.writes;
        completes = subst (λ x. x < 2 ^ k) (sym comp) (below (region.comp_write + 1));
        requests = v.requests;
        completions =
            length-set region.completions region.comp_write (answer_to req result) ∙ v.completions;
        slots = v.slots;
      };
      here = here;
      written = refl;
      requests = refl;
      read = read;
      write = refl;
      completed = comp;
    }
  where
    below : (n : ℕ) → n % 2 ^ k < 2 ^ k
    below n = mod-lt n (pow_pos k)
