-- ===== src/Daemon/KmodRing.antt =====
-- crates/duvm-daemon/src/kmod_ring.rs: the consumer of the kernel's request ring. The shared memory is
-- a record of its indices and areas; an access outside an area, which Rust leaves undefined, is a
-- result of its own. The kernel does not write while a request is processed.
pub mod Load
pub mod Shared
pub mod Cases
pub mod Step
pub mod Effect
pub mod RoundTrip
pub mod System
pub mod Recall
pub mod Coherent
pub mod Order
pub mod Drain
pub mod Loop
pub mod Layout
pub mod Open
use Prim.Native.Nat.{bit_and}
use distributed_uvm.Prelude.{
  ℕ, zero, suc, ◌+◌, ◌-◌, ◌^◌, Bool, true, false, Option, none, some, List, [], ◌∷◌, ltb, ◌==◌,
  if◌then◌else◌, get_elem?, set, length,
}
use distributed_uvm.Prelude.Outcome.{Outcome, ok, err, panic}
use distributed_uvm.Common.Page.{PageBuffer}
use distributed_uvm.Backends.Trait.{DuvmBackend}
use distributed_uvm.Daemon.Engine.{Engine, Float, store_page, load_page}

-- Without flags, page frame number and padding, which the consumer does not read.
pub record KmodRequest : Type 0 where
  pub op : ℕ
  pub seq : ℕ
  pub offset : ℕ
  pub staging_slot : ℕ

-- `result` is the bit pattern of the `i32`; the handle is always 0.
pub record KmodCompletion : Type 0 where
  pub seq : ℕ
  pub result : ℕ
  pub staging_slot : ℕ

abbrev op_store : ℕ
op_store = 1

abbrev pub op_load : ℕ
op_load = 2

-- The mapped region.
pub record Region : Type 0 where
  pub req_write : ℕ
  pub req_read : ℕ
  pub comp_write : ℕ
  pub mask : ℕ
  pub requests : List KmodRequest
  pub completions : List KmodCompletion
  pub staging : List PageBuffer

-- -1
abbrev pub failure : ℕ
failure = 2 ^ 32 - 1

-- How a poll ends: nothing to do, an access outside the region, a panic in the engine, or a request
-- that was answered.
pub data Polled (B : Type 0) : Type 0 where
  idle : Polled B
  outside : Polled B
  panicked : Engine B → Polled B
  answered : Region → Engine B → Polled B

-- How the polls end: nothing is pending, or as a poll ends.
pub data Drained (B : Type 0) : Type 0 where
  drained : Region → Engine B → Drained B
  crashed : Engine B → Drained B
  left_region : Drained B

-- The last part of `poll_once`.
unfoldable pub complete : {B : Type 0} → Region → KmodRequest → ℕ → Engine B → Polled B
complete region req result e =
    if ltb region.comp_write (length region.completions)
    then answered
        (record region {
          req_read = bit_and (region.req_read + 1) region.mask;
          completions =
              set region.completions region.comp_write
                (record { seq = req.seq; result = result; staging_slot = req.staging_slot });
          comp_write = bit_and (region.comp_write + 1) region.mask;
        })
        e
    else outside

module _ {F B : Type 0} (float : Float F) (ops : DuvmBackend B) where
  unfoldable pub process : Region → KmodRequest → ℕ → Engine B → Polled B
  process region req now e =
      if req.op == op_store
      then elim (get_elem? region.staging req.staging_slot) [
        | none ↦ outside
        | some page ↦
            let (e', r) = store_page float ops req.offset page now e in
            elim r [
              | ok handle ↦ complete region req 0 e'
              | err x ↦ complete region req failure e'
              | panic ↦ panicked e'
            ]
      ]
      else if req.op == op_load
      then (let (e', r) = load_page ops req.offset now e in
          elim r [
            | err x ↦ complete region req failure e'
            | panic ↦ panicked e'
            | ok page ↦
                if ltb req.staging_slot (length region.staging)
                then complete (record region { staging = set region.staging req.staging_slot page })
                    req 0 e'
                else outside
          ])
      else complete region req failure e

  unfoldable pub poll_once : Region → ℕ → Engine B → Polled B
  poll_once region now e =
      if region.req_read == region.req_write
      then idle
      else elim (get_elem? region.requests region.req_read) [
        | none ↦ outside
        | some req ↦ process region req now e
      ]

  -- The inner loop of `run_loop`, `while self.poll_once(engine) {}`, on fuel, with the time of each
  -- poll, while the kernel writes nothing.
  unfoldable pub drain : ℕ → (ℕ → ℕ) → Region → Engine B → Option (Drained B)
  drain zero clock region e = none
  drain (suc fuel) clock region e = elim (poll_once region (clock fuel) e) [
    | idle ↦ some (drained region e)
    | outside ↦ some left_region
    | panicked e' ↦ some (crashed e')
    | answered region' e' ↦ drain fuel clock region' e'
  ]

  -- `run_loop`, on fuel for the tests of its two loops, which `t` counts: `inside` where the inner
  -- loop is next. Before each test the kernel writes to the region, what `kernel t` says; `stop t`
  -- is the flag at test `t`.
  unfoldable pub run_loop :
      ℕ
      → Bool
      → (ℕ → Bool)
      → (ℕ → Region → Region)
      → (ℕ → ℕ)
      → ℕ
      → Region
      → Engine B
      → Option (Drained B)
  run_loop zero inside stop kernel clock t region e = none
  run_loop (suc fuel) false stop kernel clock t region e = elim (stop t) [
    | true ↦ some (drained (kernel t region) e)
    | false ↦ run_loop fuel true stop kernel clock (suc t) (kernel t region) e
  ]
  run_loop (suc fuel) true stop kernel clock t region e =
      elim (poll_once (kernel t region) (clock t) e) [
        | idle ↦ run_loop fuel false stop kernel clock (suc t) (kernel t region) e
        | outside ↦ some left_region
        | panicked e' ↦ some (crashed e')
        | answered region' e' ↦ run_loop fuel true stop kernel clock (suc t) region' e'
      ]
