-- ===== src/Daemon/Uffd.antt =====
-- crates/duvm-daemon/src/uffd.rs: a memory region whose missing pages the daemon fills in. The system
-- calls are parameters; the state counts what is open and what is mapped.
pub mod Region
use distributed_uvm.Prelude.{
  ℕ, ◌+◌, ◌-◌, ◌*◌, ◌/◌, ◌%◌, ◌^◌, Bool, true, false, Option, none, some, ◌==◌, if◌then◌else◌,
}
use distributed_uvm.Prelude.Outcome.{Outcome, ok, err, panic, io_failed}
use distributed_uvm.Prelude.Method.{Method, ◌>>=◌, ◌>>◌, pure}
use distributed_uvm.Common.Page.{PageBuffer}

-- `UffdRange` and the mode of `UffdioRegister`.
pub record UffdioRegister : Type 0 where
  pub start : ℕ
  pub len : ℕ
  pub mode : ℕ

-- `UffdCopy`: the source is the page that is copied.
pub record UffdCopy : Type 0 where
  pub dst : ℕ
  pub src : PageBuffer
  pub len : ℕ
  pub mode : ℕ

-- A message that was read: the kind of event and the address of the fault.
pub record UffdMsg : Type 0 where
  pub event : ℕ
  pub address : ℕ

-- What `read` returns: a message, an error that says to come back, or another error.
pub data ReadResult : Type 0 where
  message : UffdMsg → ReadResult
  would_block failed : ReadResult

abbrev pub uffdio_register_mode_missing : ℕ
uffdio_register_mode_missing = 1

-- The calls give a descriptor or an address, or fail.
pub record Calls (W : Type 0) : Type 0 where
  pub userfaultfd : W → W × Option ℕ
  pub ioctl_api : ℕ → W → W × Bool
  pub mmap : ℕ → W → W × Option ℕ
  pub ioctl_register : ℕ → UffdioRegister → W → W × Bool
  pub ioctl_copy : ℕ → UffdCopy → W → W × Bool
  pub read : ℕ → W → W × ReadResult
  pub munmap : ℕ → ℕ → W → W
  pub close : ℕ → W → W

-- The world, and how many descriptors are open and regions are mapped.
pub record Process (W : Type 0) : Type 0 where
  pub world : W
  pub open_fds : ℕ
  pub mapped : ℕ

pub record UffdRegion : Type 0 where
  pub uffd : ℕ
  pub base : ℕ
  pub len : ℕ

-- `(size + page_size - 1) & !(page_size - 1)` on a `usize`: the sum wraps, and the mask clears the
-- low 12 bits.
unfoldable pub align_up : ℕ → ℕ
align_up size = (size + 4095) % 2 ^ 64 / 4096 * 4096

-- `fault_addr & !0xFFF`
unfoldable pub page_start : ℕ → ℕ
page_start fault_addr = fault_addr / 4096 * 4096

module _ {W : Type 0} (calls : Calls W) where
  abbrev close_fd : ℕ → Process W → Process W
  close_fd fd s = record s { world = calls.close fd s.world; open_fds = s.open_fds - 1 }

  abbrev unmap : ℕ → ℕ → Process W → Process W
  unmap base len s = record s { world = calls.munmap base len s.world; mapped = s.mapped - 1 }

  unfoldable pub open_uffd : Method (Process W) ℕ
  open_uffd s =
      let (w, fd) = calls.userfaultfd s.world in
      elim fd [
        | none ↦ (record s { world = w }, err io_failed)
        | some fd ↦ (record s { world = w; open_fds = s.open_fds + 1 }, ok fd)
      ]

  unfoldable pub init_api : ℕ → Method (Process W) (Unit {0})
  init_api fd s =
      let (w, success) = calls.ioctl_api fd s.world in
      if success
      then (record s { world = w }, ok tt)
      else (close_fd fd (record s { world = w }), err io_failed)

  unfoldable pub map_region : ℕ → ℕ → Method (Process W) ℕ
  map_region fd size s =
      let (w, base) = calls.mmap size s.world in
      elim base [
        | none ↦ (close_fd fd (record s { world = w }), err io_failed)
        | some base ↦ (record s { world = w; mapped = s.mapped + 1 }, ok base)
      ]

  unfoldable pub register : ℕ → ℕ → ℕ → Method (Process W) (Unit {0})
  register fd base size s =
      let range : UffdioRegister = record {
        start = base;
        len = size;
        mode = uffdio_register_mode_missing;
      } in
      let (w, success) = calls.ioctl_register fd range s.world in
      if success
      then (record s { world = w }, ok tt)
      else (close_fd fd (unmap base size (record s { world = w })), err io_failed)

  unfoldable pub new : ℕ → Method (Process W) UffdRegion
  new size = do
    let size = align_up size
    fd ← open_uffd
    init_api fd
    base ← map_region fd size
    register fd base size
    pure (record { uffd = fd; base = base; len = size })

  unfoldable pub drop_region : UffdRegion → Process W → Process W
  drop_region r s = close_fd r.uffd (unmap r.base r.len s)

  unfoldable pub read_event : UffdRegion → Method (Process W) (Option ℕ)
  read_event r s =
      let (w, result) = calls.read r.uffd s.world in
      elim result [
        | failed ↦ (record s { world = w }, err io_failed)
        | would_block ↦ (record s { world = w }, ok none)
        | message msg ↦
            (record s { world = w }, ok (if msg.event == 0 then some msg.address else none))
      ]

  unfoldable pub resolve_fault : UffdRegion → ℕ → PageBuffer → Method (Process W) (Unit {0})
  resolve_fault r fault_addr page s =
      let copy : UffdCopy = record {
        dst = page_start fault_addr;
        src = page;
        len = 4096;
        mode = 0;
      } in
      let (w, success) = calls.ioctl_copy r.uffd copy s.world in
      if success then (record s { world = w }, ok tt) else (record s { world = w }, err io_failed)
