-- ===== src/Daemon/Uffd/Region.antt =====
-- A region of crates/duvm-daemon/src/uffd.rs: what making it and dropping it take and give back, and the
-- pages that it consists of.
use distributed_uvm.Prelude.{
  ℕ, ◌+◌, ◌%◌, ◌^◌, ◌≤◌, ◌<◌, ◌≡◌, refl, sym, subst, arith, inl, inr, Bool-cases, Option-cases,
}
use distributed_uvm.Prelude.Outcome.{Outcome, ok, err, panic, io_failed}
use distributed_uvm.Prelude.Method.{pure, Holds, Triple, Triple-bind}
use distributed_uvm.Daemon.Uffd.{
  Calls, Process, UffdRegion, UffdioRegister, uffdio_register_mode_missing, align_up, page_start,
  close_fd, unmap, open_uffd, init_api, map_region, register, new, drop_region,
}

pub align_up_lem :
    (size : ℕ)
    → size + 4095 < 2 ^ 64
    → (size ≤ align_up size) × (align_up size < size + 4096) × (align_up size % 4096 ≡ 0)
unfolding align_up
align_up_lem size room = (omega (arith, room), omega (arith, room), omega (arith, room))

page_start_lem :
    (addr : ℕ)
    → (page_start addr ≤ addr) × (addr < page_start addr + 4096) × (page_start addr % 4096 ≡ 0)
unfolding page_start
page_start_lem addr = (omega arith, omega arith, omega arith)

module _ {W : Type 0} (calls : Calls W) (fds maps : ℕ) where
  -- `f` descriptors and `m` regions more than there were.
  abbrev More : ℕ → ℕ → Process W → Type 0
  More f m s = (s.open_fds ≡ fds + f) × (s.mapped ≡ maps + m)

  open-Triple : Triple (More 0 0) (open_uffd calls) (λ fd. More 1 0) (More 0 0)
  unfolding open_uffd
  open-Triple = record {
    at = λ s p.
        let w = (calls.userfaultfd s.world).0 in
        let Goal : Process W × Outcome ℕ → Type 0 = Holds (λ fd. More 1 0) (More 0 0) in
        elim (Option-cases (calls.userfaultfd s.world).1) [
          | inl t ↦
              let run : open_uffd calls s ≡ (record s { world = w }, err io_failed) =
                ground (arith, t) in
              subst Goal (sym run) p
          | inr (fd, t) ↦
              let s' : Process W = record s { world = w; open_fds = s.open_fds + 1 } in
              let run : open_uffd calls s ≡ (s', ok fd) = ground (arith, t) in
              subst Goal (sym run) (omega (arith, p.0), p.1)
        ];
  }

  api-Triple : (fd : ℕ) → Triple (More 1 0) (init_api calls fd) (λ u. More 1 0) (More 0 0)
  unfolding init_api
  api-Triple fd = record {
    at = λ s p.
        let w = (calls.ioctl_api fd s.world).0 in
        let Goal : Process W × Outcome (Unit {0}) → Type 0 = Holds (λ u. More 1 0) (More 0 0) in
        elim (Bool-cases (calls.ioctl_api fd s.world).1) [
          | inl t ↦
              let run : init_api calls fd s ≡ (record s { world = w }, ok tt) = ground (arith, t) in
              subst Goal (sym run) p
          | inr t ↦
              let s' : Process W = close_fd calls fd (record s { world = w }) in
              let run : init_api calls fd s ≡ (s', err io_failed) = ground (arith, t) in
              subst Goal (sym run) (omega (arith, p.0), p.1)
        ];
  }

  map-Triple :
      (fd size : ℕ) → Triple (More 1 0) (map_region calls fd size) (λ base. More 1 1) (More 0 0)
  unfolding map_region
  map-Triple fd size = record {
    at = λ s p.
        let w = (calls.mmap size s.world).0 in
        let Goal : Process W × Outcome ℕ → Type 0 = Holds (λ base. More 1 1) (More 0 0) in
        elim (Option-cases (calls.mmap size s.world).1) [
          | inl t ↦
              let s' : Process W = close_fd calls fd (record s { world = w }) in
              let run : map_region calls fd size s ≡ (s', err io_failed) = ground (arith, t) in
              subst Goal (sym run) (omega (arith, p.0), p.1)
          | inr (base, t) ↦
              let s' : Process W = record s { world = w; mapped = s.mapped + 1 } in
              let run : map_region calls fd size s ≡ (s', ok base) = ground (arith, t) in
              subst Goal (sym run) (p.0, omega (arith, p.1))
        ];
  }

  register-Triple :
      (fd base size : ℕ)
      → Triple (More 1 1) (register calls fd base size) (λ u. More 1 1) (More 0 0)
  unfolding register
  register-Triple fd base size = record {
    at = λ s p.
        let range : UffdioRegister = record {
          start = base;
          len = size;
          mode = uffdio_register_mode_missing;
        } in
        let w = (calls.ioctl_register fd range s.world).0 in
        let Goal : Process W × Outcome (Unit {0}) → Type 0 = Holds (λ u. More 1 1) (More 0 0) in
        elim (Bool-cases (calls.ioctl_register fd range s.world).1) [
          | inl t ↦
              let run : register calls fd base size s ≡ (record s { world = w }, ok tt) =
                ground (arith, t) in
              subst Goal (sym run) p
          | inr t ↦
              let s' : Process W =
                close_fd calls fd (unmap calls base size (record s { world = w })) in
              let run : register calls fd base size s ≡ (s', err io_failed) = ground (arith, t) in
              subst Goal (sym run) (omega (arith, p.0), omega (arith, p.1))
        ];
  }

  -- A region that was made is one descriptor and one mapping, of whole pages.
  abbrev Made : ℕ → UffdRegion → Process W → Type 0
  Made size r s = More 1 1 s × (r.len ≡ align_up size)

  done :
      (size : ℕ) (r : UffdRegion)
      → r.len ≡ align_up size
      → Triple (More 1 1) (pure r) (Made size) (More 0 0)
  done size r e = record { at = λ s p. (p, e) }

  new-Triple : (size : ℕ) → Triple (More 0 0) (new calls size) (Made size) (More 0 0)
  unfolding new
  new-Triple size =
      let len = align_up size in
      Triple-bind open-Triple λ fd. Triple-bind (api-Triple fd) λ u.
        Triple-bind (map-Triple fd len) λ base.
          Triple-bind (register-Triple fd base len)
            λ u. done size (record { uffd = fd; base = base; len = len }) refl

module _ {W : Type 0} (calls : Calls W) where
  -- After an error nothing is left open or mapped; a region that was Made has whole pages and is
  -- undone by dropping it.
  abbrev pub IsUndone : ℕ → Process W → Process W × Outcome UffdRegion → Type 0
  IsUndone size s (s', ok r) =
      (size ≤ r.len)
      × (r.len < size + 4096)
      × (r.len % 4096 ≡ 0)
      × ((drop_region calls r s').open_fds ≡ s.open_fds)
      × ((drop_region calls r s').mapped ≡ s.mapped)
  IsUndone size s (s', err x) = (s'.open_fds ≡ s.open_fds) × (s'.mapped ≡ s.mapped)
  IsUndone size s (s', panic) = (s'.open_fds ≡ s.open_fds) × (s'.mapped ≡ s.mapped)

  -- For a size of at most 2^64 - 4096 bytes, whatever the system calls do, an attempt to make a
  -- userfaultfd region that fails leaves as many descriptors open and regions mapped as before;
  -- one that succeeds has the smallest whole number of pages that holds the size, and dropping it
  -- restores both numbers.
  pub new-IsUndone :
      (size : ℕ) (s : Process W) → size + 4095 < 2 ^ 64 → IsUndone size s (new calls size s)
  unfolding drop_region
  new-IsUndone size s room =
      undone (new calls size s)
        ((new-Triple calls s.open_fds s.mapped size).at s (omega arith, omega arith))
    where
      undone :
          (out : Process W × Outcome UffdRegion)
          → Holds (Made calls s.open_fds s.mapped size) (More calls s.open_fds s.mapped 0 0) out
          → IsUndone size s out
      undone (s', ok r) ((f, m), l) =
          let (a, b, c) = align_up_lem size room in
          (
            omega (arith, a, l),
            omega (arith, b, l),
            omega (arith, c, l),
            omega (arith, f),
            omega (arith, m),
          )
      undone (s', err x) (f, m) = (omega (arith, f), omega (arith, m))
      undone (s', panic) (f, m) = (omega (arith, f), omega (arith, m))
