-- ===== src/Daemon/KmodRing/Open.antt =====
-- `open` and the drop of crates/duvm-daemon/src/kmod_ring.rs: what is opened and mapped, and given back. The
-- system calls are parameters; the state counts the open files and the mapped bytes.
use distributed_uvm.Prelude.{
  ℕ, ◌+◌, ◌-◌, ◌^◌, ◌<◌, ◌≡◌, refl, sym, ap, subst, Bool, Option, none, some, arith, if◌then◌else◌,
  inl, inr, Bool-cases, Option-cases,
}
use distributed_uvm.Prelude.Outcome.{Outcome, Outcome-cases, ok, err, panic, io_failed}
use distributed_uvm.Prelude.Method.{Method, ◌>>=◌, ◌>>◌, pure, Holds, Triple, Triple-bind}
use distributed_uvm.Common.Page.{page_size}
use distributed_uvm.Daemon.KmodRing.Layout.{Header, Layout, layout, IsDisjoint, layout-IsDisjoint}

-- A call that maps gives an address or fails; the one of the header also what is read there.
pub record Calls (W : Type 0) : Type 0 where
  pub open_file : W → W × Bool
  pub mmap_header : ℕ → W → W × Option (ℕ × Header)
  pub mmap : ℕ → W → W × Option ℕ
  pub munmap : ℕ → ℕ → W → W
  pub close : W → W

pub record Process (W : Type 0) : Type 0 where
  pub world : W
  pub open_files : ℕ
  pub mapped : ℕ

-- The pointers of `KmodRingConsumer` are offsets from its base.
pub record KmodRingConsumer : Type 0 where
  pub base : ℕ
  pub parts : Layout

module _ {W : Type 0} (calls : Calls W) where
  -- The file is closed where `open` returns early.
  abbrev close_file : Process W → Process W
  close_file s = record s { world = calls.close s.world; open_files = s.open_files - 1 }

  abbrev unmap : ℕ → ℕ → Process W → Process W
  unmap base len s = record s { world = calls.munmap base len s.world; mapped = s.mapped - len }

  unfoldable pub open_ctl : Method (Process W) (Unit {0})
  open_ctl s =
      let (w, success) = calls.open_file s.world in
      if success
      then (record s { world = w; open_files = s.open_files + 1 }, ok tt)
      else (record s { world = w }, err io_failed)

  -- The header is mapped, read and unmapped.
  unfoldable pub probe : Method (Process W) Header
  probe s =
      let (w, found) = calls.mmap_header page_size s.world in
      elim found [
        | none ↦ (close_file (record s { world = w }), err io_failed)
        | some (base, header) ↦ (
          unmap base page_size (record s { world = w; mapped = s.mapped + page_size }),
          ok header,
        )
      ]

  unfoldable pub check_version : Header → Method (Process W) Layout
  check_version header s = elim (layout header) [
    | ok parts ↦ (s, ok parts)
    | err x ↦ (close_file s, err x)
    | panic ↦ (close_file s, panic)
  ]

  unfoldable pub map_all : Layout → Method (Process W) ℕ
  map_all parts s =
      let (w, found) = calls.mmap parts.mmap_len s.world in
      elim found [
        | none ↦ (close_file (record s { world = w }), err io_failed)
        | some base ↦ (record s { world = w; mapped = s.mapped + parts.mmap_len }, ok base)
      ]

  unfoldable pub open_consumer : Method (Process W) KmodRingConsumer
  open_consumer = do
    open_ctl
    header ← probe
    parts ← check_version header
    base ← map_all parts
    pure (record { base = base; parts = parts })

  unfoldable pub drop_consumer : KmodRingConsumer → Process W → Process W
  drop_consumer consumer s = close_file (unmap consumer.base consumer.parts.mmap_len s)

  -- The numbers of the header are `u32`.
  abbrev pub IsU32 : Type 0
  IsU32 =
      (len : ℕ) (w : W) (base : ℕ) (header : Header)
      → (calls.mmap_header len w).1 ≡ some (base, header)
      → (header.capacity < 2 ^ 32) × (header.staging_pages < 2 ^ 32)

module _ {W : Type 0} (calls : Calls W) where
  -- The header that `open` reads where it begins in the world `w`: the one in the page mapped once the file is open.
  abbrev pub IsRead : W → Header → Type 0
  IsRead w header =
      (base : ℕ) × ((calls.mmap_header page_size (calls.open_file w).0).1 ≡ some (base, header))

module _ {W : Type 0} (calls : Calls W) (u32 : IsU32 calls) (files bytes : ℕ) (start : W) where
  -- `f` files and `b` bytes more than there were.
  abbrev More : ℕ → ℕ → Process W → Type 0
  More f b s = (s.open_files ≡ files + f) × (s.mapped ≡ bytes + b)

  abbrev Begun : Process W → Type 0
  Begun s = (s.world ≡ start) × More 0 0 s

  abbrev Open : Process W → Type 0
  Open s = (s.world ≡ (calls.open_file start).0) × More 1 0 s

  abbrev Small : Header → Process W → Type 0
  Small header s =
      (IsRead calls start header × (header.capacity < 2 ^ 32) × (header.staging_pages < 2 ^ 32))
      × More 1 0 s

  -- The parts are those of the header that was read.
  abbrev IsLaid : Layout → Type 0
  IsLaid parts = (header : Header) × IsRead calls start header × IsDisjoint header parts

  abbrev Laid : Layout → Process W → Type 0
  Laid parts s = IsLaid parts × More 1 0 s

  abbrev Opened : KmodRingConsumer → Process W → Type 0
  Opened c s = IsLaid c.parts × More 1 c.parts.mmap_len s

  open_ctl-Triple : Triple Begun (open_ctl calls) (λ u. Open) (More 0 0)
  unfolding open_ctl
  open_ctl-Triple = record {
    at = λ s q.
        let (at_start, p) = q in
        let w = (calls.open_file s.world).0 in
        let Goal : Process W × Outcome (Unit {0}) → Type 0 = Holds (λ u. Open) (More 0 0) in
        elim (Bool-cases (calls.open_file s.world).1) [
          | inl t ↦
              let s' : Process W = record s { world = w; open_files = s.open_files + 1 } in
              let run : open_ctl calls s ≡ (s', ok tt) = ground (arith, t) in
              subst Goal (sym run)
                (ap (λ v. (calls.open_file v).0) at_start, (omega (arith, p.0), p.1))
          | inr t ↦
              let run : open_ctl calls s ≡ (record s { world = w }, err io_failed) =
                ground (arith, t) in
              subst Goal (sym run) p
        ];
  }

  probe-Triple : Triple Open (probe calls) Small (More 0 0)
  unfolding probe
  probe-Triple = record {
    at = λ s q.
        let (at_open, p) = q in
        let w = (calls.mmap_header page_size s.world).0 in
        let Goal : Process W × Outcome Header → Type 0 = Holds Small (More 0 0) in
        elim (Option-cases (calls.mmap_header page_size s.world).1) [
          | inl t ↦
              let s' : Process W = close_file calls (record s { world = w }) in
              let run : probe calls s ≡ (s', err io_failed) = ground (arith, t) in
              subst Goal (sym run) (omega (arith, p.0), p.1)
          | inr ((base, header), t) ↦
              let s' : Process W =
                unmap calls base page_size
                  (record s { world = w; mapped = s.mapped + page_size }) in
              let run : probe calls s ≡ (s', ok header) = ground (arith, t) in
              let (a, b) = u32 page_size s.world base header t in
              let read : IsRead calls start header = (
                base,
                subst (λ v. (calls.mmap_header page_size v).1 ≡ some (base, header)) at_open t,
              ) in
              subst Goal (sym run) ((read, a, b), (p.0, omega (arith, p.1)))
        ];
  }

  check_version-Triple :
      (header : Header) → Triple (Small header) (check_version calls header) Laid (More 0 0)
  unfolding check_version
  check_version-Triple header = record {
    at = λ s p.
        let ((read, small, few), (f, m)) = p in
        let Goal : Process W × Outcome Layout → Type 0 = Holds Laid (More 0 0) in
        elim (Outcome-cases (layout header)) [
          | inl (parts, t) ↦
              let run : check_version calls header s ≡ (s, ok parts) = ground (arith, t) in
              subst Goal (sym run)
                ((header, read, layout-IsDisjoint header parts small few t), (f, m))
          | inr (inl (x, t)) ↦
              let run : check_version calls header s ≡ (close_file calls s, err x) =
                ground (arith, t) in
              subst Goal (sym run) (omega (arith, f), m)
          | inr (inr t) ↦
              let run : check_version calls header s ≡ (close_file calls s, panic) =
                ground (arith, t) in
              subst Goal (sym run) (omega (arith, f), m)
        ];
  }

  abbrev Whole : Layout → ℕ → Process W → Type 0
  Whole parts base s = IsLaid parts × More 1 parts.mmap_len s

  map_all-Triple :
      (parts : Layout) → Triple (Laid parts) (map_all calls parts) (Whole parts) (More 0 0)
  unfolding map_all
  map_all-Triple parts = record {
    at = λ s p.
        let (laid, (f, m)) = p in
        let w = (calls.mmap parts.mmap_len s.world).0 in
        let Goal : Process W × Outcome ℕ → Type 0 = Holds (Whole parts) (More 0 0) in
        elim (Option-cases (calls.mmap parts.mmap_len s.world).1) [
          | inl t ↦
              let s' : Process W = close_file calls (record s { world = w }) in
              let run : map_all calls parts s ≡ (s', err io_failed) = ground (arith, t) in
              subst Goal (sym run) (omega (arith, f), m)
          | inr (base, t) ↦
              let s' : Process W = record s { world = w; mapped = s.mapped + parts.mmap_len } in
              let run : map_all calls parts s ≡ (s', ok base) = ground (arith, t) in
              subst Goal (sym run) (laid, (f, omega (arith, m)))
        ];
  }

  done :
      (parts : Layout) (base : ℕ)
      → Triple (Whole parts base) (pure (record { base = base; parts = parts })) Opened (More 0 0)
  done parts base = record { at = λ s p. p }

  pub open_consumer-Triple : Triple Begun (open_consumer calls) Opened (More 0 0)
  unfolding open_consumer
  open_consumer-Triple = Triple-bind open_ctl-Triple λ u. Triple-bind probe-Triple λ header.
      Triple-bind (check_version-Triple header)
        λ parts. Triple-bind (map_all-Triple parts) λ base. done parts base

module _ {W : Type 0} (calls : Calls W) where
  -- After an error nothing is left open or mapped; a consumer that was opened has the parts of the
  -- header that was read, apart from each other, and is undone by its drop.
  abbrev pub IsUndone : Process W → Process W × Outcome KmodRingConsumer → Type 0
  IsUndone s (s', ok c) =
      ((header : Header) × IsRead calls s.world header × IsDisjoint header c.parts)
      × ((drop_consumer calls c s').open_files ≡ s.open_files)
      × ((drop_consumer calls c s').mapped ≡ s.mapped)
  IsUndone s (s', err x) = (s'.open_files ≡ s.open_files) × (s'.mapped ≡ s.mapped)
  IsUndone s (s', panic) = (s'.open_files ≡ s.open_files) × (s'.mapped ≡ s.mapped)

  -- Where the numbers of the header are below 2^32, whatever the system calls do, an attempt to
  -- open the kernel's device that fails leaves as many files open and bytes mapped as before. One
  -- that succeeds has read a header of version 2 in the page mapped first, and has, of the sizes
  -- that this header gives, its own page, the requests, the completions and the staging pages one
  -- after the other in the mapping, whose size is below 2^64, and the mask of the header's
  -- capacity where that is not 0; dropping the consumer restores both numbers.
  pub open_consumer-IsUndone : (s : Process W) → IsU32 calls → IsUndone s (open_consumer calls s)
  unfolding drop_consumer
  open_consumer-IsUndone s u32 = undone (open_consumer calls s) (
      (open_consumer-Triple calls u32 s.open_files s.mapped s.world).at s
        (refl, (omega arith, omega arith)))
    where
      undone :
          (out : Process W × Outcome KmodRingConsumer)
          → Holds
              (Opened calls u32 s.open_files s.mapped s.world)
              (More calls u32 s.open_files s.mapped s.world 0 0)
              out
          → IsUndone s out
      undone (s', ok c) (parts, (f, m)) = (parts, omega (arith, f), omega (arith, m))
      undone (s', err x) (f, m) = (omega (arith, f), omega (arith, m))
      undone (s', panic) (f, m) = (omega (arith, f), omega (arith, m))
