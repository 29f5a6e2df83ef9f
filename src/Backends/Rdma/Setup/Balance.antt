-- ===== src/Backends/Rdma/Setup/Balance.antt =====
-- Every way through `init` gives back what it took, but for the early return at an address that does
-- not parse; and `shutdown` gives back what a successful `init` took.
use distributed_uvm.Prelude.{
  ℕ, ◌≡◌, refl, sym, ap, subst, none, some, List, [], ◌∷◌, ◌==◌, Option-cases, inl, inr, Empty,
  arith,
}
use distributed_uvm.Prelude.Outcome.{
  Outcome, ok, err, panic, io_failed, refused, bad_address, bad_data,
}
use distributed_uvm.Backends.Trait.{BackendConfig}
use distributed_uvm.Backends.Rdma.{RdmaBackend}
use distributed_uvm.Backends.Rdma.Resources.{
  Resource, channel, id, event, domain, queue, buffer, region, Ledger, State, bail, release,
  all_released,
}
use distributed_uvm.Backends.Rdma.Resources.Rules.{
  Ends, Takes, Takes-bind, Takes-pure, Takes-bail, Takes-acquire, Takes-attempt, Takes-if,
  Takes-release,
}
use distributed_uvm.Backends.Rdma.Setup.{
  Library, Address, RdmaHandshake, of_address, of_connection, wait_cm_event, expect_event, open_id,
  parse_ip, resolve_address, resolve_route, create_memory, connect, read_handshake, set_up, finish,
  init, shut_down, shutdown, port_or_default, event_addr_resolved, event_route_resolved,
  event_established,
}

-- The ledger with an address resolved, and with all of a connection.
abbrev pub with_address : Ledger → Ledger
with_address l = record l { held = id ∷ channel ∷ l.held }

abbrev pub with_connection : Ledger → Ledger
with_connection l = record l { held = region ∷ buffer ∷ queue ∷ domain ∷ id ∷ channel ∷ l.held }

abbrev with_event : Ledger → Ledger
with_event l = record l { held = event ∷ l.held }

module _ {W : Type 0} (lib : Library W) (l : Ledger) where
  open_id-Takes : Takes l (open_id lib) (with_address l) l
  unfolding open_id
  open_id-Takes =
      Takes-bind (Takes-if lib.free (λ s. lib.rdma_available s.world) l l [] io_failed refl) λ u.
        Takes-bind (Takes-acquire lib.free lib.create_event_channel [] io_failed l l refl channel)
          λ u.
            Takes-acquire lib.free lib.create_id (channel ∷ []) io_failed
              (record l { held = channel ∷ l.held }) l refl id

  -- Waiting for an event of a kind, and its acknowledgement, under any clean-up that works.
  module _ (timeout kind : ℕ) (cleanup : List Resource) (pre : Ledger)
      (cleans : all_released cleanup pre ≡ l) where
    wait-Takes : Takes pre (wait_cm_event lib timeout cleanup) (with_event pre) l
    unfolding wait_cm_event
    wait-Takes =
        Takes-bind (Takes-attempt lib.free (lib.poll timeout) cleanup io_failed pre l cleans)
          λ u. Takes-acquire lib.free lib.get_cm_event cleanup io_failed pre l cleans event

    expect-Takes : Takes (with_event pre) (expect_event lib kind cleanup) (with_event pre) l
    unfolding expect_event
    expect-Takes =
        Takes-if lib.free (λ s. lib.event_kind s.world == kind) (with_event pre) l (event ∷ cleanup)
          refused cleans

  resolve_address-Takes :
      (a : Address) (ip : ℕ)
      → a.ip ≡ some ip
      → Takes (with_address l) (resolve_address lib a) (with_address l) l
  unfolding resolve_address parse_ip
  resolve_address-Takes a ip parsed =
      let pre = with_address l in
      rw parsed (
        Takes-bind (Takes-pure ip pre l) λ ip.
          Takes-bind
            (Takes-attempt lib.free (lib.resolve_addr ip (port_or_default a)) of_address io_failed
              pre l refl)
            λ u. Takes-bind (wait-Takes 5000 0 of_address pre refl) λ u.
              Takes-bind (expect-Takes 0 event_addr_resolved of_address pre refl)
                λ u. Takes-release lib.free event (with_event pre) l)

  resolve_route-Takes : Takes (with_address l) (resolve_route lib) (with_address l) l
  unfolding resolve_route
  resolve_route-Takes =
      let pre = with_address l in
      Takes-bind (Takes-attempt lib.free lib.resolve_route of_address io_failed pre l refl) λ u.
        Takes-bind (wait-Takes 5000 0 of_address pre refl) λ u.
          Takes-bind (expect-Takes 0 event_route_resolved of_address pre refl)
            λ u. Takes-release lib.free event (with_event pre) l

  create_memory-Takes : Takes (with_address l) (create_memory lib) (with_connection l) l
  unfolding create_memory
  create_memory-Takes =
      Takes-bind
        (Takes-acquire lib.free lib.alloc_pd of_address io_failed (with_address l) l refl domain)
        λ u.
          Takes-bind
            (Takes-acquire lib.free lib.create_cq (domain ∷ of_address) io_failed _ l refl queue)
            λ u.
              Takes-bind
                (Takes-acquire lib.free lib.mmap (queue ∷ domain ∷ of_address) io_failed _ l refl
                  buffer)
                λ u.
                  Takes-bind
                    (Takes-acquire lib.free lib.reg_mr (buffer ∷ queue ∷ domain ∷ of_address)
                      io_failed _ l refl region)
                    λ u.
                      Takes-attempt lib.free lib.create_qp of_connection io_failed
                        (with_connection l) l refl

  read_handshake-Takes :
      Takes (with_event (with_connection l)) (read_handshake lib) (with_event (with_connection l)) l
  unfolding read_handshake
  read_handshake-Takes = record {
    at = λ s e. elim (Option-cases (lib.private_data s.world)) [
      | inr (h, t) ↦
          let run : read_handshake lib s ≡ (s, ok h) = ground (arith, t) in
          subst (Ends (with_event (with_connection l)) l) (sym run) e
      | inl t ↦
          let give_up = bail {A = RdmaHandshake} lib.free (event ∷ of_connection) bad_data s in
          let run : read_handshake lib s ≡ give_up = ground (arith, t) in
          subst (Ends (with_event (with_connection l)) l) (sym run) (
            (Takes-bail lib.free (event ∷ of_connection) bad_data (with_event (with_connection l)) l
                refl {A = RdmaHandshake} (with_event (with_connection l))).at
              s e)
    ];
  }

  connect-Takes : Takes (with_connection l) (connect lib) (with_connection l) l
  unfolding connect
  connect-Takes =
      let pre = with_connection l in
      Takes-bind (Takes-attempt lib.free lib.connect of_connection io_failed pre l refl) λ u.
        Takes-bind (wait-Takes 10000 0 of_connection pre refl) λ u.
          Takes-bind (expect-Takes 0 event_established of_connection pre refl) λ u.
            Takes-bind read_handshake-Takes λ handshake.
              Takes-bind (Takes-release lib.free event (with_event pre) l)
                λ u. Takes-pure handshake pre l

  set_up-Takes :
      (a : Address) (ip : ℕ) → a.ip ≡ some ip → Takes l (set_up lib a) (with_connection l) l
  unfolding set_up
  set_up-Takes a ip parsed = Takes-bind open_id-Takes λ u.
      Takes-bind (resolve_address-Takes a ip parsed)
        λ u. Takes-bind resolve_route-Takes λ u. Takes-bind create_memory-Takes λ u. connect-Takes

module _ {W : Type 0} (lib : Library W) (l : Ledger) where
  -- The error of `init` leaves what was held; its success can be undone by `shutdown`.
  abbrev pub Undone : State W × RdmaBackend × Outcome (Unit {0}) → Type 0
  Undone (s, b, ok u) =
      (s.ledger ≡ with_connection l)
      × ((shutdown lib b s).0.ledger ≡ l)
      × ((shutdown lib b s).1.state ≡ none)
  Undone (s, b, err x) = s.ledger ≡ l
  Undone (s, b, panic) = Empty {0}

  finish-Undone :
      (b : RdmaBackend) (out : State W × Outcome RdmaHandshake)
      → Ends (with_connection l) l out
      → Undone (finish lib b out)
  unfolding finish shutdown shut_down release
  finish-Undone b (s, ok handshake) e =
      (e, ap (all_released (region ∷ queue ∷ domain ∷ buffer ∷ id ∷ channel ∷ [])) e, refl)
  finish-Undone b (s, err x) e = e
  finish-Undone b (s, panic) e = e

  -- At an address that parses, whatever the libraries do, an init of the RDMA backend that fails
  -- leaves no resource held and releases none that was not held, and one that succeeds is undone
  -- in this sense by shutdown.
  pub init-Undone :
      (a : Address) (ip : ℕ) (config : BackendConfig) (b : RdmaBackend) (s : State W)
      → a.ip ≡ some ip
      → s.ledger ≡ l
      → Undone (init lib a config b s)
  unfolding init
  init-Undone a ip config b s parsed e =
      finish-Undone (record b { max_pages = config.max_pages }) (set_up lib a s)
        ((set_up-Takes lib l a ip parsed).at s e)

  -- `init`, at an address that does not parse.
  pub init_leaks :
      (a : Address) (config : BackendConfig) (b : RdmaBackend) (s : State W)
      → a.ip ≡ none
      → s.ledger ≡ l
      → (open_id lib s).1 ≡ ok tt
      → let (s', b', r) = init lib a config b s in
        (r ≡ err bad_address) × (s'.ledger ≡ with_address l)
  unfolding init
  init_leaks a config b s bad e opened =
      let s1 = (open_id lib s).0 in
      let held : s1.ledger ≡ with_address l =
        subst (λ r. Ends {A = Unit {0}} (with_address l) l (s1, r)) opened
          ((open_id-Takes lib l).at s e) in
      let run : set_up lib a s ≡ (s1, err bad_address) =
        unfold set_up resolve_address parse_ip bail in ground (arith, bad, opened) in
      rw run (unfold finish in (refl, held))
