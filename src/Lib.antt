-- ===== src/Lib.antt =====
-- A verification of distributed-uvm, which pages memory out to local and remote backends.
--
-- The daemon's engine (crates/duvm-daemon/src/engine.rs) keeps a table of pages with a placement
-- policy (policy.rs) and stores them in backends (crates/duvm-backend-trait, -memory, -compress,
-- -tcp, -rdma). The TCP backend talks to a memory server (crates/duvm-memserver). An application
-- without a daemon uses a pool of backends (crates/libduvm). The kernel and the daemon exchange
-- messages over rings (crates/duvm-common). The RDMA backend talks to a server that serves one
-- registered buffer (crates/duvm-backend-rdma/src/server.rs). The control program
-- (crates/duvm-ctl) loads the kernel module and puts its swap area into use.
--
-- Files:
--   Prelude            shared names, tests, lists, bits, bytes, `Outcome` for fallible calls, hash
--                      maps, `Method` for calls that change a state and may fail, with triples
--   Common.Page        page.rs: handles, flags, tiers; Laws their laws, Operators and Text
--   Common.Protocol    protocol.rs: opcodes and messages
--   Common.Ring        ring.rs: both rings over a generic entry; Valid the invariant, Refine and Batch
--                      the refinement to Common.Fifo
--   Common.Stats       stats.rs: the counters and their snapshot
--   Backends.Trait     the trait `DuvmBackend` as a record of functions on a state
--   Backends.Contract  what the engine and the pool rely on: a map from slots to pages
--   Backends.Memory, Backends.Compress   the local backends; Laws that they keep the contract;
--                      Compress.Accounting the byte counters; RoundTrip the life of a slot
--   Backends.Tcp       the TCP backend; Breaker the connection, Remote the backend with the server
--   Backends.Rdma      transfers and page operations; Transfer termination, Slab addresses; Resources
--                      what is taken from the libraries and given back, Setup init and shutdown
--   Backends.RdmaServer  server.rs: the event loop; Balance its resources, Slabs the clients' parts
--   Daemon.Policy      policy.rs; Tiers, Eviction and Flags what its decisions mean
--   Daemon.Engine      engine.rs; Inv the invariant and the view, Steps, Candidates and Store the
--                      store, Access loads and invalidations, History runs of calls
--   Daemon.Config      config.rs: the configuration and its defaults; Valid what validation means
--   Daemon.Startup     `Engine::new`; Kinds what the configuration asks for, Local and Numbered
--                      the ids
--   Daemon.Uffd        uffd.rs: userfaultfd; Region making and dropping a region
--   Daemon.Control     engine.rs: the commands of the control socket and the shutdown of the backends
--   Daemon.Program     main.rs of the daemon, and `run` of engine.rs
--   Daemon.KmodRing    kmod_ring.rs: polls of the kernel's ring; Shared the region, Cases and Step one
--                      poll, Effect, Load and RoundTrip polls over a sound engine, Order and Drain
--                      the inner loop, Loop the outer one, System, Recall and Coherent the
--                      consumer in turns with the kernel, Open and Layout the mapped region
--   Memserver          main.rs of the server; Session requests as bytes, Bounded the capacity,
--                      Start the arguments, Accept the connections, Threads the threads on one
--                      store: Count, Invariant and Changes the pages promised, Promise what clients
--                      rely on
--   Libduvm            pool.rs; Slots the pool as a map; Ffi the C interface, ffi.rs
--   Ctl                main.rs of crates/duvm-ctl; Rules the system commands, Order of disable, Effects,
--                      Client the commands that ask the daemon
--   Examples           the theorems at concrete inputs
--
-- A method takes the state and returns the new one beside an `Outcome`: a value, an error or a
-- panic. A hash map is an association list, whose order stands for the unspecified order of
-- iteration. Numbers are natural; wrap-around of atomic counters and casts is written out. Times,
-- streams, the verbs library, the codec LZ4 and floating-point numbers are parameters. Error texts
-- and logs are left out.
--
-- Fuel: the loop of the memory server reads at least a byte in each turn, so more fuel than bytes
-- is enough; the poll loop of an RDMA transfer ends at its timeout, so more fuel than nanoseconds
-- is enough; a drain of the kernel's ring answers a request in each turn, so more fuel than
-- pending requests is enough, and `run_loop` takes one for each test of its two loops;
-- `is_power_of_two` halves its number, which is fuel enough.
--
-- Operations run one after another: a lock held through an operation makes it one step, and a
-- compare-and-swap succeeds where no other thread comes between. Two modules take the steps apart:
-- Memserver.Threads interleaves the atomic accesses of the server's threads, and
-- Daemon.KmodRing.System the polls of the consumer with the writes of the kernel. The default
-- methods for batches of the trait are those of every backend. The event loop of the RDMA server
-- ends when it is stopped, so it runs on any fuel; what holds of it holds after every event whose
-- handler returns: rdma_destroy_id may wait for an event that is acknowledged only later.
--
-- Not modelled: accepting on sockets and waiting for the kernel ring's device (system calls); the
-- progress that the programs report; the kernel module (C); the declarations of C functions; the
-- demos and tests.
pub mod Backends
pub mod Common
pub mod Ctl
pub mod Daemon
pub mod Examples
pub mod Libduvm
pub mod Memserver
pub mod Prelude
