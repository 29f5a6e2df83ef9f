-- ===== src/Daemon/Startup/Numbered.antt =====
-- The backends of a new engine are numbered from 0, each under the id it was made with, and only of the
-- kinds that the configuration asks for.
use Prim.Native.String.{String}
use text.Mathlib.Text.{◌==◌ as str_eq}
use distributed_uvm.Prelude.{
  ℕ, suc, ◌+◌, ◌*◌, ◌≤◌, ◌<◌, ◌≡◌, ◌≢◌, refl, sym, subst, Bool, true, false, not, ◌&&◌, Option,
  none, some, List, [], ◌∷◌, length, arith, inl, inr, Bool-cases,
}
use distributed_uvm.Prelude.Outcome.{Outcome, Outcome-cases, ok, err, panic, no_candidate}
use distributed_uvm.Prelude.HashMap.{lookup}
use distributed_uvm.Prelude.Method.{
  Method, pure, Holds, Triple, Triple-bind, Triple-else, Triple-pure, Triple-if, Triple-weaken,
}
use distributed_uvm.Daemon.Config.{DaemonConfig, RemoteBackendConfig}
use distributed_uvm.Daemon.Engine.{Engine, with_backends}
use distributed_uvm.Daemon.Startup.{
  Makers, Building, uses_rdma, uses_tcp, falls_back, add, add_rdma, add_peer, add_peers, add_remote,
  add_all, new,
}
use distributed_uvm.Daemon.Startup.Kinds.{
  Kind, Allowed, Tagged, rdma_transports, falls_back_tcp, uses_tcp_tcp, IsNumbered,
}
use distributed_uvm.Daemon.Startup.Local.{
  IsUpTo, Anything, IsUpTo-more, add-Triple, add_memory-Triple, add_compress-Triple,
}

-- How many peers a configuration has.
abbrev pub peer_count : Option RemoteBackendConfig → ℕ
peer_count none = 0
peer_count (some cfg) = length cfg.peers

module _ {W B : Type 0} (makers : Makers W B) (config : DaemonConfig) (id_of : B → ℕ)
    (kind_of : B → Kind) where
  abbrev UpTo : ℕ → Building W B → Type 0
  UpTo = IsUpTo makers config id_of kind_of

  abbrev Free : Building W B → Type 0
  Free = Anything makers config id_of kind_of

  module _ (tagged : Tagged makers id_of kind_of) where
    -- The backends of the peers.
    module _ (cfg : RemoteBackendConfig) (section : config.backends.remote ≡ some cfg)
        (enabled : cfg.enabled ≡ true) where
      abbrev pages : ℕ
      pages = cfg.max_pages_per_peer

      stay : (n : ℕ) {A : Type 0} (a : A) → Triple (UpTo n) (pure a) (λ a. UpTo (suc n)) Free
      stay n a =
          Triple-weaken (IsUpTo-more makers config id_of kind_of n (suc n) (omega arith))
            (λ a s p. p) (λ s p. p) (Triple-pure a)

      with_tcp :
          (n : ℕ) (addr : String)
          → n < 255
          → cfg.transport ≢ "rdma"
          → Triple
              (UpTo n)
              (add makers (λ id. makers.tcp id addr pages))
              (λ u. UpTo (suc n))
              (UpTo n)
      with_tcp n addr room not_rdma =
          add-Triple makers config id_of kind_of n (λ id. makers.tcp id addr pages) room
            λ id w b h.
              let (i, k) = tagged.tcp_tag id addr pages w b h in
              (i, subst (Allowed config) (sym k) (cfg, section, enabled, not_rdma))

      add_rdma-Triple :
          (n : ℕ) (addr : String) (available : Bool)
          → n < 255
          → uses_rdma cfg.transport available ≡ true
          → Triple (UpTo n) (add_rdma makers cfg.transport pages addr) (λ u. UpTo (suc n)) Free
      unfolding add_rdma
      add_rdma-Triple n addr available room uses =
          Triple-else
            (Triple-bind
              (add-Triple makers config id_of kind_of n (λ id. makers.rdma id addr pages) room
                λ id w b h.
                  let (i, k) = tagged.rdma_tag id addr pages w b h in
                  (
                    i,
                    subst (Allowed config) (sym k)
                        (cfg, section, enabled, rdma_transports cfg.transport available uses),
                  ))
              λ u. Triple-pure false)
            (λ s p. tt)
            (Triple-if (falls_back cfg.transport)
              (λ f.
                Triple-else
                  (Triple-bind (with_tcp n addr room (falls_back_tcp cfg.transport f))
                    λ u. Triple-pure true)
                  (λ s p. tt) (stay n false))
              (λ f. stay n false))

      add_peer-Triple :
          (n : ℕ) (addr : String) (available : Bool)
          → suc n < 255
          → Triple
              (UpTo n)
              (add_peer makers
                (uses_rdma cfg.transport available)
                (uses_tcp cfg.transport available)
                cfg.transport
                pages
                addr)
              (λ u. UpTo (suc (suc n)))
              Free
      unfolding add_peer
      add_peer-Triple n addr available room =
          Triple-bind
            (Triple-if (uses_rdma cfg.transport available)
              (λ t. add_rdma-Triple n addr available (omega (arith, room)) t) (λ f. stay n false))
            λ fallback.
              Triple-if (uses_tcp cfg.transport available && not fallback)
                (λ t.
                  Triple-else
                    ((with_tcp (suc n) addr room (uses_tcp_tcp cfg.transport available fallback t)))
                    (λ s p. tt) (stay (suc n) tt))
                (λ f. stay (suc n) tt)

      add_peers-Triple :
          (n : ℕ) (addrs : List String) (available : Bool)
          → n + 2 * length addrs ≤ 255
          → Triple
              (UpTo n)
              (add_peers makers
                (uses_rdma cfg.transport available)
                (uses_tcp cfg.transport available)
                cfg.transport
                pages
                addrs)
              (λ u. UpTo (n + 2 * length addrs))
              Free
      unfolding add_peers
      add_peers-Triple n [] available room =
          Triple-weaken (IsUpTo-more makers config id_of kind_of n (n + 2 * 0) (omega arith))
            (λ a s p. p) (λ s p. p) (Triple-pure tt)
      add_peers-Triple n (addr ∷ addrs) available room =
          Triple-bind (add_peer-Triple n addr available (omega (arith, room))) λ u.
            Triple-weaken (λ s p. p)
              (λ a s.
                IsUpTo-more makers config id_of kind_of (suc (suc n) + 2 * length addrs)
                  (n + 2 * suc (length addrs)) (omega arith) s)
              (λ s p. p) (add_peers-Triple (suc (suc n)) addrs available (omega (arith, room)))

    add_remote-Triple :
        (cfg : Option RemoteBackendConfig)
        → config.backends.remote ≡ cfg
        → 2 + 2 * peer_count cfg ≤ 255
        → Triple (UpTo 2) (add_remote makers cfg) (λ u. UpTo (2 + 2 * peer_count cfg)) Free
    unfolding add_remote
    add_remote-Triple none e room =
        Triple-weaken (IsUpTo-more makers config id_of kind_of 2 (2 + 2 * 0) (omega arith))
          (λ a s p. p) (λ s p. p) (Triple-pure tt)
    add_remote-Triple (some cfg) e room = record {
      at = λ s u.
          let available = makers.is_rdma_available s.world in
          let peers : Method (Building W B) (Unit {0}) =
            add_peers makers (uses_rdma cfg.transport available) (uses_tcp cfg.transport available)
              cfg.transport cfg.max_pages_per_peer cfg.peers in
          let Goal : Building W B × Outcome (Unit {0}) → Type 0 =
            Holds (λ u. UpTo (2 + 2 * length cfg.peers)) Free in
          elim (Bool-cases cfg.enabled) [
            | inr f ↦
                let run : add_remote makers (some cfg) s ≡ (s, ok tt) = ground (arith, f) in
                subst Goal (sym run) (
                  IsUpTo-more makers config id_of kind_of 2 (2 + 2 * length cfg.peers) (omega arith)
                    s u)
            | inl t ↦ elim (Bool-cases (str_eq cfg.transport "rdma" && not available)) [
              | inl t' ↦
                  let run : add_remote makers (some cfg) s ≡ (s, err no_candidate) =
                    ground (arith, t, t') in
                  subst Goal (sym run) tt
              | inr f' ↦
                  let run : add_remote makers (some cfg) s ≡ peers s = ground (arith, t, f') in
                  subst Goal (sym run)
                    ((add_peers-Triple cfg e t 2 cfg.peers available room).at s u)
            ]
          ];
    }

    add_all-Triple :
        2 + 2 * peer_count config.backends.remote ≤ 255
        → Triple
            (UpTo 0)
            (add_all makers config)
            (λ u. UpTo (2 + 2 * peer_count config.backends.remote))
            Free
    unfolding add_all
    add_all-Triple room =
        Triple-bind
          (add_memory-Triple makers config id_of kind_of tagged config.backends.memory refl)
          λ u.
            Triple-bind
              (add_compress-Triple makers config id_of kind_of tagged config.backends.compress refl)
              λ u. add_remote-Triple config.backends.remote refl room

    ended :
        (out : Building W B × Outcome (Unit {0})) (limit : ℕ)
        → Holds (λ u. UpTo limit) Free out
        → out.1 ≡ ok tt
        → UpTo limit out.0
    ended (s, ok u) limit h t = h
    ended (s, err x) limit h t = absurd (ground (arith, t))
    ended (s, panic) limit h t = absurd (ground (arith, t))

    nothing : (id : ℕ) → lookup {V = B} id [] ≡ none
    unfolding lookup
    nothing id = refl

    -- An engine that starts, with backends for at most so many peers.
    abbrev pub IsStarted : Engine B → Type 0
    IsStarted e =
        (count : ℕ) × (count ≤ 2 + 2 * peer_count config.backends.remote)
        × IsNumbered config id_of kind_of count e.backends

    -- With at most 126 peers, over backends that keep the id and are of the kind they are made
    -- with, an engine that new returns has backends under exactly the ids below some count of at
    -- most two and two for each peer; each is made with its id, and is of a kind that an enabled
    -- section of the configuration and its transport ask for: RDMA only for rdma, auto or both,
    -- and TCP never for rdma.
    pub new-IsStarted :
        (w : W) (e : Engine B)
        → 2 + 2 * peer_count config.backends.remote ≤ 255
        → (new makers config w).1 ≡ ok e
        → IsStarted e
    unfolding new
    new-IsStarted w e room h =
        let s₀ : Building W B = record { world = w; backends = []; next_id = 0 } in
        let u₀ : UpTo 0 s₀ = record {
          bound = omega arith;
          numbered = record {
            present = λ id below. absurd (omega (arith, below));
            absent = λ id above. nothing id;
          };
        } in
        let holds = (add_all-Triple room).at s₀ u₀ in
        let out = add_all makers config s₀ in
        elim (Outcome-cases out.1) [
          | inl (u, t) ↦
              let same : with_backends out.0.backends ≡ e = ground (arith, h, t) in
              let done : UpTo (2 + 2 * peer_count config.backends.remote) out.0 =
                ended out (2 + 2 * peer_count config.backends.remote) holds t in
              (
                out.0.next_id,
                done.bound,
                subst (λ (e : Engine B). IsNumbered config id_of kind_of out.0.next_id e.backends)
                    same done.numbered,
              )
          | inr (inl (x, t)) ↦ absurd (ground (arith, h, t))
          | inr (inr t) ↦ absurd (ground (arith, h, t))
        ]
