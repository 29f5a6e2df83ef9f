-- ===== src/Daemon/Startup/Local.antt =====
-- The backends that `Engine::new` adds, one at a time, and the local ones.
use distributed_uvm.Prelude.{
  ℕ, suc, ◌+◌, ◌%◌, ◌^◌, ◌≤◌, ◌<◌, ◌≡◌, sym, subst, Option, none, some, arith, inl, inr,
}
use distributed_uvm.Prelude.Outcome.{Outcome, Outcome-cases, ok, err, panic}
use distributed_uvm.Prelude.HashMap.{insert}
use distributed_uvm.Prelude.Method.{Method, Holds, Triple, Triple-pure, Triple-if, Triple-weaken}
use distributed_uvm.Daemon.Config.{DaemonConfig, MemoryBackendConfig, CompressBackendConfig}
use distributed_uvm.Daemon.Startup.{Makers, Building, add, add_memory, add_compress}
use distributed_uvm.Daemon.Startup.Kinds.{Kind, Allowed, Tagged, IsNumbered, insert-IsNumbered}

module _ {W B : Type 0} (makers : Makers W B) (config : DaemonConfig) (id_of : B → ℕ)
    (kind_of : B → Kind) where
  -- At most `limit` backends, numbered.
  pub record IsUpTo (limit : ℕ) (s : Building W B) : Type 0 where
    pub bound : s.next_id ≤ limit
    pub numbered : IsNumbered config id_of kind_of s.next_id s.backends

  -- Nothing is asked of a failure.
  abbrev pub Anything : Building W B → Type 0
  Anything s = Unit {0}

  pub IsUpTo-more : (n m : ℕ) → n ≤ m → (s : Building W B) → IsUpTo n s → IsUpTo m s
  IsUpTo-more n m le s u =
      let b = u.bound in record { bound = omega (arith, b, le); numbered = u.numbered }

  pub add-Triple :
      (limit : ℕ) (make : ℕ → W → W × Outcome B)
      → limit < 255
      → ((id : ℕ) (w : W) (b : B)
          → (make id w).1 ≡ ok b
          → (id_of b ≡ id) × Allowed config (kind_of b))
      → Triple (IsUpTo limit) (add makers make) (λ u. IsUpTo (suc limit)) (IsUpTo limit)
  unfolding add
  add-Triple limit make room tags = record {
    at = λ s u. elim (Outcome-cases (make s.next_id s.world).1) [
      | inl (b, t) ↦
          let (i, a) = tags s.next_id s.world b t in
          let below = u.bound in
          let w = (make s.next_id s.world).0 in
          let next : (s.next_id + 1) % 2 ^ 8 ≡ suc s.next_id = omega (arith, below, room) in
          let s' : Building W B = record {
            world = w;
            backends = insert s.next_id b s.backends;
            next_id = suc s.next_id;
          } in
          let run : add makers make s ≡ (s', ok tt) = ground (arith, t, next) in
          subst (Holds (λ u. IsUpTo (suc limit)) (IsUpTo limit)) (sym run) (record {
            bound = omega (arith, below);
            numbered = insert-IsNumbered config id_of kind_of s.next_id b s.backends u.numbered i a;
          })
      | inr (inl (x, t)) ↦
          let s' : Building W B = record s { world = (make s.next_id s.world).0 } in
          let run : add makers make s ≡ (s', err x) = ground (arith, t) in
          subst (Holds (λ u. IsUpTo (suc limit)) (IsUpTo limit)) (sym run)
            (record { bound = u.bound; numbered = u.numbered })
      | inr (inr t) ↦
          let s' : Building W B = record s { world = (make s.next_id s.world).0 } in
          let run : add makers make s ≡ (s', panic) = ground (arith, t) in
          subst (Holds (λ u. IsUpTo (suc limit)) (IsUpTo limit)) (sym run)
            (record { bound = u.bound; numbered = u.numbered })
    ];
  }

  -- The parts of `new`, one after the other.
  module _ (tagged : Tagged makers id_of kind_of) where
    more :
        (limit : ℕ) {A : Type 0} {pre : Building W B → Type 0} {m : Method (Building W B) A}
        {post : A → Building W B → Type 0}
        → Triple pre m post (IsUpTo limit)
        → Triple pre m post Anything
    more limit t = Triple-weaken (λ s p. p) (λ a s p. p) (λ s p. tt) t

    pub add_memory-Triple :
        (cfg : Option MemoryBackendConfig)
        → config.backends.memory ≡ cfg
        → Triple (IsUpTo 0) (add_memory makers cfg) (λ u. IsUpTo 1) Anything
    unfolding add_memory
    add_memory-Triple none e =
        Triple-weaken (IsUpTo-more 0 1 (omega arith)) (λ a s p. p) (λ s p. p) (Triple-pure tt)
    add_memory-Triple (some cfg) e =
        Triple-if cfg.enabled
          (λ t. more 0 (
            add-Triple 0 (λ id. makers.memory id cfg.max_pages) (omega arith)
              λ id w b h.
                let (i, k) = tagged.memory_tag id cfg.max_pages w b h in
                (i, subst (Allowed config) (sym k) (cfg, e, t))))
          (λ f.
            Triple-weaken (IsUpTo-more 0 1 (omega arith)) (λ a s p. p) (λ s p. p) (Triple-pure tt))

    pub add_compress-Triple :
        (cfg : Option CompressBackendConfig)
        → config.backends.compress ≡ cfg
        → Triple (IsUpTo 1) (add_compress makers cfg) (λ u. IsUpTo 2) Anything
    unfolding add_compress
    add_compress-Triple none e =
        Triple-weaken (IsUpTo-more 1 2 (omega arith)) (λ a s p. p) (λ s p. p) (Triple-pure tt)
    add_compress-Triple (some cfg) e =
        Triple-if cfg.enabled
          (λ t. more 1 (
            add-Triple 1 (λ id. makers.compress id cfg.max_pages) (omega arith)
              λ id w b h.
                let (i, k) = tagged.compress_tag id cfg.max_pages w b h in
                (i, subst (Allowed config) (sym k) (cfg, e, t))))
          (λ f.
            Triple-weaken (IsUpTo-more 1 2 (omega arith)) (λ a s p. p) (λ s p. p) (Triple-pure tt))
