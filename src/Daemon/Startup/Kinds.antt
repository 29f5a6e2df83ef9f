-- ===== src/Daemon/Startup/Kinds.antt =====
-- What the configuration asks for, and how the backends of an engine are numbered.
use Prim.Native.String.{String}
use text.Mathlib.Text.{◌==◌ as str_eq}
use text.Mathlib.TextEquality.{eq_iff}
use distributed_uvm.Prelude.{
  ℕ, suc, ◌≤◌, ◌<◌, ◌≡◌, ◌≢◌, refl, sym, ◌∙◌, Bool, true, false, not, ◌&&◌, none, some, arith, inl,
  inr, ◌⊎◌, Bool-cases,
}
use native.Mathlib.Decide.{ℕ_discrete}
use distributed_uvm.Prelude.Outcome.{ok}
use distributed_uvm.Prelude.HashMap.{HashMap, lookup, insert, lookup-insert}
use distributed_uvm.Daemon.Config.{
  DaemonConfig, MemoryBackendConfig, CompressBackendConfig, RemoteBackendConfig,
}
use distributed_uvm.Daemon.Startup.{Makers, uses_rdma, uses_tcp, falls_back}

pub data Kind : Type 0 where
  memory compress rdma tcp : Kind

-- That a backend is enabled in its section.
abbrev RemoteBy : DaemonConfig → (String → Type 0) → Type 0
RemoteBy config uses =
    (cfg : RemoteBackendConfig) × (config.backends.remote ≡ some cfg)
    × (cfg.enabled ≡ true)
    × uses cfg.transport

-- What the configuration asks for.
abbrev pub Allowed : DaemonConfig → Kind → Type 0
Allowed config memory =
    (cfg : MemoryBackendConfig) × (config.backends.memory ≡ some cfg) × (cfg.enabled ≡ true)
Allowed config compress =
    (cfg : CompressBackendConfig) × (config.backends.compress ≡ some cfg) × (cfg.enabled ≡ true)
Allowed config rdma = RemoteBy config λ t. (t ≡ "rdma") ⊎ (t ≡ "auto") ⊎ (t ≡ "both")
Allowed config tcp = RemoteBy config λ t. t ≢ "rdma"

-- A backend keeps the id it is made with, and is of the kind asked for.
pub record Tagged {W B : Type 0} (makers : Makers W B) (id_of : B → ℕ) (kind_of : B → Kind)
    : Type 0 where
  pub memory_tag :
      (id pages : ℕ) (w : W) (b : B)
      → (makers.memory id pages w).1 ≡ ok b
      → (id_of b ≡ id) × (kind_of b ≡ memory)
  pub compress_tag :
      (id pages : ℕ) (w : W) (b : B)
      → (makers.compress id pages w).1 ≡ ok b
      → (id_of b ≡ id) × (kind_of b ≡ compress)
  pub rdma_tag :
      (id : ℕ) (addr : String) (pages : ℕ) (w : W) (b : B)
      → (makers.rdma id addr pages w).1 ≡ ok b
      → (id_of b ≡ id) × (kind_of b ≡ rdma)
  pub tcp_tag :
      (id : ℕ) (addr : String) (pages : ℕ) (w : W) (b : B)
      → (makers.tcp id addr pages w).1 ≡ ok b
      → (id_of b ≡ id) × (kind_of b ≡ tcp)

pub rdma_transports :
    (transport : String) (available : Bool)
    → uses_rdma transport available ≡ true
    → (transport ≡ "rdma") ⊎ (transport ≡ "auto") ⊎ (transport ≡ "both")
unfolding uses_rdma
rdma_transports transport available h = elim (Bool-cases (str_eq transport "rdma")) [
  | inl t ↦ inl ((eq_iff transport "rdma").0 t)
  | inr t ↦ elim (Bool-cases (str_eq transport "auto")) [
    | inl t' ↦ inr (inl ((eq_iff transport "auto").0 t'))
    | inr t' ↦ elim (Bool-cases (str_eq transport "both")) [
      | inl t'' ↦ inr (inr ((eq_iff transport "both").0 t''))
      | inr t'' ↦ absurd (ground (arith, h, t, t', t''))
    ]
  ]
]

not_equal : (s t u : String) → str_eq t u ≡ false → str_eq s t ≡ true → s ≢ u
not_equal s t u differ h e =
    let same : t ≡ u = sym ((eq_iff s t).0 h) ∙ e in
    absurd (ground (arith, differ, (eq_iff t u).1 same))

pub falls_back_tcp : (transport : String) → falls_back transport ≡ true → transport ≢ "rdma"
falls_back_tcp transport h = elim (Bool-cases (str_eq transport "auto")) [
  | inl t ↦ not_equal transport "auto" "rdma" refl t
  | inr t ↦ not_equal transport "both" "rdma" refl (ground (arith, h, t))
]

pub uses_tcp_tcp :
    (transport : String) (available fallback : Bool)
    → (uses_tcp transport available && not fallback) ≡ true
    → transport ≢ "rdma"
unfolding uses_tcp
uses_tcp_tcp transport available fallback h e =
    absurd (ground (arith, h, (eq_iff transport "rdma").1 e))

module _ {B : Type 0} (config : DaemonConfig) (id_of : B → ℕ) (kind_of : B → Kind) where
  -- The ids are those below `count`, and each is that of its backend.
  pub record IsNumbered (count : ℕ) (backends : HashMap B) : Type 0 where
    pub present :
        (id : ℕ)
        → id < count
        → (b : B) × (lookup id backends ≡ some b) × (id_of b ≡ id) × Allowed config (kind_of b)
    pub absent : (id : ℕ) → count ≤ id → lookup id backends ≡ none

  pub insert-IsNumbered :
      (count : ℕ) (b : B) (backends : HashMap B)
      → IsNumbered count backends
      → id_of b ≡ count
      → Allowed config (kind_of b)
      → IsNumbered (suc count) (insert count b backends)
  insert-IsNumbered count b backends n i a = record {
    present = λ id below. elim (ℕ_discrete id count) [
      | yes e ↦ (b, ground (arith, e, lookup-insert id count b backends), i ∙ sym e, a)
      | no ne ↦
          let (b', found, same, allowed) = n.present id (omega (arith, below, ne)) in
          (b', ground (arith, ne, found, lookup-insert id count b backends), same, allowed)
    ];
    absent = λ id above.
        ground
          (arith, above, n.absent id (omega (arith, above)), lookup-insert id count b backends);
  }
