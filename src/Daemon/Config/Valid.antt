-- ===== src/Daemon/Config/Valid.antt =====
-- What it means that a configuration of crates/duvm-daemon/src/config.rs is valid, and that the daemon's is.
use Prim.Native.String.{String}
use text.Mathlib.TextEquality.{eq_iff}
use text.Mathlib.Text.{◌==◌ as str_eq}
use distributed_uvm.Prelude.{
  ℕ, ◌≡◌, ◌<◌, refl, sym, ◌∙◌, ap, Bool, true, false, ◌&&◌, some, arith, Option-cases, Bool-cases,
  inl, inr, if◌then◌else◌, ◌==◌, ◌↔◌,
}
use distributed_uvm.Prelude.Outcome.{Outcome, Outcome-cases, ok, err, invalid_config}
use distributed_uvm.Daemon.Config.{
  MemoryBackendConfig, CompressBackendConfig, DaemonConfig, default_config, memory_is_empty,
  compress_is_empty, validate, Files, load_or_default, apply_cli_overrides, Args, kmod_config,
}

-- What a configuration promises to the backends.
pub record IsValid (config : DaemonConfig) : Type 0 where
  pub memory :
      (mem : MemoryBackendConfig)
      → config.backends.memory ≡ some mem
      → mem.enabled ≡ true
      → 0 < mem.max_pages
  pub compress :
      (comp : CompressBackendConfig)
      → config.backends.compress ≡ some comp
      → comp.enabled ≡ true
      → 0 < comp.max_pages
  pub strategy : config.policy.strategy ≡ "lru"

validate_valid :
    (mem_empty comp_empty known : Bool)
    → (if◌then◌else◌ {A = Outcome {0} (Unit {0})} mem_empty
        (err invalid_config)
        (if comp_empty then err invalid_config else if known then ok tt else err invalid_config))
      ≡ ok tt
    → (mem_empty ≡ false) × (comp_empty ≡ false) × (known ≡ true)
validate_valid false false true h = (refl, refl, refl)
validate_valid true c k h = absurd (ground (arith, h))
validate_valid false true k h = absurd (ground (arith, h))
validate_valid false false false h = absurd (ground (arith, h))

-- A backend that is enabled and not refused has room.
has_room :
    (enabled : Bool) (max_pages : ℕ)
    → (enabled && (max_pages == 0)) ≡ false
    → enabled ≡ true
    → 0 < max_pages
has_room enabled max_pages h e = ground (arith, h, e)

no_room :
    (enabled : Bool) (max_pages : ℕ)
    → (enabled ≡ true → 0 < max_pages)
    → (enabled && (max_pages == 0)) ≡ false
no_room true max_pages h = let p = h refl in ground (arith, p)
no_room false max_pages h = refl

pub validate-IsValid : (config : DaemonConfig) → validate config ≡ ok tt → IsValid config
unfolding validate
validate-IsValid config h =
    let (m, c, k) = validate_valid _ _ _ h in
    record {
      memory = λ mem e enabled.
          has_room mem.enabled mem.max_pages (sym (ap memory_is_empty e) ∙ m) enabled;
      compress = λ comp e enabled.
          has_room comp.enabled comp.max_pages (sym (ap compress_is_empty e) ∙ c) enabled;
      strategy = (eq_iff config.policy.strategy "lru").0 k;
    }

pub IsValid-validate : (config : DaemonConfig) → IsValid config → validate config ≡ ok tt
unfolding validate
IsValid-validate config v =
    let m : memory_is_empty config.backends.memory ≡ false =
      elim (Option-cases config.backends.memory) [
        | inl e ↦ ap memory_is_empty e
        | inr (mem, e) ↦ ap memory_is_empty e ∙ no_room mem.enabled mem.max_pages (v.memory mem e)
      ] in
    let c : compress_is_empty config.backends.compress ≡ false =
      elim (Option-cases config.backends.compress) [
        | inl e ↦ ap compress_is_empty e
        | inr (comp, e) ↦
            ap compress_is_empty e ∙ no_room comp.enabled comp.max_pages (v.compress comp e)
      ] in
    let k : str_eq config.policy.strategy "lru" ≡ true =
      (eq_iff config.policy.strategy "lru").1 v.strategy in
    rw m (rw c (rw k refl))

-- validate accepts a configuration if and only if each local backend that is enabled has room for
-- a page and the strategy is lru.
pub validate_iff : (config : DaemonConfig) → (validate config ≡ ok tt) ↔ IsValid config
validate_iff config = (validate-IsValid config, IsValid-validate config)

default_config-IsValid : IsValid default_config
unfolding validate
default_config-IsValid = validate-IsValid default_config refl

pub load_or_default-IsValid : (files : Files) (path : String) → IsValid (load_or_default files path)
unfolding load_or_default
load_or_default-IsValid files path = elim (Bool-cases (files.exists path)) [
  | inr t ↦ rw t default_config-IsValid
  | inl t ↦ elim (Option-cases (files.read path)) [
    | inl r ↦ rw t (rw r default_config-IsValid)
    | inr (content, r) ↦ elim (Option-cases (files.parse content)) [
      | inl p ↦ rw t (rw r (rw p default_config-IsValid))
      | inr (config, p) ↦ elim (Outcome-cases (validate config)) [
        | inl (u, v) ↦ rw t (rw r (rw p (rw v (validate-IsValid config v))))
        | inr (inl (x, v)) ↦ rw t (rw r (rw p (rw v default_config-IsValid)))
        | inr (inr v) ↦ rw t (rw r (rw p (rw v default_config-IsValid)))
      ]
    ]
  ]
]

-- Whatever the configuration file is, and whether or not it can be read and parsed, the
-- configuration with which the daemon serves the kernel module is valid.
pub kmod_config-IsValid : (files : Files) (args : Args) → IsValid (kmod_config files args)
unfolding kmod_config apply_cli_overrides
kmod_config-IsValid files args =
    let v = load_or_default-IsValid files args.config in
    elim (Bool-cases (str_eq args.socket "/run/duvm/duvm.sock")) [
      | inl t ↦ rw t (record { memory = v.memory; compress = v.compress; strategy = v.strategy })
      | inr t ↦ rw t (record { memory = v.memory; compress = v.compress; strategy = v.strategy })
    ]
