-- ===== src/Backends/Rdma/Resources.antt =====
-- What the RDMA code takes from the verbs and connection-manager libraries and from mmap, and has to
-- give back. The libraries (the functions of crates/duvm-backend-rdma/src/ffi.rs) are parameters:
-- each call may succeed or fail, and changes a world of which nothing is known.
pub mod Rules
pub mod Parts
use distributed_uvm.Prelude.{
  ℕ, ◌+◌, ◌≡◌, ◌≢◌, refl, ap, ◌∙◌, Bool, true, false, Option, none, some, List, [], ◌∷◌, ◌==◌,
  if◌then◌else◌, Empty, subst, Bool-cases, inl, inr, ◌⊎◌, arith,
}
use distributed_uvm.Prelude.Outcome.{Outcome, Error, ok, err, panic}

-- An event waits for its acknowledgement. A client's queue pair belongs to its id. Of a server's
-- connection the id, the completion queue and the queue pair are named by the connection;
-- `shared_domain` is the server's protection domain, in which its queue pairs are made.
pub data Resource : Type 0 where
  channel id event domain queue buffer region : Resource
  shared_domain : Resource
  connection connection_queue connection_pair : ℕ → Resource

abbrev pub same : Resource → Resource → Bool
same channel channel = true
same id id = true
same event event = true
same domain domain = true
same queue queue = true
same buffer buffer = true
same region region = true
same (connection n) (connection m) = n == m
same (connection_queue n) (connection_queue m) = n == m
same (connection_pair n) (connection_pair m) = n == m
same shared_domain shared_domain = true
same r r' = false

-- The resources held, the newest first, and the releases of resources that were not held.
pub record Ledger : Type 0 where
  pub held : List Resource
  pub misused : ℕ

abbrev pub without : Resource → List Resource → Option (List Resource)
without r [] = none
without r (r' ∷ rs) =
    if same r r' then some rs else elim (without r rs) [ none ↦ none | some rs' ↦ some (r' ∷ rs') ]

abbrev pub holds : Resource → List Resource → Bool
holds r rs = elim (without r rs) [ none ↦ false | some rs' ↦ true ]

abbrev pub has_pair : List Resource → Bool
has_pair [] = false
has_pair (connection_pair n ∷ rs) = true
has_pair (r ∷ rs) = has_pair rs

-- `ibv_destroy_cq` fails while a queue pair uses the queue, and `ibv_dealloc_pd` while there are queue
-- pairs in the domain.
abbrev pub in_use : Resource → List Resource → Bool
in_use (connection_queue n) rs = holds (connection_pair n) rs
in_use shared_domain rs = has_pair rs
in_use r rs = false

-- A release that fails leaves the resource held.
abbrev pub released : Resource → Ledger → Ledger
released r l = if in_use r l.held then l else elim (without r l.held) [
  | none ↦ record l { misused = l.misused + 1 }
  | some rs ↦ record l { held = rs }
]

abbrev pub all_released : List Resource → Ledger → Ledger
all_released [] l = l
all_released (r ∷ rs) l = all_released rs (released r l)

pub record State (W : Type 0) : Type 0 where
  pub world : W
  pub ledger : Ledger

-- A part of the code that may return early with an error.
abbrev pub Action : Type 0 → Type 0 → Type 0
Action W A = State W → State W × Outcome A

module _ {W : Type 0} where
  infixl 5 ◌>>=◌ ◌>>◌
  abbrev pub ◌>>=◌ : {A B : Type 0} → Action W A → (A → Action W B) → Action W B
  ◌>>=◌ m f s =
      let (s', r) = m s in elim r [ ok a ↦ f a s' | err x ↦ (s', err x) | panic ↦ (s', panic) ]

  abbrev pub ◌>>◌ : {A B : Type 0} → Action W A → Action W B → Action W B
  m >> k = m >>= λ _. k

  abbrev pub pure : {A : Type 0} → A → Action W A
  pure a s = (s, ok a)

  -- The releases before an early return, in the order of the code, and the error.
  unfoldable pub bail : {A : Type 0} → (Resource → W → W) → List Resource → Error → Action W A
  bail free [] x s = (s, err x)
  bail free (r ∷ rs) x s =
      bail free rs x (record { world = free r s.world; ledger = released r s.ledger })

  -- A call that acquires a resource, or fails.
  unfoldable pub acquire :
      (Resource → W → W) → (W → W × Bool) → Resource → List Resource → Error → Action W (Unit {0})
  acquire free call r cleanup x s =
      let (w, success) = call s.world in
      if success
      then (record { world = w; ledger = record (s.ledger) { held = r ∷ s.ledger.held } }, ok tt)
      else bail free cleanup x (record s { world = w })

  -- A call that acquires nothing.
  unfoldable pub attempt :
      (Resource → W → W) → (W → W × Bool) → List Resource → Error → Action W (Unit {0})
  attempt free call cleanup x s =
      let (w, success) = call s.world in
      if success
      then (record s { world = w }, ok tt)
      else bail free cleanup x (record s { world = w })

  unfoldable pub release : (Resource → W → W) → Resource → Action W (Unit {0})
  release free r s = (record { world = free r s.world; ledger = released r s.ledger }, ok tt)
