-- ===== src/Memserver.antt =====
-- crates/duvm-memserver/src/main.rs: the shared page store and the loop that serves a client. A lock
-- is held for a whole operation, so an operation is one step. The client's bytes come as a list, and
-- the stream takes what is written.
pub mod Accept
pub mod Start
pub mod Session
pub mod Bounded
pub mod Threads
use distributed_uvm.Prelude.{
  ℕ, ◌+◌, ◌-◌, ◌%◌, ◌^◌, Bool, true, false, not, ◌&&◌, Option, none, some, List, [], ◌∷◌, ◌++◌, leb,
  ◌==◌, if◌then◌else◌, length, zero, suc, replicate,
}
use distributed_uvm.Prelude.Bytes.{le_bytes, from_le_bytes, read_exact}
use distributed_uvm.Prelude.HashMap.{HashMap, lookup, insert, remove, contains_key}
use distributed_uvm.Prelude.Outcome.{Outcome, ok, err, io_failed}
use distributed_uvm.Common.Page.{PageBuffer, page_size}

abbrev pub op_store : ℕ
op_store = 1

abbrev pub op_load : ℕ
op_load = 2

abbrev pub op_free : ℕ
op_free = 3

abbrev pub op_alloc : ℕ
op_alloc = 4

abbrev pub op_status : ℕ
op_status = 5

abbrev pub resp_ok : ℕ
resp_ok = 0

abbrev pub resp_err : ℕ
resp_err = 1

pub record PageStore : Type 0 where
  pub pages : HashMap PageBuffer
  pub max_pages : ℕ
  pub used : ℕ
  pub next_offset : ℕ

abbrev pub new_store : ℕ → PageStore
new_store max_pages = record { pages = []; max_pages = max_pages; used = 0; next_offset = 0 }

-- The compare-and-swap succeeds when no other thread comes between.
unfoldable pub alloc_offset : PageStore → PageStore × Option ℕ
alloc_offset s = if leb s.max_pages s.used then (s, none) else (
  record s { used = s.used + 1; next_offset = (s.next_offset + 1) % 2 ^ 64 },
  some s.next_offset,
)

unfoldable pub store : PageStore → ℕ → PageBuffer → PageStore × Bool
store s offset bytes =
    if leb s.max_pages (length s.pages) && not (contains_key offset s.pages)
    then (s, false)
    else (record s { pages = insert offset bytes s.pages }, true)

abbrev pub load : PageStore → ℕ → Option PageBuffer
load s offset = lookup offset s.pages

-- `fetch_sub` wraps.
unfoldable pub free : PageStore → ℕ → PageStore × Bool
free s offset = elim (lookup offset s.pages) [
  | none ↦ (s, false)
  | some bytes ↦
      (record s { pages = remove offset s.pages; used = (s.used + (2 ^ 64 - 1)) % 2 ^ 64 }, true)
]

-- One turn of the loop: no opcode could be read, a later read failed, or an answer was written.
pub data Turn : Type 0 where
  ended : Turn
  broken : Turn
  answered : PageStore → List ℕ → List ℕ → Turn

abbrev pub status_byte : Bool → List ℕ
status_byte true = resp_ok ∷ []
status_byte false = resp_err ∷ []

-- The rest of a turn on an offset that is read first.
abbrev pub with_offset : List ℕ → (ℕ → List ℕ → Turn) → Turn
with_offset input k = elim (read_exact 8 input) [
  | none ↦ broken
  | some (header, rest) ↦ k (from_le_bytes header) rest
]

-- A new state and a bare status.
abbrev pub answer_status : PageStore × Bool → List ℕ → Turn
answer_status (s, done) rest = answered s rest (status_byte done)

unfoldable pub serve_one : PageStore → List ℕ → Turn
serve_one s [] = ended
serve_one s (op ∷ input) =
    if op == op_alloc
    then (let (s', allocated) = alloc_offset s in
        elim allocated [
          | some offset ↦ answered s' input (resp_ok ∷ le_bytes 8 offset)
          | none ↦ answered s' input (resp_err ∷ replicate 8 0)
        ])
    else if op == op_store
    then with_offset input (λ offset rest. elim (read_exact page_size rest) [
      | none ↦ broken
      | some (bytes, rest') ↦ answer_status (store s offset bytes) rest'
    ])
    else if op == op_load
    then with_offset input (λ offset rest. elim (load s offset) [
      | none ↦ answered s rest (resp_err ∷ [])
      | some bytes ↦ answered s rest (resp_ok ∷ bytes)
    ])
    else if op == op_free
    then with_offset input (λ offset rest. answer_status (free s offset) rest)
    else if op == op_status
    then answered s input (resp_ok ∷ le_bytes 8 s.used ++ le_bytes 8 s.max_pages)
    else answered s input (resp_err ∷ [])

-- The loop, with the bytes written so far; every turn reads a byte.
unfoldable pub handle_client :
    ℕ → PageStore → List ℕ → List ℕ → Option (PageStore × List ℕ × Outcome (Unit {0}))
handle_client zero s input output = none
handle_client (suc fuel) s input output = elim (serve_one s input) [
  | ended ↦ some (s, output, ok tt)
  | broken ↦ some (s, output, err io_failed)
  | answered s' rest response ↦ handle_client fuel s' rest (output ++ response)
]
