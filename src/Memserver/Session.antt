-- ===== src/Memserver/Session.antt =====
-- The requests of a client as bytes, what each means for the store, and whole sessions.
use distributed_uvm.Prelude.{
  ℕ, suc, zero, ◌^◌, ◌≡◌, refl, sym, ap, ◌<◌, Option, none, some, List, [], ◌∷◌, ◌++◌, length,
  replicate, arith, Every,
}
use mathlib.Core.List.{append-nil, append_assoc}
use distributed_uvm.Prelude.Bytes.{
  le_bytes, from_le_bytes-le_bytes, length-le_bytes, read_exact_append,
}
use distributed_uvm.Prelude.Outcome.{ok}
use distributed_uvm.Common.Page.{PageBuffer, page_size}
use distributed_uvm.Backends.Contract.{IsPage}
use distributed_uvm.Memserver.{
  PageStore, alloc_offset, store, load, free, Turn, answered, serve_one, handle_client, op_store,
  op_load, op_free, op_alloc, op_status, resp_ok, resp_err, status_byte, with_offset,
}

pub data Request : Type 0 where
  alloc_request : Request
  store_request : ℕ → PageBuffer → Request
  load_request : ℕ → Request
  free_request : ℕ → Request
  status_request : Request

-- The bytes that a client writes.
abbrev pub encode : Request → List ℕ
encode alloc_request = op_alloc ∷ []
encode (store_request offset page) = op_store ∷ le_bytes 8 offset ++ page
encode (load_request offset) = op_load ∷ le_bytes 8 offset
encode (free_request offset) = op_free ∷ le_bytes 8 offset
encode status_request = op_status ∷ []

abbrev pub IsTyped : Request → Type 0
IsTyped alloc_request = Unit
IsTyped (store_request offset page) = (offset < 256 ^ 8) × IsPage page
IsTyped (load_request offset) = offset < 256 ^ 8
IsTyped (free_request offset) = offset < 256 ^ 8
IsTyped status_request = Unit

abbrev offset_bytes : Option ℕ → List ℕ
offset_bytes none = resp_err ∷ replicate 8 0
offset_bytes (some offset) = resp_ok ∷ le_bytes 8 offset

abbrev page_bytes : Option PageBuffer → List ℕ
page_bytes none = resp_err ∷ []
page_bytes (some page) = resp_ok ∷ page

-- What a request means: the operation of the store and the bytes of its answer.
abbrev pub answer : Request → PageStore → PageStore × List ℕ
answer alloc_request s = ((alloc_offset s).0, offset_bytes (alloc_offset s).1)
answer (store_request offset page) s =
    ((store s offset page).0, status_byte (store s offset page).1)
answer (load_request offset) s = (s, page_bytes (load s offset))
answer (free_request offset) s = ((free s offset).0, status_byte (free s offset).1)
answer status_request s = (s, resp_ok ∷ le_bytes 8 s.used ++ le_bytes 8 s.max_pages)

abbrev pub encode_all : List Request → List ℕ
encode_all [] = []
encode_all (r ∷ rs) = encode r ++ encode_all rs

abbrev pub answer_all : List Request → PageStore → PageStore × List ℕ
answer_all [] s = (s, [])
answer_all (r ∷ rs) s =
    ((answer_all rs (answer r s).0).0, (answer r s).1 ++ (answer_all rs (answer r s).0).1)

header :
    (offset : ℕ) (rest : List ℕ) (k : ℕ → List ℕ → Turn)
    → offset < 256 ^ 8
    → with_offset (le_bytes 8 offset ++ rest) k ≡ k offset rest
header offset rest k h = ground (
  arith,
  read_exact_append 8 (le_bytes 8 offset) rest (length-le_bytes 8 offset),
  from_le_bytes-le_bytes 8 offset h,
)

-- A request that arrives whole is answered as it should be, and nothing after it is read.
pub serve_one-encode :
    (r : Request) (s : PageStore) (rest : List ℕ)
    → IsTyped r
    → serve_one s (encode r ++ rest) ≡ answered (answer r s).0 rest (answer r s).1
unfolding serve_one
serve_one-encode alloc_request s rest t = ground arith
serve_one-encode (store_request offset page) s rest (small, p) = ground (
  arith,
  read_exact_append 8 (le_bytes 8 offset) (page ++ rest) (length-le_bytes 8 offset),
  from_le_bytes-le_bytes 8 offset small,
  read_exact_append page_size page rest p,
  append_assoc (le_bytes 8 offset) page rest,
)
serve_one-encode (load_request offset) s rest t = ground (
  arith,
  read_exact_append 8 (le_bytes 8 offset) rest (length-le_bytes 8 offset),
  from_le_bytes-le_bytes 8 offset t,
)
serve_one-encode (free_request offset) s rest t = ground (
  arith,
  read_exact_append 8 (le_bytes 8 offset) rest (length-le_bytes 8 offset),
  from_le_bytes-le_bytes 8 offset t,
)
serve_one-encode status_request s rest t = refl

-- On the bytes of any sequence of well-typed requests, with more fuel than requests, the server's
-- loop ends without an error, having applied the requests to the store in order and written their
-- answers in order.
pub handle_client-encode :
    (rs : List Request) (s : PageStore) (output : List ℕ) (fuel : ℕ)
    → Every IsTyped rs
    → length rs < fuel
    → handle_client fuel s (encode_all rs) output
      ≡ some ((answer_all rs s).0, output ++ (answer_all rs s).1, ok tt)
unfolding handle_client
handle_client-encode [] s output zero t h = absurd (ground (arith, h))
handle_client-encode [] s output (suc fuel) t h =
    unfold serve_one in ap (λ out. some (s, out, ok tt)) (sym (append-nil output))
handle_client-encode (r ∷ rs) s output zero t h = absurd (ground (arith, h))
handle_client-encode (r ∷ rs) s output (suc fuel) (t, ts) h =
    let rest =
      handle_client-encode rs (answer r s).0 (output ++ (answer r s).1) fuel ts
        (omega (arith, h)) in
    ground (
      arith,
      serve_one-encode r s (encode_all rs) t,
      rest,
      append_assoc output (answer r s).1 (answer_all rs (answer r s).0).1,
    )
