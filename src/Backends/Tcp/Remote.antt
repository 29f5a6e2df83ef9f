-- ===== src/Backends/Tcp/Remote.antt =====
-- The TCP backend and the memory server together: the client's bytes over a connection on which the
-- server answers each request.
use distributed_uvm.Prelude.{
  ℕ, suc, ◌^◌, ◌≡◌, refl, sym, ap, ◌∙◌, ◌<◌, Bool, true, false, Option, none, some, List, [], ◌∷◌,
  ◌++◌, arith, Option-cases, inl, inr, subst, length,
}
use mathlib.Core.List.{append-nil}
use distributed_uvm.Prelude.Bytes.{
  le_bytes, from_le_bytes-le_bytes, length-le_bytes, read_exact, read_exact_append,
}
use distributed_uvm.Prelude.Outcome.{Outcome, ok, err, io_failed, refused}
use distributed_uvm.Prelude.HashMap.{lookup-insert_self}
use distributed_uvm.Common.Page.{PageHandle, PageBuffer, page_size, new_handle, offset}
use distributed_uvm.Common.Page.Laws.{offset-lt}
use distributed_uvm.Backends.Contract.{IsPage}
use distributed_uvm.Backends.Tcp.{
  Stream, TcpBackend, Env, run_op, with_stream, alloc_op, store_op, load_op, free_op, store_page,
  load_page,
}
use distributed_uvm.Memserver.{PageStore, alloc_offset, store, load, free, answered, serve_one}
use distributed_uvm.Memserver.Session.{
  Request, alloc_request, store_request, load_request, free_request, encode, IsTyped, answer,
  serve_one-encode,
}

-- A connection: the server behind it, what it has not read yet, and what the client has not read yet.
pub record Wire : Type 0 where
  pub server : PageStore
  pub sent : List ℕ
  pub received : List ℕ

-- The server answers when the client flushes.
unfoldable pub wire : Stream Wire
wire = record {
  write_all = λ bytes w. (record w { sent = w.sent ++ bytes }, ok tt);
  flush = λ w. elim (serve_one w.server w.sent) [
    | answered s rest response ↦
        (record { server = s; sent = rest; received = w.received ++ response }, ok tt)
    | _ ↦ (w, ok tt)
  ];
  read_exact = λ n w. elim (read_exact n w.received) [
    | none ↦ (w, err io_failed)
    | some (bytes, rest) ↦ (record w { received = rest }, ok bytes)
  ];
}

-- A connection with nothing on its way.
abbrev pub idle : PageStore → Wire
idle s = record { server = s; sent = []; received = [] }

alone :
    (r : Request) (s : PageStore)
    → IsTyped r
    → serve_one s (encode r) ≡ answered (answer r s).0 [] (answer r s).1
alone r s t = ap (serve_one s) (sym (append-nil (encode r))) ∙ serve_one-encode r s [] t

read_all : (n : ℕ) (xs : List ℕ) → length xs ≡ n → read_exact n xs ≡ some (xs, [])
read_all n xs h = ap (read_exact n) (sym (append-nil xs)) ∙ read_exact_append n xs [] h

read_one : (b : ℕ) (bs : List ℕ) → read_exact 1 (b ∷ bs) ≡ some (b ∷ [], bs)
read_one b bs = unfold read_exact in refl

small : (h : PageHandle) → offset h < 256 ^ 8
small h = omega (arith, offset-lt h)

-- A status byte as the client reads it.
abbrev pub status : Bool → Outcome (Unit {0})
status true = ok tt
status false = err refused

remote_free :
    (h : PageHandle) (s : PageStore)
    → free_op wire h (idle s) ≡ (idle (free s (offset h)).0, status (free s (offset h)).1)
unfolding wire free_op read_exact
remote_free h s = ground (arith, alone (free_request (offset h)) s (small h))

remote_store :
    (h : PageHandle) (page : PageBuffer) (s : PageStore)
    → IsPage page
    → store_op wire h page (idle s)
      ≡ (idle (store s (offset h) page).0, status (store s (offset h) page).1)
unfolding wire store_op read_exact
remote_store h page s p = ground (arith, alone (store_request (offset h) page) s (small h, p))

-- What the client makes of a lookup.
abbrev pub found : Option PageBuffer → Outcome PageBuffer
found none = err refused
found (some page) = ok page

remote_load :
    (h : PageHandle) (s : PageStore)
    → ((page : PageBuffer) → load s (offset h) ≡ some page → IsPage page)
    → load_op wire h (idle s) ≡ (idle s, found (load s (offset h)))
unfolding wire load_op
remote_load h s typed = elim (Option-cases (load s (offset h))) [
  | inl t ↦ unfold read_exact in ground (arith, alone (load_request (offset h)) s (small h), t)
  | inr (page, t) ↦ ground (
    arith,
    alone (load_request (offset h)) s (small h),
    t,
    read_one 0 page,
    read_all page_size page (typed page t),
  )
]

-- What the client makes of an answer to an allocation.
abbrev pub allocated : ℕ → Option ℕ → Outcome PageHandle
allocated backend_id none = err refused
allocated backend_id (some o) = new_handle backend_id o

remote_alloc :
    (backend_id : ℕ) (s : PageStore)
    → s.next_offset < 256 ^ 8
    → alloc_op wire backend_id (idle s)
      ≡ (idle (alloc_offset s).0, allocated backend_id (alloc_offset s).1)
unfolding wire alloc_op
remote_alloc backend_id s h = elim (Option-cases (alloc_offset s).1) [
  | inl t ↦ unfold read_exact in ground (arith, alone alloc_request s tt, t)
  | inr (o, t) ↦
      let same : o ≡ s.next_offset = unfold alloc_offset in ground (arith, t) in
      ground (
        arith,
        alone alloc_request s tt,
        t,
        read_all 9 (0 ∷ le_bytes 8 o) (ap suc (length-le_bytes 8 o)),
        from_le_bytes-le_bytes 8 o (rw same h),
      )
]

-- A backend that is connected to a server with nothing on its way.
abbrev pub attached : TcpBackend Wire → PageStore → TcpBackend Wire
attached b s = record b { conn = record (b.conn) { stream = some (idle s) } }

-- Over a connection with nothing on its way to a memory server that takes the whole page, the TCP
-- backend's store of it succeeds, and the load of the handle that follows returns the page.
pub remote_store_load :
    (env env' : Env Wire) (b : TcpBackend Wire) (s : PageStore) (h : PageHandle) (page : PageBuffer)
    → IsPage page
    → (store s (offset h) page).1 ≡ true
    → let b' : TcpBackend Wire × Outcome (Unit {0}) = store_page wire env (attached b s) h page in
      (b'.1 ≡ ok tt) × ((load_page wire env' b'.0 h).1 ≡ ok page)
unfolding store_page load_page with_stream run_op
remote_store_load env env' b s h page p taken =
    let stored = remote_store h page s p in
    let s' = (store s (offset h) page).0 in
    let there : load s' (offset h) ≡ some page =
      unfold store in ground (arith, taken, lookup-insert_self (offset h) page s.pages) in
    let loaded =
      remote_load h s'
        (λ q t. let same : page ≡ q = ground (arith, t, there) in subst IsPage same p) in
    (ground (arith, stored, taken), ground (arith, stored, taken, loaded, there))
