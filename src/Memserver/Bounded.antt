-- ===== src/Memserver/Bounded.antt =====
-- The capacity of the store, for a client that sends any bytes.
use distributed_uvm.Prelude.{
  ℕ, suc, zero, ◌+◌, ◌-◌, ◌%◌, ◌^◌, ◌≡◌, refl, sym, ◌<◌, ◌≤◌, Bool, true, false, not, ◌&&◌, Option,
  none, some, List, [], ◌∷◌, ◌++◌, leb, ◌==◌, if◌then◌else◌, length, replicate, arith, Option-cases,
  inl, inr, subst, ◌⊎◌, Bool-cases,
}
use distributed_uvm.Prelude.Bytes.{le_bytes, from_le_bytes, read_exact, read_exact-le}
use distributed_uvm.Prelude.HashMap.{
  lookup, insert, remove, contains_key, IsDistinct, insert-IsDistinct, remove-IsDistinct,
  length-remove-le, length-insert_old, length-insert_new,
}
use distributed_uvm.Prelude.Outcome.{Outcome, ok, err, io_failed}
use distributed_uvm.Common.Page.{PageBuffer, page_size}
use distributed_uvm.Memserver.{
  PageStore, alloc_offset, store, load, free, Turn, ended, broken, answered, serve_one,
  handle_client, op_store, op_load, op_free, op_alloc, op_status, resp_ok, resp_err, with_offset,
  answer_status,
}

-- The pages fit.
pub record IsBounded (s : PageStore) : Type 0 where
  pub distinct : IsDistinct s.pages
  pub fits : length s.pages ≤ s.max_pages

alloc_offset-IsBounded : (s : PageStore) → IsBounded s → IsBounded (alloc_offset s).0
unfolding alloc_offset
alloc_offset-IsBounded s v = elim (Bool-cases (leb s.max_pages s.used)) [
  | inl t ↦ rw t v
  | inr t ↦ rw t (record { distinct = v.distinct; fits = v.fits })
]

insert_fits :
    (s : PageStore) (offset : ℕ) (page : PageBuffer)
    → IsBounded s
    → (leb s.max_pages (length s.pages) && not (contains_key offset s.pages)) ≡ false
    → length (insert offset page s.pages) ≤ s.max_pages
insert_fits s offset page v h = elim (Option-cases (lookup offset s.pages)) [
  | inl t ↦
      let room : leb s.max_pages (length s.pages) ≡ false =
        unfold contains_key in ground (arith, h, t) in
      ground (arith, length-insert_new offset page s.pages t, room)
  | inr (old, t) ↦ omega (arith, length-insert_old offset page old s.pages t, v.fits)
]

store-IsBounded :
    (s : PageStore) (offset : ℕ) (page : PageBuffer)
    → IsBounded s
    → IsBounded (store s offset page).0
unfolding store
store-IsBounded s offset page v =
    elim (Bool-cases (leb s.max_pages (length s.pages) && not (contains_key offset s.pages))) [
      | inl t ↦ rw t v
      | inr t ↦ rw t (record {
        distinct = insert-IsDistinct offset page s.pages v.distinct;
        fits = insert_fits s offset page v t;
      })
    ]

free-IsBounded : (s : PageStore) (offset : ℕ) → IsBounded s → IsBounded (free s offset).0
free-IsBounded s offset v = elim (Option-cases (lookup offset s.pages)) [
  | inl t ↦ let run : free s offset ≡ (s, false) = unfold free in ground (arith, t) in rw run v
  | inr (page, t) ↦
      let run : free s offset ≡ (
        record s { pages = remove offset s.pages; used = (s.used + (2 ^ 64 - 1)) % 2 ^ 64 },
        true,
      ) =
        unfold free in ground (arith, t) in
      rw run (record {
        distinct = remove-IsDistinct offset s.pages v.distinct;
        fits = omega (arith, length-remove-le offset s.pages, v.fits);
      })
]

-- A turn over `n` bytes leaves a bounded store and fewer bytes.
abbrev IsGood : ℕ → Turn → Type 0
IsGood n ended = Unit
IsGood n broken = Unit
IsGood n (answered s rest response) = IsBounded s × (length rest < n)

if-IsGood :
    (n : ℕ) (b : Bool) (x y : Turn) → IsGood n x → IsGood n y → IsGood n (if b then x else y)
if-IsGood n true x y p q = p
if-IsGood n false x y p q = q

with_offset-IsGood :
    (n : ℕ) (input : List ℕ) (k : ℕ → List ℕ → Turn)
    → ((offset : ℕ) (rest : List ℕ) → length rest ≤ length input → IsGood n (k offset rest))
    → IsGood n (with_offset input k)
with_offset-IsGood n input k p = elim (Option-cases (read_exact 8 input)) [
  | inl t ↦
      let run : with_offset input k ≡ broken = ground (arith, t) in subst (IsGood n) (sym run) tt
  | inr ((header, rest), t) ↦
      let run : with_offset input k ≡ k (from_le_bytes header) rest = ground (arith, t) in
      subst (IsGood n) (sym run)
        (p (from_le_bytes header) rest (read_exact-le 8 input header rest t))
]

page-IsGood :
    (s : PageStore) (n offset : ℕ) (input : List ℕ)
    → IsBounded s
    → length input < n
    → IsGood n (elim (read_exact page_size input) [
      | none ↦ broken
      | some (bytes, rest) ↦ answer_status (store s offset bytes) rest
    ])
page-IsGood s n offset input v short = elim (Option-cases (read_exact page_size input)) [
  | inl t ↦ rw t tt
  | inr ((page, rest), t) ↦ rw t (
    store-IsBounded s offset page v,
    omega (arith, read_exact-le page_size input page rest t, short),
  )
]

load-IsGood :
    (s : PageStore) (n : ℕ) (found : Option PageBuffer) (rest : List ℕ)
    → IsBounded s
    → length rest < n
    → IsGood n (elim found [
      | none ↦ answered s rest (resp_err ∷ [])
      | some bytes ↦ answered s rest (resp_ok ∷ bytes)
    ])
load-IsGood s n none rest v short = (v, short)
load-IsGood s n (some page) rest v short = (v, short)

alloc-IsGood :
    (s : PageStore) (n : ℕ) (out : PageStore × Option ℕ) (rest : List ℕ)
    → IsBounded out.0
    → length rest < n
    → IsGood n (
        let (s', allocated) = out in
        elim allocated [
          | some offset ↦ answered s' rest (resp_ok ∷ le_bytes 8 offset)
          | none ↦ answered s' rest (resp_err ∷ replicate 8 0)
        ])
alloc-IsGood s n (s', none) rest v short = (v, short)
alloc-IsGood s n (s', some offset) rest v short = (v, short)

serve_one-IsGood :
    (s : PageStore) (input : List ℕ) → IsBounded s → IsGood (length input) (serve_one s input)
unfolding serve_one
serve_one-IsGood s [] v = tt
serve_one-IsGood s (op ∷ input) v =
    let n = suc (length input) in
    let short : length input < n = omega arith in
    if-IsGood n (op == op_alloc) _ _
      (alloc-IsGood s n (alloc_offset s) input (alloc_offset-IsBounded s v) short)
      (if-IsGood n (op == op_store) _ _
        (with_offset-IsGood n input _
          λ offset rest l. page-IsGood s n offset rest v (omega (arith, l)))
        (if-IsGood n (op == op_load) _ _
          (with_offset-IsGood n input _
            λ offset rest l. load-IsGood s n (load s offset) rest v (omega (arith, l)))
          (if-IsGood n (op == op_free) _ _
            (with_offset-IsGood n input (λ x rest. answer_status (free s x) rest)
              λ offset rest l. (free-IsBounded s offset v, omega (arith, l)))
            (if-IsGood n (op == op_status)
              (answered s input (resp_ok ∷ le_bytes 8 s.used ++ le_bytes 8 s.max_pages))
              (answered s input (resp_err ∷ [])) (v, short) (v, short)))))

-- How a turn went.
Turn-cases :
    (t : Turn)
    → (t ≡ ended)
      ⊎ (t ≡ broken)
      ⊎ ((s : PageStore) × (rest : List ℕ) × (response : List ℕ) × (t ≡ answered s rest response))
Turn-cases ended = inl refl
Turn-cases broken = inr (inl refl)
Turn-cases (answered s rest response) = inr (inr (s, rest, response, refl))

-- Whatever bytes a client sends, with more fuel than bytes, the server's loop ends, and a store
-- with distinct offsets and at most as many pages as its limit is left so.
pub handle_client-IsBounded :
    (fuel : ℕ) (s : PageStore) (input output : List ℕ)
    → IsBounded s
    → length input < fuel
    → (s' : PageStore) × (output' : List ℕ) × (result : Outcome (Unit {0})) × (handle_client fuel s
          input output
        ≡ some (s', output', result))
      × IsBounded s'
handle_client-IsBounded zero s input output v h = absurd (ground (arith, h))
handle_client-IsBounded (suc fuel) s input output v h = elim (Turn-cases (serve_one s input)) [
  | inl t ↦
      let run : handle_client (suc fuel) s input output ≡ some (s, output, ok tt) =
        unfold handle_client in ground (arith, t) in
      (s, output, ok tt, run, v)
  | inr (inl t) ↦
      let run : handle_client (suc fuel) s input output ≡ some (s, output, err io_failed) =
        unfold handle_client in ground (arith, t) in
      (s, output, err io_failed, run, v)
  | inr (inr (s', rest, response, t)) ↦
      let (w, less) = subst (IsGood (length input)) t (serve_one-IsGood s input v) in
      let run : handle_client (suc fuel) s input output
          ≡ handle_client fuel s' rest (output ++ response) =
        unfold handle_client in ground (arith, t) in
      rw run (handle_client-IsBounded fuel s' rest (output ++ response) w (omega (arith, less, h)))
]
