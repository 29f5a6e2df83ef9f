-- ===== src/Memserver/Threads/Count.antt =====
-- Counting: the pages in flight, and the pages against the offsets that were given out.
use distributed_uvm.Prelude.{
  ℕ, zero, suc, ◌+◌, ◌≡◌, ◌≢◌, ◌<◌, none, some, List, [], ◌∷◌, arith, get_elem?, set, In, length,
}
use distributed_uvm.Prelude.HashMap.{HashMap, lookup, IsDistinct, All}
use distributed_uvm.Common.Page.{PageBuffer}
use distributed_uvm.Memserver.Threads.{Pc, reserved, subtracting, erase}

-- The pages that a thread has counted in `used` and that are not, or no longer, in `live`.
abbrev pub weight : Pc → ℕ
weight reserved = 1
weight subtracting = 1
weight _ = 0

abbrev pub in_flight : List Pc → ℕ
in_flight [] = 0
in_flight (p ∷ ps) = weight p + in_flight ps

pub in_flight-set :
    (ps : List Pc) (i : ℕ) (p q : Pc)
    → get_elem? ps i ≡ some p
    → in_flight (set ps i q) + weight p ≡ in_flight ps + weight q
in_flight-set [] i p q h = absurd (ground (arith, h))
in_flight-set (r ∷ ps) zero p q h = let same : r ≡ p = ground (arith, h) in rw same (omega arith)
in_flight-set (r ∷ ps) (suc i) p q h = omega (arith, in_flight-set ps i p q h)

-- Dropping an offset.
pub In-erase : (j k : ℕ) (xs : List ℕ) → In j xs → j ≢ k → In j (erase k xs)
In-erase j k [] h ne = h
In-erase j k (x ∷ xs) h ne = ground (arith, In-erase j k xs, h, ne)

pub length-erase : (k : ℕ) (xs : List ℕ) → In k xs → suc (length (erase k xs)) ≡ length xs
length-erase k [] h = elim h [ ]
length-erase k (x ∷ xs) h = ground (arith, length-erase k xs, h)

-- Every page lies at an offset of the list.
abbrev pub Owned : List ℕ → HashMap PageBuffer → Type 0
Owned live m = All (λ offset page. In offset live) m

pub Owned-erase :
    (k : ℕ) (live : List ℕ) (m : HashMap PageBuffer)
    → lookup k m ≡ none
    → Owned live m
    → Owned (erase k live) m
unfolding lookup
Owned-erase k live [] h a = tt
Owned-erase k live ((j, page) ∷ m) h a =
    let ne : j ≢ k = ground (arith, h) in
    (In-erase j k live a.0 ne, Owned-erase k live m (ground (arith, h, ne)) a.1)

-- With an offset of the list that has no page, there are fewer pages than offsets.
pub spare :
    (o : ℕ) (live : List ℕ) (m : HashMap PageBuffer)
    → IsDistinct m
    → Owned live m
    → In o live
    → lookup o m ≡ none
    → length m < length live
unfolding lookup
spare o [] m d a h e = elim h [ ]
spare o (x ∷ live) [] d a h e = omega arith
spare o (x ∷ live) ((k, page) ∷ m) d a h e =
    let ne : o ≢ k = ground (arith, e) in
    let less =
      spare o (erase k (x ∷ live)) m d.1 (Owned-erase k (x ∷ live) m d.0 a.1)
        (In-erase o k (x ∷ live) h ne) (ground (arith, e, ne)) in
    omega (arith, less, length-erase k (x ∷ live) a.0)
