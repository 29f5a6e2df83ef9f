-- ===== src/Daemon/Policy/Eviction.antt =====
-- The page that the policy evicts: the least recently used one that is not pinned.
use mathlib.Core.List.{Perm}
use mathlib.Core.List.Perm
use distributed_uvm.Prelude.{
  ℕ, ◌*◌, ◌/◌, ◌%◌, ◌<◌, ◌≤◌, ◌==◌, ◌&&◌, ◌⊎◌, Option, ◌≡◌, refl, sym, ap, ◌∙◌, subst, Bool, true,
  false, none, some, [], ◌∷◌, map, arith, take, keep, In, Every, In-keep, In-keep_of, keep-nil,
  Every-In, List-cases, inl, inr, if◌then◌else◌, Bool-cases,
}
use Prim.Native.Nat.{bit_and}
use distributed_uvm.Prelude.Bits.{bit_and_step, bit_and-zero}
use distributed_uvm.Common.Page.{contains}
use distributed_uvm.Prelude.HashMap.{HashMap}
use distributed_uvm.Daemon.Policy.{
  PageMeta, PolicyEngine, evictable, key_le, min_from, find_eviction_candidate, insert_sorted,
  sort_by_key, find_eviction_candidates,
}

abbrev Entry : Type 0
Entry = ℕ × PageMeta

-- A page of the backend whose bit for `PINNED`, the second, is 0.
abbrev pub IsEvictable : ℕ → PageMeta → Type 0
IsEvictable b meta = (meta.backend_id ≡ b) × (meta.flags / 2 % 2 ≡ 0)

-- Used last before the other, or at the same time and at most as often.
abbrev pub IsBefore : PageMeta → PageMeta → Type 0
IsBefore a b =
    (a.last_access < b.last_access)
    ⊎ ((a.last_access ≡ b.last_access) × (a.access_count ≤ b.access_count))

-- The mask of one bit takes that bit.
bit_and_two : (n : ℕ) → bit_and n 2 ≡ n / 2 % 2 * 2
bit_and_two n = omega (arith, bit_and_step n 2, bit_and_step (n / 2) 1, bit_and-zero (n / 2 / 2))

evictable-IsEvictable : (b : ℕ) (meta : PageMeta) → evictable b meta ≡ true → IsEvictable b meta
unfolding evictable contains
evictable-IsEvictable b meta h = (ground (arith, h), ground (arith, h, bit_and_two meta.flags))

IsEvictable-evictable : (b : ℕ) (meta : PageMeta) → IsEvictable b meta → evictable b meta ≡ true
unfolding evictable contains
IsEvictable-evictable b meta (here, free) = ground (arith, here, free, bit_and_two meta.flags)

key_le-IsBefore : (a b : PageMeta) → key_le a b ≡ true → IsBefore a b
unfolding key_le
key_le-IsBefore a b h = ground (arith, h)

key_le_refl : (a : PageMeta) → key_le a a ≡ true
unfolding key_le
key_le_refl a = ground arith

key_le_trans : (a b c : PageMeta) → key_le a b ≡ true → key_le b c ≡ true → key_le a c ≡ true
unfolding key_le
key_le_trans a b c h k = ground arith

key_le_total : (a b : PageMeta) → key_le a b ≡ false → key_le b a ≡ true
unfolding key_le
key_le_total a b h = ground arith

-- The lesser of two entries, the first where they are equal.
abbrev lesser : Entry → Entry → Entry
lesser a b = if key_le a.1 b.1 then a else b

lesser_assoc : (a b c : Entry) → lesser (lesser a b) c ≡ lesser a (lesser b c)
lesser_assoc a b c = ground (
  arith,
  key_le_trans a.1 b.1 c.1,
  key_le_total a.1 b.1,
  key_le_total b.1 c.1,
  key_le_total a.1 c.1,
  key_le_trans b.1 c.1 a.1,
  key_le_trans c.1 b.1 a.1,
  key_le_trans b.1 a.1 c.1,
  key_le_trans a.1 c.1 b.1,
)

min_from-lesser :
    (a b : Entry) (es : HashMap PageMeta) → min_from (lesser a b) es ≡ lesser a (min_from b es)
unfolding min_from
min_from-lesser a b [] = refl
min_from-lesser a b (e ∷ es) =
    ap (λ x. min_from x es) (lesser_assoc a b e) ∙ min_from-lesser a (lesser b e) es

min_step_keep :
    (b e : Entry) (es : HashMap PageMeta)
    → key_le b.1 e.1 ≡ true
    → min_from b (e ∷ es) ≡ min_from b es
unfolding min_from
min_step_keep b e es h = ap (λ (t : Bool). min_from (if t then b else e) es) h

min_step_take :
    (b e : Entry) (es : HashMap PageMeta)
    → key_le b.1 e.1 ≡ false
    → min_from b (e ∷ es) ≡ min_from e es
unfolding min_from
min_step_take b e es h = ap (λ (t : Bool). min_from (if t then b else e) es) h

-- What `min_from` returns is one of the entries, and least.
min_from-In : (b : Entry) (es : HashMap PageMeta) → In (min_from b es) (b ∷ es)
min_from-In b [] = unfold min_from in inl refl
min_from-In b (e ∷ es) = elim (Bool-cases (key_le b.1 e.1)) [
  | inl h ↦ subst (λ m. In m (b ∷ e ∷ es)) (sym (min_step_keep b e es h)) (skip (min_from-In b es))
  | inr h ↦ subst (λ m. In m (b ∷ e ∷ es)) (sym (min_step_take b e es h)) (inr (min_from-In e es))
]
  where
    skip : In (min_from b es) (b ∷ es) → In (min_from b es) (b ∷ e ∷ es)
    skip (inl p) = inl p
    skip (inr p) = inr (inr p)

abbrev IsLeast : Entry → HashMap PageMeta → Type 0
IsLeast b es = Every (λ (x : Entry). key_le b.1 x.1 ≡ true) es

IsLeast-below :
    (a b : Entry) (es : HashMap PageMeta) → key_le a.1 b.1 ≡ true → IsLeast b es → IsLeast a es
IsLeast-below a b [] h l = tt
IsLeast-below a b (x ∷ es) h l = (key_le_trans a.1 b.1 x.1 h l.0, IsLeast-below a b es h l.1)

min_from-IsLeast : (b : Entry) (es : HashMap PageMeta) → IsLeast (min_from b es) (b ∷ es)
min_from-IsLeast b [] = unfold min_from in (key_le_refl b.1, tt)
min_from-IsLeast b (e ∷ es) = elim (Bool-cases (key_le b.1 e.1)) [
  | inl h ↦
      let l = min_from-IsLeast b es in
      subst (λ m. IsLeast m (b ∷ e ∷ es)) (sym (min_step_keep b e es h))
        (l.0, (key_le_trans (min_from b es).1 b.1 e.1 l.0 h, l.1))
  | inr h ↦
      let l = min_from-IsLeast e es in
      subst (λ m. IsLeast m (b ∷ e ∷ es)) (sym (min_step_take b e es h))
        (key_le_trans (min_from e es).1 e.1 b.1 l.0 (key_le_total b.1 e.1 h), (l.0, l.1))
]

-- The entries that may be evicted from a backend.
abbrev evictables : PolicyEngine → ℕ → HashMap PageMeta
evictables p b = keep (λ e. evictable b e.1) p.pages

-- What an answer of find_eviction_candidate means.
abbrev pub IsVictim : PolicyEngine → ℕ → Option ℕ → Type 0
IsVictim p b none = (e : ℕ × PageMeta) → In e p.pages → ¬ IsEvictable b e.1
IsVictim p b (some off) =
    (meta : PageMeta) × In (off, meta) p.pages
    × IsEvictable b meta
    × ((e : ℕ × PageMeta) → In e p.pages → IsEvictable b e.1 → IsBefore meta e.1)

-- The offset that find_eviction_candidate returns is that of a tracked page of the backend whose
-- bit for `PINNED` is 0, and every such page was accessed last later, or at the same time and at
-- least as often; where it returns none, no tracked page is such a page.
pub find_eviction_candidate_lem :
    (p : PolicyEngine) (b : ℕ) → IsVictim p b (find_eviction_candidate p b)
unfolding find_eviction_candidate
find_eviction_candidate_lem p b = elim (List-cases (evictables p b)) [
  | inl none_left ↦
      let run : find_eviction_candidate p b ≡ none = ground (arith, none_left) in
      let closed : (e : Entry) → In e p.pages → ¬ IsEvictable b e.1 = λ e i q.
        let kept : evictable b e.1 ≡ false =
          Every-In _ e p.pages (keep-nil _ p.pages none_left) i in
        absurd (ground (arith, kept, IsEvictable-evictable b e.1 q)) in
      subst (IsVictim p b) (sym run) closed
  | inr (e, es, some_left) ↦
      let m = min_from e es in
      let run : find_eviction_candidate p b ≡ some m.0 = ground (arith, some_left) in
      let here : In m (evictables p b) = rw some_left (min_from-In e es) in
      let found = In-keep (λ (x : Entry). evictable b x.1) m p.pages here in
      let least : IsLeast m (evictables p b) = rw some_left (min_from-IsLeast e es) in
      subst (IsVictim p b) (sym run) (
        m.1,
        found.0,
        evictable-IsEvictable b m.1 found.1,
        λ x i q. key_le-IsBefore m.1 x.1 (
            Every-In (λ (y : Entry). key_le m.1 y.1 ≡ true) x (evictables p b) least
              (In-keep_of (λ (y : Entry). evictable b y.1) x p.pages i
                (IsEvictable-evictable b x.1 q))),
      )
]

abbrev IsSorted : HashMap PageMeta → Type 0
IsSorted [] = Unit
IsSorted (e ∷ es) = IsLeast e es × IsSorted es

insert_sorted-IsLeast :
    (a e : Entry) (es : HashMap PageMeta)
    → key_le a.1 e.1 ≡ true
    → IsLeast a es
    → IsLeast a (insert_sorted e es)
unfolding insert_sorted
insert_sorted-IsLeast a e [] h l = (h, tt)
insert_sorted-IsLeast a e (x ∷ es) h l = elim (Bool-cases (key_le e.1 x.1)) [
  | inl k ↦ rw k (h, l)
  | inr k ↦ rw k (l.0, insert_sorted-IsLeast a e es h l.1)
]

insert_sorted-IsSorted :
    (e : Entry) (es : HashMap PageMeta) → IsSorted es → IsSorted (insert_sorted e es)
unfolding insert_sorted
insert_sorted-IsSorted e [] s = (tt, tt)
insert_sorted-IsSorted e (x ∷ es) s = elim (Bool-cases (key_le e.1 x.1)) [
  | inl k ↦ rw k ((k, IsLeast-below e x es k s.0), s)
  | inr k ↦
      rw k
        (insert_sorted-IsLeast x e es (key_le_total e.1 x.1 k) s.0, insert_sorted-IsSorted e es s.1)
]

insert_sorted-perm : (e : Entry) (es : HashMap PageMeta) → Perm (insert_sorted e es) (e ∷ es)
unfolding insert_sorted
insert_sorted-perm e [] = Perm.refl (e ∷ [])
insert_sorted-perm e (x ∷ es) = elim (Bool-cases (key_le e.1 x.1)) [
  | inl k ↦ rw k (Perm.refl (e ∷ x ∷ es))
  | inr k ↦ rw k (Perm.trans (Perm.cons x (insert_sorted-perm e es)) (Perm.swap e x es))
]

sort_by_key-IsSorted : (es : HashMap PageMeta) → IsSorted (sort_by_key es)
unfolding sort_by_key
sort_by_key-IsSorted [] = tt
sort_by_key-IsSorted (e ∷ es) = insert_sorted-IsSorted e (sort_by_key es) (sort_by_key-IsSorted es)

sort_by_key-perm : (es : HashMap PageMeta) → Perm (sort_by_key es) es
unfolding sort_by_key
sort_by_key-perm [] = Perm.refl []
sort_by_key-perm (e ∷ es) =
    Perm.trans (insert_sorted-perm e (sort_by_key es)) (Perm.cons e (sort_by_key-perm es))

-- Each entry comes before those behind it.
abbrev pub IsOrdered : HashMap PageMeta → Type 0
IsOrdered [] = Unit
IsOrdered (e ∷ es) = Every (λ (x : ℕ × PageMeta). IsBefore e.1 x.1) es × IsOrdered es

IsLeast-IsBefore :
    (e : Entry) (es : HashMap PageMeta)
    → IsLeast e es
    → Every (λ (x : ℕ × PageMeta). IsBefore e.1 x.1) es
IsLeast-IsBefore e [] l = tt
IsLeast-IsBefore e (x ∷ es) (h, l) = (key_le-IsBefore e.1 x.1 h, IsLeast-IsBefore e es l)

IsSorted-IsOrdered : (es : HashMap PageMeta) → IsSorted es → IsOrdered es
IsSorted-IsOrdered [] s = tt
IsSorted-IsOrdered (e ∷ es) (l, s) = (IsLeast-IsBefore e es l, IsSorted-IsOrdered es s)

-- The test of `IsEvictable`.
abbrev pub due : ℕ → ℕ × PageMeta → Bool
due b (o, meta) = (meta.backend_id == b) && (meta.flags / 2 % 2 == 0)

evictable-due : (b : ℕ) (e : Entry) → evictable b e.1 ≡ due b e
unfolding evictable contains
evictable-due b (o, meta) = ground (arith, bit_and_two meta.flags)

evictables-due : (b : ℕ) (es : HashMap PageMeta) → keep (λ e. evictable b e.1) es ≡ keep (due b) es
evictables-due b es = λ i. keep (λ e. evictable-due b e i) es

-- find_eviction_candidates returns the offsets of the first `count` entries of a list that holds
-- the tracked pages of the backend whose bit for `PINNED` is 0, each as often as it is tracked, in
-- ascending order of the time of the last access and, where that is equal, of the access count.
pub find_eviction_candidates_lem :
    (p : PolicyEngine) (b count : ℕ)
    → (es : HashMap PageMeta) × (find_eviction_candidates p b count
        ≡ map (λ e. e.0) (take count es))
      × IsOrdered es
      × Perm es (keep (due b) p.pages)
unfolding find_eviction_candidates
find_eviction_candidates_lem p b count = (
  sort_by_key (evictables p b),
  refl,
  IsSorted-IsOrdered (sort_by_key (evictables p b)) (sort_by_key-IsSorted (evictables p b)),
  subst (Perm (sort_by_key (evictables p b))) (evictables-due b p.pages)
      (sort_by_key-perm (evictables p b)),
)
