-- ===== src/Daemon/Policy/Tiers.antt =====
-- Which tier the policy selects.
use distributed_uvm.Prelude.{
  Option, Option-cases, ◌≡◌, refl, true, false, ◌&&◌, none, some, List, [], ◌∷◌, ◌++◌, arith, keep,
  In, Every, ◌<◌, inl, inr, In-keep, keep-nil, List-cases, Every-In, sym, ap, ◌∙◌, subst,
}
use distributed_uvm.Common.Page.{Tier, local, compressed, cxl, rdma, gpu, tier_eq}
use distributed_uvm.Common.Page.Laws.{tier_eq→eq, tier_eq_refl}
use distributed_uvm.Daemon.Policy.{
  BackendCapacity, has_capacity, first_tier, tier_preference, select_tier_lru, select_tier,
  PolicyEngine,
}

-- No backend of the tier has room.
abbrev IsFull : List BackendCapacity → Tier → Type 0
IsFull cs t = Every (λ c. (tier_eq c.tier t && has_capacity c) ≡ false) cs

-- Some backend of the tier has room.
abbrev HasRoom : List BackendCapacity → Tier → Type 0
HasRoom cs t = (c : BackendCapacity) × In c cs × (c.tier ≡ t) × (has_capacity c ≡ true)

-- The tier that the loop over `ts` stops at, with the tiers before it.
record Stopped (ts : List Tier) (cs : List BackendCapacity) (t : Tier) : Type 0 where
  before : List Tier
  after : List Tier
  order : ts ≡ before ++ (t ∷ after)
  full : Every (IsFull cs) before
  room : HasRoom cs t

abbrev with_room : Tier → List BackendCapacity → List BackendCapacity
with_room t cs = keep (λ c. tier_eq c.tier t && has_capacity c) cs

with_room-HasRoom :
    (t : Tier) (cs : List BackendCapacity) (c : BackendCapacity) (rest : List BackendCapacity)
    → with_room t cs ≡ c ∷ rest
    → HasRoom cs t
with_room-HasRoom t cs c rest e =
    let (i, q) =
      In-keep (λ (d : BackendCapacity). tier_eq d.tier t && has_capacity d) c cs
        (rw e (inl refl)) in
    (c, i, tier_eq→eq c.tier t (ground (arith, q)), ground (arith, q))

skip_full :
    (u : Tier) (ts : List Tier) (cs : List BackendCapacity)
    → with_room u cs ≡ []
    → first_tier (u ∷ ts) cs ≡ first_tier ts cs
unfolding first_tier
skip_full u ts cs e = ground (arith, e)

stop_at :
    (u : Tier) (ts : List Tier) (cs : List BackendCapacity) (c : BackendCapacity)
    (rest : List BackendCapacity)
    → with_room u cs ≡ c ∷ rest
    → first_tier (u ∷ ts) cs ≡ some u
unfolding first_tier
stop_at u ts cs c rest e = ground (arith, e)

first_tier-Stopped :
    (ts : List Tier) (cs : List BackendCapacity) (t : Tier)
    → first_tier ts cs ≡ some t
    → Stopped ts cs t
first_tier-Stopped [] cs t h = unfold first_tier in absurd (ground (arith, h))
first_tier-Stopped (u ∷ ts) cs t h = elim (List-cases (with_room u cs)) [
  | inl e ↦
      let s = first_tier-Stopped ts cs t (sym (skip_full u ts cs e) ∙ h) in
      record {
        before = u ∷ s.before;
        after = s.after;
        order = ap (λ l. u ∷ l) s.order;
        full = (keep-nil _ cs e, s.full);
        room = s.room;
      }
  | inr (c, rest, e) ↦
      let same : u ≡ t = ground (arith, stop_at u ts cs c rest e, h) in
      record {
        before = [];
        after = ts;
        order = ap (λ (x : Tier). x ∷ ts) same;
        full = tt;
        room = subst (HasRoom cs) same (with_room-HasRoom u cs c rest e);
      }
]

first_tier-none :
    (ts : List Tier) (cs : List BackendCapacity) → first_tier ts cs ≡ none → Every (IsFull cs) ts
first_tier-none [] cs h = tt
first_tier-none (u ∷ ts) cs h = elim (List-cases (with_room u cs)) [
  | inl e ↦ (keep-nil _ cs e, first_tier-none ts cs (sym (skip_full u ts cs e) ∙ h))
  | inr (c, rest, e) ↦ absurd (ground (arith, stop_at u ts cs c rest e, h))
]

select_tier_first :
    (p : PolicyEngine) (cs : List BackendCapacity) (t : Tier)
    → select_tier p cs ≡ some t
    → (before : List Tier) × (after : List Tier) × (tier_preference ≡ before ++ (t ∷ after))
      × Every (IsFull cs) before
      × HasRoom cs t
unfolding select_tier select_tier_lru
select_tier_first p cs t h =
    let s = first_tier-Stopped tier_preference cs t (ground (arith, h)) in
    (s.before, s.after, s.order, s.full, s.room)

tier_listed :
    (cs : List BackendCapacity) (t : Tier) → Every (IsFull cs) tier_preference → IsFull cs t
tier_listed cs local e = e.1.1.1.1.0
tier_listed cs compressed e = e.0
tier_listed cs cxl e = e.1.0
tier_listed cs rdma e = e.1.1.0
tier_listed cs gpu e = e.1.1.1.0

select_tier-none :
    (p : PolicyEngine) (cs : List BackendCapacity) (c : BackendCapacity)
    → select_tier p cs ≡ none
    → In c cs
    → has_capacity c ≡ false
unfolding select_tier select_tier_lru
select_tier-none p cs c h i =
    let full = tier_listed cs c.tier (first_tier-none tier_preference cs (ground (arith, h))) in
    let no_room : (tier_eq c.tier c.tier && has_capacity c) ≡ false = Every-In _ c cs full i in
    ground (arith, no_room, tier_eq_refl c.tier)

-- A backend that is healthy and has a page left.
abbrev pub IsOpen : BackendCapacity → Type 0
IsOpen c = (c.healthy ≡ true) × (c.used_pages < c.total_pages)

has_capacity-IsOpen : (c : BackendCapacity) → has_capacity c ≡ true → IsOpen c
unfolding has_capacity
has_capacity-IsOpen c h = (ground (arith, h), ground (arith, h))

has_capacity-closed : (c : BackendCapacity) → has_capacity c ≡ false → ¬ IsOpen c
unfolding has_capacity
has_capacity-closed c h (healthy, room) = absurd (ground (arith, h, healthy, room))

IsFull-closed :
    (cs : List BackendCapacity) (t : Tier) (c : BackendCapacity)
    → IsFull cs t
    → In c cs
    → c.tier ≡ t
    → ¬ IsOpen c
IsFull-closed cs t c full i e =
    let no_room : (tier_eq c.tier t && has_capacity c) ≡ false = Every-In _ c cs full i in
    let same : tier_eq c.tier t ≡ true = rw e (tier_eq_refl t) in
    has_capacity-closed c (ground (arith, no_room, same))

-- What a choice of a tier means for the backends at hand.
abbrev pub IsChoice : List BackendCapacity → Option Tier → Type 0
IsChoice cs (some t) =
    (before : List Tier) × (after : List Tier) × (compressed ∷ cxl ∷ rdma ∷ gpu ∷ local ∷ []
      ≡ before ++ (t ∷ after))
    × ((c : BackendCapacity) → In c cs → In c.tier before → ¬ IsOpen c)
    × ((c : BackendCapacity) × In c cs × (c.tier ≡ t) × IsOpen c)
IsChoice cs none = (c : BackendCapacity) → In c cs → ¬ IsOpen c

-- Where select_tier returns a tier, some backend of that tier in the list is healthy and has fewer
-- pages used than in all, and none is so in a tier before it in the order compressed, CXL, RDMA,
-- GPU, local; where it returns none, no backend in the list is healthy with a page unused.
pub select_tier-IsChoice :
    (p : PolicyEngine) (cs : List BackendCapacity) → IsChoice cs (select_tier p cs)
select_tier-IsChoice p cs = elim (Option-cases (select_tier p cs)) [
  | inl h ↦ subst (IsChoice cs) (sym h) (λ c i. has_capacity-closed c (select_tier-none p cs c h i))
  | inr (t, h) ↦
      let (before, after, order, full, (c, i, e, room)) = select_tier_first p cs t h in
      let closed : (d : BackendCapacity) → In d cs → In d.tier before → ¬ IsOpen d =
        λ d j k. IsFull-closed cs d.tier d (Every-In _ d.tier before full k) j refl in
      subst (IsChoice cs) (sym h)
        (before, after, order, closed, (c, i, e, has_capacity-IsOpen c room))
]
