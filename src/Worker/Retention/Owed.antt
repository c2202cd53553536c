-- ===== src/Worker/Retention/Owed.antt =====
-- worker/stream_retention.py: no entry that a group still owes is trimmed.
use alert_bot_project.Common.{
  ◌<◌, ◌≤◌, ◌≡◌, refl, dec_lt, Bool, false, ◌⊎◌, inl, inr, Option, none, some, List, [], ◌∷◌, All,
  arith,
}
use alert_bot_project.Worker.Retention.{
  StreamId, Group, before, candidate, lower, trim_floor, trim_acknowledged,
}

-- The order of the stream: by the milliseconds, then by the sequence number.
abbrev pub IsBefore : StreamId → StreamId → Type 0
IsBefore a b = (a.ms < b.ms) ⊎ ((a.ms ≡ b.ms) × (a.sequence < b.sequence))

abbrev pub IsFrom : StreamId → StreamId → Type 0
IsFrom a b = (a.ms < b.ms) ⊎ ((a.ms ≡ b.ms) × (a.sequence ≤ b.sequence))

-- XTRIM MINID keeps an entry from the floor on.
abbrev pub IsKept : StreamId → StreamId → Type 0
IsKept floor e = IsFrom floor e

-- An entry may be pending for the group, or it was not delivered to it yet.
abbrev pub IsOwed : Group → StreamId → Type 0
IsOwed g e = ((0 < g.pending_count) × IsFrom g.pending_min e) ⊎ IsBefore g.last_delivered e

-- The pending entries were delivered.
abbrev pub IsConsistent : Group → Type 0
IsConsistent g = 0 < g.pending_count → IsFrom g.pending_min g.last_delivered

before-IsFrom : (a b : StreamId) → before b a ≡ false → IsFrom a b
before-IsFrom a b h = elim (dec_lt a.ms b.ms) [
  | yes lt ↦ inl lt
  | no ge ↦ inr (ground arith, ground arith)
]

IsFrom-trans : (a b e : StreamId) → IsFrom a b → IsFrom b e → IsFrom a e
IsFrom-trans a b e (inl h) (inl k) = inl (omega arith)
IsFrom-trans a b e (inl h) (inr k) = inl (omega arith)
IsFrom-trans a b e (inr h) (inl k) = inl (omega arith)
IsFrom-trans a b e (inr h) (inr k) = inr (omega arith, omega arith)

owed-candidate : (g : Group) (e : StreamId) → IsConsistent g → IsOwed g e → IsFrom (candidate g) e
owed-candidate g e c (inl (some_pending, after)) = ground (arith, some_pending, after)
owed-candidate g e c (inr later) = elim (dec_lt 0 g.pending_count) [
  | yes p ↦ ground (arith, p, IsFrom-trans g.pending_min g.last_delivered e (c p) (weaken later))
  | no p ↦ ground (arith, p, weaken later)
]
  where
    weaken : IsBefore g.last_delivered e → IsFrom g.last_delivered e
    weaken (inl h) = inl h
    weaken (inr h) = inr (h.0, omega arith)

-- The floor lies before none of the candidates, nor of what was found before.
trim_floor-below :
    (floor : Option StreamId) (gs : List Group) (f : StreamId)
    → trim_floor floor gs ≡ some f
    → All (λ g. before (candidate g) f ≡ false) gs
      × ((a : StreamId) → floor ≡ some a → before a f ≡ false)
unfolding trim_floor
trim_floor-below floor [] f h = (tt, λ a e. ground (arith, h, e))
trim_floor-below floor (g ∷ gs) f h =
    let (others, next) =
      trim_floor-below (some (lower floor (candidate g))) gs f (ground (arith, h)) in
    let here = next (lower floor (candidate g)) refl in
    (
      (lowered floor (candidate g) f here, others),
      λ a e. lowered_floor floor (candidate g) a f here e,
    )
  where
    lowered :
        (o : Option StreamId) (c f : StreamId) → before (lower o c) f ≡ false → before c f ≡ false
    lowered none c f h = h
    lowered (some a) c f h = ground (arith, h)

    lowered_floor :
        (o : Option StreamId) (c a f : StreamId)
        → before (lower o c) f ≡ false
        → o ≡ some a
        → before a f ≡ false
    lowered_floor none c a f h e = absurd (ground (arith, e))
    lowered_floor (some b) c a f h e = ground (arith, h, e)

-- The script trims no entry that a group of the stream may still owe: with pending entries that were
-- all delivered, XTRIM keeps each entry that is pending for some group or was not delivered to it.
pub trim_acknowledged-IsKept :
    (exists : Bool) (groups : List Group) (floor : StreamId)
    → All IsConsistent groups
    → trim_acknowledged exists groups ≡ some floor
    → All (λ g. (e : StreamId) → IsOwed g e → IsKept floor e) groups
unfolding trim_acknowledged
trim_acknowledged-IsKept exists groups floor consistent h =
    both groups consistent (trim_floor-below none groups floor (ground (arith, h))).0
  where
    both :
        (gs : List Group)
        → All IsConsistent gs
        → All (λ g. before (candidate g) floor ≡ false) gs
        → All (λ g. (e : StreamId) → IsOwed g e → IsKept floor e) gs
    both [] c k = tt
    both (g ∷ gs) c k = (
      λ e owed.
          IsFrom-trans floor (candidate g) e (before-IsFrom floor (candidate g) k.0)
            (owed-candidate g e c.0 owed),
      both gs c.1 k.1,
    )
