-- ===== src/Worker/RateLimit/Spacing.antt =====
-- The distance in time between the grants of any workers, and after a pause.
use alert_bot_project.Common.{
  ℕ, ◌+◌, ◌*◌, ◌≤◌, ◌<◌, max, Text, ◌≡◌, refl, ap, sym, ◌⊎◌, inl, inr, Bool, true, none, some, List,
  [], ◌∷◌, All, ite, ◌++◌, ltb, ◌==◌, if◌then◌else◌, arith, Bool-cases, dec_lt, All-append, All-map,
  All-both, All-of,
}
use alert_bot_project.Redis.{
  Key, Key-discrete, Redis, num, count_of, rate_global, rate_repeat, rate_chat,
}
use alert_bot_project.Worker.RateLimit.{acquire_slot, pause}

-- What reaches the limiter from the workers, in the order in which Redis runs it.
pub data Call : Type 0 where
  slot : ℕ → Text → Bool → Call
  hold : ℕ → ℕ → Call

pub record Grant : Type 0 where
  pub time : ℕ
  pub chat : Text
  pub again : Bool

abbrev pub time_of : Call → ℕ
time_of (slot t _ _) = t
time_of (hold t _) = t

-- The calls come in the order of the clock.
abbrev pub InOrder : ℕ → List Call → Type 0
InOrder now [] = Unit
InOrder now (c ∷ cs) = (now ≤ time_of c) × InOrder (time_of c) cs

-- The keys at which a slot of this chat waits.
abbrev pub Waits : Key → Text → Bool → Type 0
Waits k chat again = (k ≡ rate_global) ⊎ (k ≡ rate_chat chat) ⊎ ((k ≡ rate_repeat) × (again ≡ true))

module _ (R : Redis) where
  open R use {Keys, get, set_px, get-set_px}

  -- From `now` on and before `limit`, the key holds a time at or after `limit`.
  abbrev pub Blocked : Key → Keys → ℕ → ℕ → Type 0
  Blocked k s now limit = (u : ℕ) → now ≤ u → u < limit → limit ≤ count_of (get u s k)

  slot_refused :
      (k : Key) (s : Keys) (now limit t : ℕ) (chat : Text) (again : Bool)
      → Blocked k s now limit
      → now ≤ t
      → t < limit
      → Waits k chat again
      → (0 < (acquire_slot R t chat again s).0) × ((acquire_slot R t chat again s).1 ≡ s)
  unfolding acquire_slot
  slot_refused k s now limit t chat again b h lt w = ground (arith, b t)

  -- The laws at the three keys that a taken slot sets.
  pub slot_laws :
      (t : ℕ) (chat : Text) (s : Keys) (u : ℕ) (k : Key)
      → let s1 = set_px t rate_global (num (t + 50)) 2000 s in
        let s2 = set_px t (rate_chat chat) (num (t + 1000)) 2000 s1 in
        (get u s1 k
          ≡ ite
              (Key-discrete rate_global k)
              (if ltb u (t + 2000) then some (num (t + 50)) else none)
              (get u s k))
        × (get u s2 k
            ≡ ite
                (Key-discrete (rate_chat chat) k)
                (if ltb u (t + 2000) then some (num (t + 1000)) else none)
                (get u s1 k))
        × (get u (set_px t rate_repeat (num (t + 200)) 2000 s2) k
            ≡ ite
                (Key-discrete rate_repeat k)
                (if ltb u (t + 2000) then some (num (t + 200)) else none)
                (get u s2 k))
  slot_laws t chat s u k =
      (get-set_px _ _ _ _ _ _ _, get-set_px _ _ _ _ _ _ _, get-set_px _ _ _ _ _ _ _)

  -- A call leaves a blocked key blocked, whoever makes it.
  slot-Blocked :
      (k : Key) (s : Keys) (now limit t : ℕ) (chat : Text) (again : Bool)
      → Blocked k s now limit
      → now ≤ t
      → Blocked k (acquire_slot R t chat again s).1 t limit
  unfolding acquire_slot
  slot-Blocked k s now limit t chat again b h u hu lt =
      ground (arith, b t, b u, slot_laws t chat s u k)

  hold-Blocked :
      (k : Key) (s : Keys) (now limit t seconds : ℕ)
      → Blocked k s now limit
      → now ≤ t
      → Blocked k (pause R t seconds s) t limit
  unfolding pause
  hold-Blocked k s now limit t seconds b h u hu lt = ground (
    arith,
    b t,
    b u,
    get-set_px t u s rate_global k (num (t + max 1000 (seconds * 1000)))
        (max 1000 (seconds * 1000) + 2000),
  )

  unfoldable pub apply : Call → Keys → List Grant × Keys
  apply (slot t chat again) s =
      let (wait, s') = acquire_slot R t chat again s in
      (if wait == 0 then record { time = t; chat = chat; again = again } ∷ [] else [], s')
  apply (hold t seconds) s = ([], pause R t seconds s)

  -- The grants among the calls, in their order.
  unfoldable pub grants : List Call → Keys → List Grant
  unfolding apply
  grants [] s = []
  grants (c ∷ cs) s = let (g, s') = apply c s in g ++ grants cs s'

  -- A grant that had to wait at the key comes at `limit` or later.
  abbrev pub IsLate : Key → ℕ → Grant → Type 0
  IsLate k limit g = Waits k g.chat g.again → limit ≤ g.time

  slot-IsLate :
      (k : Key) (s : Keys) (now limit t : ℕ) (chat : Text) (again : Bool)
      → Blocked k s now limit
      → now ≤ t
      → All (IsLate k limit) (apply (slot t chat again) s).0
  unfolding apply
  slot-IsLate k s now limit t chat again b h =
      elim (Bool-cases ((acquire_slot R t chat again s).0 == 0)) [
        | inl e ↦ rw e (
          λ w. elim (dec_lt t limit) [
            | yes lt ↦ absurd (ground (arith, slot_refused k s now limit t chat again b h lt w))
            | no ge ↦ omega arith
          ],
          tt,
        )
        | inr e ↦ rw e tt
      ]

  pub grants-IsLate :
      (cs : List Call) (k : Key) (s : Keys) (now limit : ℕ)
      → Blocked k s now limit
      → InOrder now cs
      → All (IsLate k limit) (grants cs s)
  unfolding grants
  grants-IsLate [] k s now limit b o = tt
  grants-IsLate (slot t chat again ∷ cs) k s now limit b o =
      All-append (IsLate k limit) (apply (slot t chat again) s).0
        (grants cs (acquire_slot R t chat again s).1) (slot-IsLate k s now limit t chat again b o.0)
        (grants-IsLate cs k (acquire_slot R t chat again s).1 t limit
          (slot-Blocked k s now limit t chat again b o.0) o.1)
  grants-IsLate (hold t seconds ∷ cs) k s now limit b o =
      grants-IsLate cs k (pause R t seconds s) t limit (hold-Blocked k s now limit t seconds b o.0)
        o.1

  module _ (t : ℕ) (chat : Text) (again : Bool) (s : Keys) where
    after : Keys
    after = (acquire_slot R t chat again s).1

    -- What each of the keys holds once the slot is taken.
    taken_global : (acquire_slot R t chat again s).0 ≡ 0 → Blocked rate_global after t (t + 50)
    unfolding acquire_slot after
    taken_global e u h lt = ground (arith, slot_laws t chat s u rate_global)

    taken_chat : (acquire_slot R t chat again s).0 ≡ 0 → Blocked (rate_chat chat) after t (t + 1000)
    unfolding acquire_slot after
    taken_chat e u h lt = ground (arith, slot_laws t chat s u (rate_chat chat))

    taken_repeat :
        again ≡ true → (acquire_slot R t chat again s).0 ≡ 0 → Blocked rate_repeat after t (t + 200)
    unfolding acquire_slot after
    taken_repeat a e u h lt = ground (arith, slot_laws t chat s u rate_repeat)

    -- What a later grant owes to the slot taken at `t`.
    abbrev pub IsSpaced : Grant → Type 0
    IsSpaced g =
        (t + 50 ≤ g.time)
        × (g.chat ≡ chat → t + 1000 ≤ g.time)
        × (again ≡ true → g.again ≡ true → t + 200 ≤ g.time)

    later_repeat :
        (cs : List Call)
        → (acquire_slot R t chat again s).0 ≡ 0
        → InOrder t cs
        → All (λ g. again ≡ true → g.again ≡ true → t + 200 ≤ g.time) (grants cs after)
    later_repeat cs e o = elim (Bool-cases again) [
      | inl a ↦
          All-map _ _ (grants cs after) (λ g w _ h. w (inr (inr (refl, h))))
            (grants-IsLate cs rate_repeat after t (t + 200) (taken_repeat a e) o)
      | inr n ↦ All-of _ (grants cs after) (λ g a h. absurd (ground arith))
    ]

  -- After a slot that is taken at time t, whatever acquire and pause calls of any workers follow
  -- in the order of the clock: every later grant comes 50 ms after t or later, one of the same chat
  -- 1000 ms after t or later, and one of a repeat after a repeat 200 ms after t or later.
  pub acquire_slot-IsSpaced :
      (t : ℕ) (chat : Text) (again : Bool) (s : Keys) (cs : List Call)
      → (acquire_slot R t chat again s).0 ≡ 0
      → InOrder t cs
      → All (IsSpaced t chat again s) (grants cs (acquire_slot R t chat again s).1)
  unfolding after
  acquire_slot-IsSpaced t chat again s cs e o =
      All-map _ _ gs (λ g h. (h.0, h.1.0, h.1.1))
        (All-both _ _ gs
          (All-map _ _ gs (λ g w. w (inl refl))
            (grants-IsLate cs rate_global s' t (t + 50) (taken_global t chat again s e) o))
          (All-both _ _ gs
            (All-map _ _ gs (λ g w h. w (inr (inl (ap rate_chat (sym h)))))
              (grants-IsLate cs (rate_chat chat) s' t (t + 1000) (taken_chat t chat again s e) o))
            (later_repeat t chat again s cs e o)))
    where
      s' : Keys
      s' = (acquire_slot R t chat again s).1

      gs : List Grant
      gs = grants cs s'
