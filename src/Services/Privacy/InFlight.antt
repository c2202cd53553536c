-- ===== src/Services/Privacy/InFlight.antt =====
-- The count of deliveries in flight is the number of open reservations.
use alert_bot_project.Common.{
  ℕ, ◌+◌, ◌-◌, ◌≤◌, ◌<◌, Text, ◌≡◌, refl, none, some, List, [], ◌∷◌, ltb, ◌==◌, if◌then◌else◌,
  arith, dec_lt,
}
use mathlib.Core.Logic.{if_pos}
use alert_bot_project.Redis.{Key-discrete, Redis, num, increased, count_of, inflight}
use alert_bot_project.Services.Privacy.{begin_delivery, end_delivery}

-- What the workers do for one recipient, with the time: a begin with the generation of the job, or
-- the end of a delivery that was reserved.
pub data Slot : Type 0 where
  begin : ℕ → Text → Slot
  end : ℕ → Slot

abbrev pub time_of : Slot → ℕ
time_of (begin t _) = t
time_of (end t) = t

module _ (R : Redis) (id : Text) where
  open R use {Keys, get, get-incr, get-expire, get-del, get-decr, incr, expire}

  -- The keys, and the number of reservations that are open; an end without one does not happen.
  pub record Flight : Type 0 where
    pub keys : Keys
    pub open_slots : ℕ
    -- the time of the last begin that was granted
    pub last : ℕ

  unfoldable pub step : Slot → Flight → Flight
  step (begin t g) f =
      let (granted, s) = begin_delivery R t id g f.keys in
      if granted
      then record { keys = s; open_slots = f.open_slots + 1; last = t }
      else record f { keys = s }
  step (end t) f =
      if f.open_slots == 0
      then f
      else record f { keys = end_delivery R t id f.keys; open_slots = f.open_slots - 1 }

  unfoldable pub fly : List Slot → Flight → Flight
  unfolding step
  fly [] f = f
  fly (e ∷ es) f = fly es (step e f)

  -- From `now` on: no reservation and no key, or the key counts them until it expires.
  record Counts (now : ℕ) (f : Flight) : Type 0 where
    closed : (u : ℕ) → now ≤ u → f.open_slots ≡ 0 → get u f.keys (inflight id) ≡ none
    counted :
        (u : ℕ)
        → now ≤ u
        → u < f.last + 600000
        → 0 < f.open_slots
        → get u f.keys (inflight id) ≡ some (num f.open_slots)

  -- The laws at the count.
  begin_law :
      (t u : ℕ) (s : Keys)
      → t ≤ u
      → (get u (expire t (inflight id) 600000 (incr t (inflight id) s)) (inflight id)
          ≡ (if ltb u (t + 600000) then get t (incr t (inflight id) s) (inflight id) else none))
        × (get t (incr t (inflight id) s) (inflight id)
            ≡ increased (get t s (inflight id)) (get t s (inflight id)))
  begin_law t u s h = (
    rw (
      get-expire t (incr t (inflight id) s) (inflight id) (inflight id) 600000 u h,
      if_pos (Key-discrete (inflight id) (inflight id)) refl,
    ),
    rw (
      get-incr t t s (inflight id) (inflight id) (omega arith),
      if_pos (Key-discrete (inflight id) (inflight id)) refl,
    ),
  )

  begin-Counts :
      (now t : ℕ) (g : Text) (f : Flight)
      → now ≤ t
      → (0 < f.open_slots → t < f.last + 600000)
      → Counts now f
      → Counts t (step (begin t g) f)
  unfolding step begin_delivery
  begin-Counts now t g f h o c = record {
    closed = λ u hu z. ground (arith, c.closed u);
    counted =
        λ u hu lt p. ground (arith, c.counted t, c.counted u, c.closed t, begin_law t u f.keys);
  }

  end-Counts :
      (now t : ℕ) (f : Flight)
      → now ≤ t
      → (0 < f.open_slots → t < f.last + 600000)
      → Counts now f
      → Counts t (step (end t) f)
  unfolding step end_delivery
  end-Counts now t f h o c = record {
    closed = λ u hu z.
        ground (arith, c.closed u, c.counted t, get-del u f.keys (inflight id) (inflight id));
    counted = λ u hu lt p.
        ground (arith, c.counted t, c.counted u, get-decr t u f.keys (inflight id) (inflight id));
  }

  step-Counts :
      (e : Slot) (now : ℕ) (f : Flight)
      → now ≤ time_of e
      → (0 < f.open_slots → time_of e < f.last + 600000)
      → Counts now f
      → Counts (time_of e) (step e f)
  step-Counts (begin t g) now f = begin-Counts now t g f
  step-Counts (end t) now f = end-Counts now t f

  -- The events come in the order of the clock, and none comes 600 s after the last begin that was
  -- granted while a reservation is open: the send of a delivery takes less.
  abbrev pub InWindow : ℕ → List Slot → Flight → Type 0
  InWindow now [] f = Unit
  InWindow now (e ∷ es) f =
      (now ≤ time_of e)
      × (0 < f.open_slots → time_of e < f.last + 600000)
      × InWindow (time_of e) es (step e f)

  abbrev pub end_of : ℕ → List Slot → ℕ
  end_of now [] = now
  end_of now (e ∷ es) = end_of (time_of e) es

  fly-Counts :
      (es : List Slot) (now : ℕ) (f : Flight)
      → InWindow now es f
      → Counts now f
      → Counts (end_of now es) (fly es f)
  unfolding fly
  fly-Counts [] now f w c = c
  fly-Counts (e ∷ es) now f w c =
      fly-Counts es (time_of e) (step e f) w.2 (step-Counts e now f w.0 w.1 c)

  -- A recipient with no reservation and no counter: after any begins and ends of deliveries in the
  -- order of the clock and within the counter's lifetime, the counter in Redis is the number of
  -- deliveries that were granted and have not ended.
  pub inflight-eq-open_slots :
      (es : List Slot) (now u : ℕ) (f : Flight)
      → f.open_slots ≡ 0
      → ((v : ℕ) → get v f.keys (inflight id) ≡ none)
      → InWindow now es f
      → end_of now es ≤ u
      → (0 < (fly es f).open_slots → u < (fly es f).last + 600000)
      → count_of (get u (fly es f).keys (inflight id)) ≡ (fly es f).open_slots
  inflight-eq-open_slots es now u f z e w h o =
      let c =
        fly-Counts es now f w
          (record { closed = λ v _ _. e v; counted = λ v _ _ p. absurd (omega arith) }) in
      elim (dec_lt 0 (fly es f).open_slots) [
        | yes p ↦ rw (c.counted u h (o p) p)
        | no n ↦ rw (c.closed u h (omega arith)) (omega arith)
      ]
