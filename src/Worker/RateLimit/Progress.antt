-- ===== src/Worker/RateLimit/Progress.antt =====
-- The waiting loop of the limiter ends with a grant.
use alert_bot_project.Common.{
  ℕ, ◌+◌, ◌-◌, ◌*◌, ◌≤◌, ◌<◌, max, Text, ◌≡◌, inl, inr, Bool, false, some, List, [], ◌∷◌, All,
  length, leb, ◌==◌, arith, Bool-cases,
}
use alert_bot_project.Redis.{Redis, count_of, rate_global, rate_repeat, rate_chat}
use alert_bot_project.Worker.RateLimit.{acquire_slot, acquire, poll_delay}

module _ (R : Redis) where
  open R use {Keys, get}

  -- No stamp that this chat waits for lies after `limit`.
  abbrev pub StampsUntil : ℕ → Text → ℕ → Keys → Type 0
  StampsUntil limit chat now s =
      (u : ℕ)
      → now ≤ u
      → (count_of (get u s rate_global) ≤ limit)
        × (count_of (get u s (rate_chat chat)) ≤ limit)
        × (count_of (get u s rate_repeat) ≤ limit)

  slot_refused_state :
      (now : ℕ) (chat : Text) (again : Bool) (s : Keys)
      → 0 < (acquire_slot R now chat again s).0
      → (acquire_slot R now chat again s).1 ≡ s
  unfolding acquire_slot
  slot_refused_state now chat again s h = ground arith

  slot-wait-le :
      (now limit : ℕ) (chat : Text) (again : Bool) (s : Keys)
      → StampsUntil limit chat now s
      → (acquire_slot R now chat again s).0 ≤ limit - now
  unfolding acquire_slot
  slot-wait-le now limit chat again s h = ground (arith, h now)

  -- The loop of a worker whose chat has no stamp after `limit`, where no other worker takes a slot
  -- in between: if it has rounds enough to reach `limit` at 10 ms each, each round ends at most
  -- `lag` late and the deadline lies beyond, it is granted a slot, at once or by limit + 10 + lag.
  pub acquire_granted :
      (lags : List ℕ) (now deadline limit lag : ℕ) (chat : Text) (again : Bool) (s : Keys)
      → StampsUntil limit chat now s
      → All (λ l. l ≤ lag) lags
      → 0 < length lags
      → limit + 10 ≤ now + 10 * length lags
      → limit + 10 + lag < deadline
      → (t : ℕ) × ((acquire R lags now deadline chat again s).0 ≡ some t)
        × (now ≤ t)
        × (t ≤ max now (limit + 10 + lag))
  unfolding acquire
  acquire_granted [] now deadline limit lag chat again s h a p e d = absurd (omega arith)
  acquire_granted (l ∷ lags) now deadline limit lag chat again s h a p e d =
      elim (Bool-cases (wait == 0)) [
        | inl taken ↦ (now, rw taken, omega arith, ground arith)
        | inr refused ↦
            let (t, granted, after, before) =
              acquire_granted lags next deadline limit lag chat again s (λ u hu. h u (ground arith))
                a.1 (ground (arith, bound)) (ground (arith, bound)) d in
            let early : leb deadline next ≡ false = ground (arith, bound) in
            (
              t,
              rw (refused, early, slot_refused_state now chat again s (ground arith)) granted,
              ground arith,
              ground (arith, bound),
            )
      ]
    where
      wait : ℕ
      wait = (acquire_slot R now chat again s).0

      next : ℕ
      next = now + poll_delay wait + l

      bound : wait ≤ limit - now
      bound = slot-wait-le now limit chat again s h
