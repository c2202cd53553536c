-- ===== src/Worker/Broadcaster/DeadLetter/Attempts.antt =====
-- worker/broadcaster.py, `_finish_failed_job`: the attempts of a delivery that keeps failing.
use alert_bot_project.Common.{
  ℕ, zero, suc, ◌+◌, ◌≤◌, ◌<◌, Text, Bool, false, Option, none, some, List, [], ◌∷◌,
}
use alert_bot_project.Redis.{MessageId, Value, num, Redis, Db}
use alert_bot_project.Shared.Platform.{Platform}
use alert_bot_project.Worker.Broadcaster.{Reason, day_ms, finish_failed_job}

-- What the retry counter reads after n attempts.
abbrev pub counter : ℕ → Option Value
counter zero = none
counter (suc n) = some (num (suc n))

-- The first of the times, or the last one.
abbrev pub next : List ℕ → ℕ → ℕ
next [] last = last
next (t ∷ ts) last = t

-- The times follow each other in less than a day, and `last` is the end.
abbrev pub AreClose : List ℕ → ℕ → Type 0
AreClose [] last = Unit
AreClose (t ∷ ts) last = (t ≤ next ts last) × (next ts last < t + day_ms) × AreClose ts last

module _ (P : Platform) (R : Redis) where
  open R use {
    Keys, get, set_px, del, incr, expire, entries, owner, xadd, xack, get-set_px, get-del, get-incr,
    get-expire, entries-xadd, entries-xack, owner-xadd, owner-xack,
  }

  module _ (payload : Text) (m : MessageId) (why : Reason) where
    -- A failure that is not permanent, at a time.
    abbrev pub failed_at : ℕ → Db R → Bool × Db R
    failed_at now = finish_failed_job R P now m payload why false

    -- The store after failures at these times.
    abbrev pub after_failures : List ℕ → Db R → Db R
    after_failures [] s = s
    after_failures (t ∷ ts) s = after_failures ts (failed_at t s).1
