-- ===== src/Worker/RateLimit.antt =====
-- worker/rate_limit.py: the reservations of one Telegram bot token, shared through Redis. Each Lua
-- script is a function of the clock and the keys; a time is in milliseconds.
pub mod Spacing
pub mod Pause
pub mod Progress
use alert_bot_project.Common.{
  ℕ, zero, suc, ◌+◌, ◌-◌, ◌*◌, ◌/◌, max, min, Text, codes, Bool, true, false, Option, none, some,
  List, [], ◌∷◌, ltb, leb, ◌==◌, if◌then◌else◌,
}
use alert_bot_project.Redis.{Redis, num, count_of, rate_global, rate_repeat, rate_chat}

-- redis.call('TIME') in milliseconds
abbrev pub now_ms : ℕ → ℕ → ℕ
now_ms seconds micros = seconds * 1000 + micros / 1000

-- asyncio.sleep(min(max(wait_ms / 1000, 0.01), 1))
abbrev pub poll_delay : ℕ → ℕ
poll_delay wait = min (max wait 10) 1000

module _ (R : Redis) where
  open R use {Keys, get, set_px}

  -- ACQUIRE_SLOT_LUA: the milliseconds to wait, 0 if the slot is taken
  unfoldable pub acquire_slot : ℕ → Text → Bool → Keys → ℕ × Keys
  acquire_slot now chat again s =
      let global_at = count_of (get now s rate_global) in
      let chat_at = count_of (get now s (rate_chat chat)) in
      let repeat_at = if again then count_of (get now s rate_repeat) else 0 in
      let wait = max (global_at - now) (max (chat_at - now) (repeat_at - now)) in
      let s1 = set_px now rate_global (num (now + 50)) 2000 s in
      let s2 = set_px now (rate_chat chat) (num (now + 1000)) 2000 s1 in
      let s3 = set_px now rate_repeat (num (now + 200)) 2000 s2 in
      if ltb 0 wait then (wait, s) else (0, if again then s3 else s2)

  -- PAUSE_GLOBAL_LUA
  unfoldable pub pause_global : ℕ → ℕ → Keys → Keys
  pause_global now ms s =
      let until_ms = now + ms in
      let current = count_of (get now s rate_global) in
      if ltb current until_ms then set_px now rate_global (num until_ms) (ms + 2000) s else s

  -- TelegramRateLimiter.pause
  unfoldable pub pause : ℕ → ℕ → Keys → Keys
  unfolding pause_global
  pause now seconds s = pause_global now (max 1000 (seconds * 1000)) s

  -- TelegramRateLimiter.acquire under the caller's timeout at `deadline`. Round i of the loop ends
  -- `lag` late; the list bounds the rounds. The result is the time of the grant, or none.
  unfoldable pub acquire : List ℕ → ℕ → ℕ → Text → Bool → Keys → Option ℕ × Keys
  acquire [] now deadline chat again s = (none, s)
  acquire (lag ∷ lags) now deadline chat again s =
      let (wait, s') = acquire_slot now chat again s in
      let next = now + poll_delay wait + lag in
      let rest = acquire lags next deadline chat again s' in
      if wait == 0 then (some now, s') else if leb deadline next then (none, s') else rest
