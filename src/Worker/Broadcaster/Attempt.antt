-- ===== src/Worker/Broadcaster/Attempt.antt =====
-- worker/broadcaster.py: what one delivery takes from outside, its time included, and the plain
-- tests on it. What other processes do during the waits of a delivery are functions.
use alert_bot_project.Common.{
  ℕ, ◌*◌, ℤ, Text, Bool, false, ◌&&◌, ◌||◌, Option, none, some, List, leb, ltb, if◌then◌else◌,
}
use alert_bot_project.Redis.{Redis, Db}
use alert_bot_project.Worker.Contract.{second}
use alert_bot_project.Worker.Broadcaster.{Reason}

-- config.NIGHT_START_HOUR, NIGHT_END_HOUR, TELEGRAM_MAX_RETRY_SECONDS
pub record Config : Type 0 where
  pub night_start_hour : ℕ
  pub night_end_hour : ℕ
  pub telegram_max_retry_seconds : ℕ

-- What bot.send_message does: it returns, or raises one of these.
pub data Response : Type 0 where
  delivered : Response
  retry_after : ℕ → Response
  forbidden bad_request server_error api_error transport_error : Response

-- DeliveryOutcome.status
pub data Status : Type 0 where
  sent retry_later cancelled blocked_bot permanent : Status

pub record DeliveryOutcome : Type 0 where
  pub status : Status
  pub reason : Reason

-- A request to Telegram: the recipient, the text, and whether it comes without a sound.
pub record Post : Type 0 where
  pub chat_id : ℤ
  pub text : Text
  pub silent : Bool

-- Microseconds since midnight of a full hour.
abbrev pub hour : ℕ → ℕ
hour h = h * 3600 * second

-- _is_night at a local time of day in microseconds
unfoldable pub is_night : Config → ℕ → Bool
is_night c local =
    let start = hour c.night_start_hour in
    let finish = hour c.night_end_hour in
    if ltb finish start
    then leb start local || leb local finish
    else leb start local && leb local finish

-- _db_mute_active, for the `muted_until` of the user's row
unfoldable pub db_mute_active : ℕ → Option ℕ → Bool
db_mute_active now none = false
db_mute_active now (some until) = ltb now until

-- What one delivery meets on its way.
pub record Attempt (R : Redis) : Type 0 where
  -- the clock at the checks, and after the response of Telegram
  pub start : ℕ
  pub finish : ℕ
  -- the local time of day at the checks, and the mute of the user's row
  pub local : ℕ
  pub muted_until : Option ℕ
  -- the delays of the rate limiter's rounds
  pub lags : List ℕ
  -- what other processes do during the wait for a slot and during the request
  pub waiting : Db R → Db R
  pub sending : Db R → Db R
  -- reservation.guard (the renewal of the lease), at a time
  pub guard : Option (ℕ → Db R → Bool × Db R)
  pub response : Response
