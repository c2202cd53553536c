-- ===== src/Worker/Broadcaster/Admit.antt =====
-- worker/broadcaster.py, `send_single_message` up to the request: the rate slot, the guard of the
-- lease, the content and the reservation, in this order.
use alert_bot_project.Common.{
  ℕ, ◌+◌, ◌*◌, str, Text, Bool, true, Option, none, some, ltb, if◌then◌else◌,
}
use alert_bot_project.Redis.{Redis, Db}
use alert_bot_project.Shared.Platform.{instant}
use alert_bot_project.Services.Privacy.{begin_delivery}
use alert_bot_project.Worker.RateLimit.{acquire, pause}
use alert_bot_project.Worker.Contract.{DeliveryJob, delivery_content}
use alert_bot_project.Worker.Broadcaster.{
  Reason, none_given, rate_limit_timeout, ownership_lost, stale_delivery, privacy_deleted,
  telegram_429, telegram_forbidden, telegram_bad_request, telegram_5xx, telegram_api,
  telegram_transport,
}
use alert_bot_project.Worker.Broadcaster.Attempt.{
  Config, Response, delivered, retry_after, forbidden, bad_request, server_error, api_error,
  transport_error, Status, sent, retry_later, cancelled, blocked_bot, permanent, DeliveryOutcome,
  Attempt,
}

-- send_single_message up to the request: the outcome of a delivery that is not sent, or the
-- content and the time of the request
pub data Admission : Type 0 where
  declined : DeliveryOutcome → Admission
  admitted : Text → Bool → ℕ → Admission

abbrev declines : Status → Reason → Admission
declines status reason = declined (record { status = status; reason = reason })

-- the outcome of the request
unfoldable pub outcome_of : Response → DeliveryOutcome
outcome_of delivered = record { status = sent; reason = none_given }
outcome_of (retry_after n) = record { status = retry_later; reason = telegram_429 }
outcome_of forbidden = record { status = blocked_bot; reason = telegram_forbidden }
outcome_of bad_request = record { status = permanent; reason = telegram_bad_request }
outcome_of server_error = record { status = retry_later; reason = telegram_5xx }
outcome_of api_error = record { status = retry_later; reason = telegram_api }
outcome_of transport_error = record { status = retry_later; reason = telegram_transport }

module _ (R : Redis) where
  open R use {Keys, get, set, set_px, del, zadd}

  unfoldable pub run_guard : Option (ℕ → Db R → Bool × Db R) → ℕ → Db R → Bool × Db R
  run_guard none t s = (true, s)
  run_guard (some g) t s = g t s

  -- delivery_content and BEGIN_DELIVERY_LUA at the time of the slot
  unfoldable pub reserve : ℕ → DeliveryJob → Db R → Admission × Db R
  reserve t j s = elim (delivery_content (instant t) j j.text j.silent) [
    | none ↦ (declines cancelled stale_delivery, s)
    | some (text, silent) ↦
        let (reserved, keys') = begin_delivery R t (str j.chat_id) j.recipient_generation s.keys in
        if reserved
        then (admitted text silent t, record s { keys = keys' })
        else (declines cancelled privacy_deleted, record s { keys = keys' })
  ]

  -- the rate slot, the guard, the content and the reservation
  unfoldable pub admit : Config → Attempt R → DeliveryJob → Db R → Admission × Db R
  unfolding run_guard reserve
  admit c a j s =
      let deadline = a.start + c.telegram_max_retry_seconds * 1000 in
      let (slot, keys') = acquire R a.lags a.start deadline (str j.chat_id) (ltb 1 j.step) s.keys in
      let waited = a.waiting (record s { keys = keys' }) in
      elim slot [
        | none ↦ (declines retry_later rate_limit_timeout, waited)
        | some t ↦
            let (owned, s') = run_guard a.guard t waited in
            let rest = reserve t j s' in
            if owned then rest else (declines retry_later ownership_lost, s')
      ]

  -- rate_limiter.pause(exc.retry_after)
  unfoldable pub after_response : ℕ → Response → Db R → Db R
  after_response now (retry_after n) s = record s { keys = pause R now n s.keys }
  after_response now _ s = s
