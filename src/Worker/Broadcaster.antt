-- ===== src/Worker/Broadcaster.antt =====
-- worker/broadcaster.py: what one step of a delivery does to Redis. A store is the `Db` of the
-- interface, `now` the clock in milliseconds. The children hold the producers and the consumer.
pub mod Enqueue
pub mod Mature
pub mod Attempt
pub mod Verdict
pub mod Admit
pub mod Deliver
pub mod DeadLetter
pub mod Owned
pub mod Recipient
use alert_bot_project.Common.{
  ℕ, ◌+◌, ◌*◌, ◌/◌, ℤ, pos, str, Text, codes, Bool, true, false, not, ◌&&◌, ◌||◌, Option, none,
  some, leb, ltb, if◌then◌else◌,
}
use alert_bot_project.Redis.{
  MessageId, Value, word, num, count_of, Stream, delivery_stream, delivery_dlq, dead, unreadable,
  Redis, Db, stage, retry, deleted, generation,
}
use alert_bot_project.Shared.Json.{Json, null, bool, int, float, obj, Members, find_last}
use alert_bot_project.Shared.Json
use alert_bot_project.Shared.Platform.{Platform}
use alert_bot_project.Services.Privacy.{exists, generation_of, same_text, zero_generation}

-- The reasons of DeliveryOutcome and of the dead letters.
pub data Reason : Type 0 where
  none_given rate_limit_timeout ownership_lost stale_delivery privacy_deleted : Reason
  telegram_429 telegram_forbidden telegram_bad_request telegram_5xx telegram_api : Reason
  telegram_transport : Reason
  invalid_delivery_contract previous_stage_failed recipient_blocked : Reason

unfoldable pub reason_text : Reason → Text
reason_text none_given = codes ""
reason_text rate_limit_timeout = codes "rate_limit_timeout"
reason_text ownership_lost = codes "ownership_lost"
reason_text stale_delivery = codes "stale_delivery"
reason_text privacy_deleted = codes "privacy_deleted"
reason_text telegram_429 = codes "telegram_429"
reason_text telegram_forbidden = codes "telegram_forbidden"
reason_text telegram_bad_request = codes "telegram_bad_request"
reason_text telegram_5xx = codes "telegram_5xx"
reason_text telegram_api = codes "telegram_api"
reason_text telegram_transport = codes "telegram_transport"
reason_text invalid_delivery_contract = codes "invalid_delivery_contract"
reason_text previous_stage_failed = codes "previous stage failed"
reason_text recipient_blocked = codes "recipient_blocked"

-- 604800 s, 86400 s
abbrev pub week_ms : ℕ
week_ms = 604800000

abbrev pub day_ms : ℕ
day_ms = 86400000

-- What a script reads as the recipient of a decoded payload: nothing, an id, or a value that Lua
-- refuses to append to a text, which ends the script with an error.
pub data LuaId : Type 0 where
  absent : LuaId
  id : Text → LuaId
  fault : LuaId

module _ (P : Platform) where
  open P use {decode, format_0f, tostring, loads, py_str}

  -- job.chat_id, and string.format('%.0f', job.chat_id) of a number
  unfoldable pub lua_value : Option Json → LuaId
  lua_value none = absent
  lua_value (some (bool false)) = absent
  lua_value (some (Json.str t)) = id t
  lua_value (some (int n)) = id (format_0f (int n))
  lua_value (some (float t)) = id (format_0f (float t))
  lua_value (some _) = fault

  unfoldable pub lua_object : Option Json → LuaId
  unfolding lua_value
  lua_object (some (obj ms)) = lua_value (find_last (codes "chat_id") ms)
  lua_object _ = absent

  -- the recipient of a payload: pcall(cjson.decode, element) and the tests on its result
  unfoldable pub lua_id : Text → LuaId
  unfolding lua_object
  lua_id payload = lua_object (decode payload)

  unfoldable pub lua_generation_of : Option Json → Text
  lua_generation_of none = zero_generation
  lua_generation_of (some (bool false)) = zero_generation
  lua_generation_of (some (Json.str t)) = t
  lua_generation_of (some v) = tostring v

  -- tostring(job.recipient_generation or '0')
  unfoldable pub lua_generation : Text → Text
  unfolding lua_generation_of
  lua_generation payload = elim (decode payload) [
    | some v ↦ elim v [
      | obj ms ↦ lua_generation_of (find_last (codes "recipient_generation") ms)
      | _ ↦ zero_generation
    ]
    | none ↦ zero_generation
  ]

  -- The f-string text of a JSON value.
  shown : Json → Text
  shown (Json.str t) = t
  shown (int n) = str n
  shown null = codes "None"
  shown v = py_str v

  both_shown : Option Json → Option Json → Option (Text × Text)
  both_shown (some e) (some s) = some (shown e, shown s)
  both_shown _ _ = none

  -- delivery:stage:{job['event_id']}:{job['step']} of a payload, or no key
  unfoldable pub stage_of : Text → Option (Text × Text)
  unfolding shown both_shown
  stage_of payload = elim (loads payload) [
    | some v ↦ elim v [
      | obj ms ↦ both_shown (find_last (codes "event_id") ms) (find_last (codes "step") ms)
      | _ ↦ none
    ]
    | none ↦ none
  ]

module _ (R : Redis) where
  open R use {Keys, get, set_px, del, incr, expire, xack, xadd}

  -- redis.xack(delivery_stream_name, delivery_group_name, message_id)
  abbrev pub ack : MessageId → Db R → Db R
  ack m s = record s { streams = xack delivery_stream m s.streams }

  abbrev pub set_stage : ℕ → Text → Text → Text → Db R → Db R
  set_stage now event step word' s = record s {
    keys = set_px now (stage event step) (word word') week_ms s.keys;
  }

  -- _skip_stage
  unfoldable pub skip_stage : ℕ → MessageId → Text → ℕ → Db R → Db R
  skip_stage now m event step s = ack m (set_stage now event (str (pos step)) (codes "skipped") s)

  -- the test on the fence and on the generation that several scripts make
  unfoldable pub allowed : ℕ → Text → Text → Keys → Bool
  allowed now chat job_generation s =
      not (exists (get now s (deleted chat)))
      && same_text (generation_of (get now s (generation chat))) job_generation

  module _ (P : Platform) where
    -- the end of STORE_DLQ_LUA
    unfoldable pub settle_dlq : MessageId → Db R → Db R
    settle_dlq m s = let s' = ack m s in record s' { keys = del (retry m) s'.keys }

    unfoldable pub mark_failed : ℕ → Option (Text × Text) → Db R → Db R
    mark_failed now none s = s
    mark_failed now (some (event, step)) s = set_stage now event step (codes "failed") s

    -- STORE_DLQ_LUA, through _move_to_dlq. The flag is false if the script ends with an error, and
    -- then nothing has changed.
    unfoldable pub move_to_dlq :
        ℕ → MessageId → Text → Reason → Option (Text × Text) → Db R → Bool × Db R
    unfolding settle_dlq mark_failed
    move_to_dlq now m payload reason stage_key s =
        let letter = dead payload (reason_text reason) m in
        let bare = unreadable (reason_text reason) m in
        elim (lua_id P payload) [
          | id chat ↦ (
            true,
            settle_dlq m (
                if allowed now chat (lua_generation P payload) s.keys
                then mark_failed now stage_key
                    (record s { streams = xadd delivery_dlq letter s.streams })
                else s),
          )
          | absent ↦ (true, settle_dlq m (record s { streams = xadd delivery_dlq bare s.streams }))
          | fault ↦ (false, s)
        ]

    -- redis.incr and redis.expire of the retry counter
    unfoldable pub count_attempt : ℕ → MessageId → Db R → Db R
    count_attempt now m s = record s {
      keys = expire now (retry m) day_ms (incr now (retry m) s.keys);
    }

    -- _finish_failed_job
    unfoldable pub finish_failed_job : ℕ → MessageId → Text → Reason → Bool → Db R → Bool × Db R
    unfolding count_attempt
    finish_failed_job now m payload reason permanent s =
        let s' = if permanent then s else count_attempt now m s in
        let attempts =
          if permanent then 5 else count_of (get now (incr now (retry m) s.keys) (retry m)) in
        let moved = move_to_dlq now m payload reason (stage_of P payload) s' in
        if ltb attempts 5 then (true, s') else moved
