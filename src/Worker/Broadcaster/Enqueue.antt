-- ===== src/Worker/Broadcaster/Enqueue.antt =====
-- worker/broadcaster.py, `enqueue_alert`: the three stages of an alert for one recipient.
pub mod Once
pub mod Accepted
use alert_bot_project.Common.{
  sorted, ℕ, ◌+◌, ◌*◌, ◌/◌, ℤ, pos, str, Text, codes, Bool, true, false, not, Option, none, some,
  List, [], ◌∷◌, ◌++◌, ltb, ◌==◌, if◌then◌else◌,
}
use alert_bot_project.Redis.{word, Redis, Db, delivery_stream, job, generation, enqueued}
use alert_bot_project.Shared.Constants.{
  source_replay_horizon_seconds, alert_delay_1, alert_delay_2, alert_first, alert_second,
  alert_third,
}
use alert_bot_project.Shared.Json.{Json, null, bool, int, arr, obj, Items, nil, cons, end, member}
use alert_bot_project.Shared.Platform.{Platform}
use alert_bot_project.Services.Privacy.{exists, generation_of}
use alert_bot_project.Worker.Contract.{identity, historical_notice}
use alert_bot_project.Worker.Broadcaster.{allowed}

-- The source post as the fan-out sees it: a set is the list of its elements.
pub record Alert : Type 0 where
  pub source_chat_id : ℤ
  pub source_message_id : ℕ
  pub source_timestamp : Option ℕ
  pub categories : List Text
  pub locations : List Text
  pub stale : Bool

-- sep.join(ts)
unfoldable pub join : Text → List Text → Text
join sep [] = []
join sep (t ∷ []) = t
join sep (t ∷ u ∷ ts) = t ++ (sep ++ join sep (u ∷ ts))

escape_char : ℕ → Text
escape_char c =
    if c == b'&'
    then codes "&amp;"
    else if c == b'<'
    then codes "&lt;"
    else if c == b'>'
    then codes "&gt;"
    else if c == 34
    then codes "&quot;"
    else if c == 39
    then codes "&#x27;"
    else c ∷ []

-- html.escape
unfoldable pub escape : Text → Text
unfolding escape_char
escape [] = []
escape (c ∷ cs) = escape_char c ++ escape cs

unfoldable pub texts : List Text → Items
texts [] = nil
texts (t ∷ ts) = cons (Json.str t) (texts ts)

unfoldable pub optional_text : (ℕ → Text) → Option ℕ → Json
optional_text f none = null
optional_text f (some at) = Json.str (f at)

abbrev pub horizon_ms : ℕ
horizon_ms = source_replay_horizon_seconds * 1000

module _ (P : Platform) where
  open P use {isoformat, kyiv_minute, dumps}

  time_line : Option ℕ → List Text
  time_line none = []
  time_line (some at) = (codes "Час отримання: " ++ (kyiv_minute at ++ codes " (Київ).")) ∷ []

  list_line : Text → List Text → List Text
  list_line label [] = []
  list_line label (t ∷ ts) =
      (label ++ (escape (join (codes ", ") (sorted (t ∷ ts))) ++ codes ".")) ∷ []

  -- the text of the first stage
  unfoldable pub first_text : Alert → Text
  unfolding time_line list_line sorted join escape
  first_text a =
      let opening = if a.stale then historical_notice else alert_first in
      let source =
        codes "Джерело: канал "
        ++ (str a.source_chat_id
            ++ (codes ", повідомлення " ++ (str (pos a.source_message_id) ++ codes "."))) in
      let context =
        source
        ∷ (time_line a.source_timestamp
            ++ (list_line (codes "Категорія: ") a.categories
                ++ list_line (codes "Згадана локація: ") a.locations)) in
      opening
      ++ (10 ∷ (join (10 ∷ []) context ++ (10 ∷ codes "Підтвердіть стан в офіційних джерелах.")))

  abbrev pub event_of : Alert → ℤ → Text
  event_of a chat = identity a.source_chat_id a.source_message_id chat

  -- {**common, "step": step, "text": text, "silent": silent}
  unfoldable pub job_json : Alert → ℤ → Text → ℕ → Text → Bool → Json
  unfolding texts sorted optional_text
  job_json a chat job_generation step text silent = obj (
      member (codes "event_id") (Json.str (event_of a chat)) (
        member (codes "chat_id") (Json.str (str chat)) (
          member (codes "source_chat_id") (int a.source_chat_id) (
            member (codes "source_message_id") (int (pos a.source_message_id)) (
              member (codes "source_timestamp") (optional_text isoformat a.source_timestamp) (
                member (codes "source_locations") (arr (texts (sorted a.locations))) (
                  member (codes "recipient_generation") (Json.str job_generation) (
                    member (codes "step") (int (pos step)) (
                      member (codes "text") (Json.str text)
                        (member (codes "silent") (bool silent) end))))))))))

  unfoldable pub payload_1 : Alert → ℤ → Text → Text
  payload_1 a chat g = dumps (job_json a chat g 1 (first_text a) a.stale)

  unfoldable pub payload_2 : Alert → ℤ → Text → Text
  payload_2 a chat g = dumps (job_json a chat g 2 alert_second false)

  unfoldable pub payload_3 : Alert → ℤ → Text → Text
  payload_3 a chat g = dumps (job_json a chat g 3 alert_third false)

  module _ (R : Redis) where
    open R use {Keys, get, set_px, xadd, zadd}

    -- ENQUEUE_ALERT_LUA
    unfoldable pub enqueue_script : ℕ → Alert → ℤ → Text → Db R → Bool × Db R
    unfolding allowed
    enqueue_script now a chat g s =
        let seconds = now / 1000 in
        let streams' = xadd delivery_stream (job (payload_1 a chat g)) s.streams in
        let delayed' =
          zadd (seconds + alert_delay_1 + alert_delay_2) (payload_3 a chat g)
            (zadd (seconds + alert_delay_1) (payload_2 a chat g) s.delayed) in
        let keys' = set_px now (enqueued (event_of a chat)) (word (codes "1")) horizon_ms s.keys in
        if not (allowed R now (str chat) g s.keys)
        then (false, s)
        else if exists (get now s.keys (enqueued (event_of a chat)))
        then (false, s)
        else (
          true,
          record s {
            keys = keys';
            streams = streams';
            delayed = if a.stale then s.delayed else delayed';
          },
        )

    -- enqueue_alert: the generation is read before the script runs; `meanwhile` is what the other
    -- processes do in between
    unfoldable pub enqueue_alert : ℕ → (Db R → Db R) → Alert → ℤ → Db R → Bool × Db R
    unfolding generation_of
    enqueue_alert now meanwhile a chat s =
        enqueue_script now a chat (generation_of (get now s.keys (generation (str chat))))
          (meanwhile s)

    -- worker/main.py, _dispatch_alerts: every recipient of a page in turn
    unfoldable pub dispatch_alerts : ℕ → Alert → List ℤ → Db R → Db R
    dispatch_alerts now a [] s = s
    dispatch_alerts now a (u ∷ us) s = dispatch_alerts now a us (enqueue_alert now (λ x. x) a u s).1
