-- ===== src/Worker/Broadcaster/Verdict.antt =====
-- worker/broadcaster.py, the checks of `_deliver_one` before the send. They read one state of the
-- store.
use alert_bot_project.Common.{
  ℕ, ◌+◌, ◌*◌, ◌-◌, pos, str, Text, codes, Bool, true, false, not, ◌&&◌, ◌||◌, Option, none, some,
  List, [], ◌∷◌, ltb, if◌then◌else◌,
}
use alert_bot_project.Redis.{
  Value, num, Redis, generation, deleted, blocked, stage, clear_id, clear_id_at,
}
use alert_bot_project.Shared.Platform.{instant}
use alert_bot_project.Services.Privacy.{exists, generation_of, is_token, same_text}
use alert_bot_project.Worker.Contract.{DeliveryJob, second}
use alert_bot_project.Worker.Broadcaster.Attempt.{Config, is_night, db_mute_active, Attempt}

-- What the checks before the send decide.
pub data Verdict : Type 0 where
  -- acknowledged with no trace: fenced, too old, or sent before
  dropped : Verdict
  -- the stage is skipped: cleared, skipped before, in daytime or muted
  skipped : Verdict
  -- the previous stage failed
  prior_failed : Verdict
  -- back to the delayed set, until the previous stage is sent
  postponed : Verdict
  -- the recipient blocked the bot
  unreachable : Verdict
  proceed : Verdict

-- the event's name as an f-string shows it
abbrev pub event_text : DeliveryJob → Text
event_text j = elim j.event_id [ none ↦ codes "None" | some e ↦ e ]

module _ (R : Redis) where
  open R use {Keys, get, set, set_px, del, zadd}

  -- clear_id is not None and int(clear_id) > int(source_message_id)
  unfoldable pub cleared_by : Option Value → ℕ → Bool
  cleared_by (some (num n)) message = ltb message n
  cleared_by _ message = false

  all_cleared : ℕ → Keys → Text → ℕ → List Text → Bool
  unfolding cleared_by
  all_cleared now s source message [] = true
  all_cleared now s source message (l ∷ ls) =
      cleared_by (get now s (clear_id_at source l)) message && all_cleared now s source message ls

  unfoldable pub scoped_clear : ℕ → Keys → Text → ℕ → List Text → Bool
  unfolding all_cleared
  scoped_clear now s source message [] = false
  scoped_clear now s source message (l ∷ ls) = all_cleared now s source message (l ∷ ls)

  -- the clear of the whole channel, or of every location of the job
  unfoldable pub is_cleared : ℕ → Keys → DeliveryJob → Bool
  unfolding cleared_by scoped_clear
  is_cleared now s j = elim j.source_chat_id [
    | none ↦ false
    | some c ↦ elim j.source_message_id [
      | none ↦ false
      | some m ↦
          cleared_by (get now s (clear_id (str c))) m
          || scoped_clear now s (str c) m j.source_locations
    ]
  ]

  -- isinstance(event_id, str) and the stage is "sent"
  unfoldable pub already_sent : ℕ → Keys → DeliveryJob → Bool
  already_sent now s j = elim j.event_id [
    | none ↦ false
    | some e ↦ is_token (get now s (stage e (str (pos j.step)))) (codes "sent")
  ]

  source_expired : ℕ → Option ℕ → Bool
  source_expired now none = false
  source_expired now (some at) = ltb (at + 604800 * second) now

  abbrev pub prior : ℕ → Keys → DeliveryJob → Text → Bool
  prior now s j what = is_token (get now s (stage (event_text j) (str (pos (j.step - 1))))) what

  -- the checks of a reminder (step 2 or 3)
  unfoldable pub reminder_verdict : Config → Attempt R → DeliveryJob → Keys → Verdict
  reminder_verdict c a j s =
      if is_cleared a.start s j
      then skipped
      else if prior a.start s j (codes "skipped")
      then skipped
      else if prior a.start s j (codes "failed")
      then prior_failed
      else if not (prior a.start s j (codes "sent"))
      then postponed
      else if not (is_night c a.local) || db_mute_active (instant a.start) a.muted_until
      then skipped
      else proceed

  unfoldable pub verdict : Config → Attempt R → DeliveryJob → Keys → Verdict
  unfolding source_expired
  verdict c a j s =
      let chat = str j.chat_id in
      let staged = if ltb 1 j.step then reminder_verdict c a j s else proceed in
      let reachable : Verdict = elim staged [
        | proceed ↦ if exists (get a.start s (blocked chat)) then unreachable else proceed
        | v ↦ v
      ] in
      if not (same_text j.recipient_generation (generation_of (get a.start s (generation chat))))
      then dropped
      else if exists (get a.start s (deleted chat))
      then dropped
      else if source_expired (instant a.start) j.source_timestamp
      then dropped
      else if already_sent a.start s j
      then dropped
      else reachable
