-- ===== src/Worker/Source/Acknowledged.antt =====
-- worker/main.py: when an entry of the source stream is acknowledged.
use alert_bot_project.Common.{
  ℕ, zero, suc, ◌+◌, ◌≤◌, ◌<◌, ◌≡◌, ◌∙◌, refl, ℤ, Text, Bool, Option, none, some, List, [], ◌∷◌,
  ◌++◌, arith,
}
use alert_bot_project.Redis.{
  MessageId, num, Redis, Db, alerts_stream, delivery_stream, dead_letter_queue,
  expired_alerts_queue, failed_task, retry_count,
}
use alert_bot_project.Shared.Platform.{Platform}
use alert_bot_project.Services.Alarm.Poller.{Settings}
use alert_bot_project.Worker.FanOut.{UserSettings}
use alert_bot_project.Worker.Broadcaster.Attempt.{Config}
use alert_bot_project.Worker.Broadcaster.Enqueue.{
  Alert, enqueue_script, enqueue_alert, dispatch_alerts,
}
use alert_bot_project.Worker.Broadcaster.DeadLetter.Attempts.{counter}
use alert_bot_project.Worker.Source.{audit_expired, handle_db_failure, fan_out_pages}

abbrev pub hour_ms : ℕ
hour_ms = 3600000

module _ (P : Platform) (R : Redis) where
  open R use {
    Keys, Streams, get, del, incr, expire, owner, entries, xadd, xack, owner-xadd, owner-xack,
    entries-xadd, entries-xack, get-incr, get-expire, get-del,
  }

  -- A message of the source stream that some consumer owes.
  abbrev pub pending_for : Db R → MessageId → Option Text
  pending_for s m = owner s.streams alerts_stream m

  enqueue-pending :
      (now : ℕ) (a : Alert) (chat : ℤ) (s : Db R) (m : MessageId)
      → pending_for (enqueue_alert P R now (λ x. x) a chat s).1 m ≡ pending_for s m
  unfolding enqueue_alert enqueue_script
  enqueue-pending now a chat s m = grind (arith, owner-xadd s.streams delivery_stream alerts_stream)

  dispatch-pending :
      (now : ℕ) (a : Alert) (ids : List ℤ) (s : Db R) (m : MessageId)
      → pending_for (dispatch_alerts P R now a ids s) m ≡ pending_for s m
  unfolding dispatch_alerts
  dispatch-pending now a [] s m = refl
  dispatch-pending now a (u ∷ us) s m =
      dispatch-pending now a us (enqueue_alert P R now (λ x. x) a u s).1 m
      ∙ enqueue-pending now a u s m

  pub ack-pending :
      (s : Streams) (m : MessageId) → owner (xack alerts_stream m s) alerts_stream m ≡ none
  ack-pending s m = ground (arith, owner-xack s alerts_stream alerts_stream m m)

  counted-now :
      (now n : ℕ) (m : MessageId) (s : Keys)
      → get now s (retry_count m) ≡ counter n
      → get now (incr now (retry_count m) s) (retry_count m) ≡ some (num (suc n))
  counted-now now zero m s e = ground (arith, get-incr now now s (retry_count m) (retry_count m))
  counted-now now (suc n) m s e = ground (arith, get-incr now now s (retry_count m) (retry_count m))

  counted-later :
      (now u n : ℕ) (m : MessageId) (s : Keys)
      → now ≤ u
      → u < now + hour_ms
      → get now s (retry_count m) ≡ counter n
      → get u (expire now (retry_count m) hour_ms (incr now (retry_count m) s)) (retry_count m)
        ≡ some (num (suc n))
  counted-later now u n m s h lt e = ground (
    arith,
    get-expire now (incr now (retry_count m) s) (retry_count m) (retry_count m) hour_ms u h,
    counted-now now n m s e,
  )

  module _ (c : Config) (alarm : Settings) where
    -- What a failure of the database leaves of an entry with n failures before, where each of the
    -- first five is counted and ends so: the entry stays pending, nothing is dead-lettered, and for
    -- an hour the counter reads n + 1. From the sixth on the entry is acknowledged and moved to the
    -- dead letters, and its counter is gone.
    pub handle_db_failure_lem :
        (now n : ℕ) (m : MessageId) (raw_json error_name : Text) (s : Db R)
        → get now s.keys (retry_count m) ≡ counter n
        → let s' = handle_db_failure P R c alarm now m raw_json error_name s in
          (n < 5
            → (s'.streams ≡ s.streams)
              × (pending_for s' m ≡ pending_for s m)
              × ((u : ℕ)
                  → now ≤ u
                  → u < now + hour_ms
                  → get u s'.keys (retry_count m) ≡ some (num (n + 1))))
          × (5 ≤ n
              → (pending_for s' m ≡ none)
                × (entries s'.streams dead_letter_queue
                    ≡ entries s.streams dead_letter_queue ++ failed_task raw_json error_name ∷ [])
                × ((u : ℕ) → get u s'.keys (retry_count m) ≡ none))
    unfolding handle_db_failure
    handle_db_failure_lem now n m raw_json error_name s h =
        let count = counted-now now n m s.keys h in
        let letter = failed_task raw_json error_name in
        let written = xadd dead_letter_queue letter s.streams in
        (
          λ few. (
            ground (arith, few, count),
            ground (arith, few, count),
            λ u from until. ground (arith, few, count, counted-later now u n m s.keys from until h),
          ),
          λ many. (
            ground (arith, many, count, ack-pending written m),
            ground (
              arith,
              many,
              count,
              entries-xack written alerts_stream dead_letter_queue m,
              entries-xadd s.streams dead_letter_queue dead_letter_queue letter,
            ),
            λ u. ground (
              arith,
              many,
              count,
              get-del u (expire now (retry_count m) hour_ms (incr now (retry_count m) s.keys))
                  (retry_count m) (retry_count m),
            ),
          ),
        )

    pub fan_out-pending :
        (pages : List Bool) (now : ℕ) (a : Alert) (categories triggers : List Text)
        (users : List UserSettings) (after : Option ℕ) (s : Db R) (m : MessageId)
        → pending_for (fan_out_pages P R c alarm pages now a categories triggers users after s).1 m
          ≡ pending_for s m
    unfolding fan_out_pages
    fan_out-pending [] now a categories triggers users after s m = refl
    fan_out-pending (answers ∷ pages) now a categories triggers users after s m = grind (
      arith,
      λ (ids : List ℤ). dispatch-pending now a ids s m,
      λ (later : Option ℕ) (s' : Db R).
          fan_out-pending pages now a categories triggers users later s' m,
    )

    pub audit-pending :
        (now : ℕ) (m : MessageId) (raw_json : Text) (s : Db R)
        → pending_for (audit_expired P R c alarm now m raw_json s) m ≡ pending_for s m
    unfolding audit_expired
    audit-pending now m raw_json s =
        grind (arith, owner-xadd s.streams expired_alerts_queue alerts_stream)
