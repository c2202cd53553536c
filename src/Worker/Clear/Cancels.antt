-- ===== src/Worker/Clear/Cancels.antt =====
-- worker/main.py and worker/broadcaster.py: an all-clear stops the reminders of earlier posts.
use alert_bot_project.Common.{
  ℕ, max, ◌+◌, ◌≤◌, ◌<◌, ◌≡◌, ◌≢◌, ◌∙◌, refl, ℤ, str, Text, true, none, some, List, [], ◌∷◌, arith,
}
use alert_bot_project.Redis.{Key, MessageId, num, count_of, Redis, Db, clear_id, clear_id_at}
use alert_bot_project.Shared.Platform.{Platform}
use alert_bot_project.Worker.Contract.{DeliveryJob}
use alert_bot_project.Worker.Clear.{record_clear, record_locations, record_clears}
use alert_bot_project.Worker.Broadcaster.Attempt.{Config, Attempt}
use alert_bot_project.Worker.Broadcaster.Verdict.{is_cleared, cleared_by, reminder_verdict, verdict}
use alert_bot_project.Worker.Broadcaster.Deliver.{deliver_job}

module _ (R : Redis) where
  open R use {Keys, get, set_px, get-set_px}

  get-record_clear :
      (t u : ℕ) (key other : Key) (message : ℕ) (s : Keys)
      → (key ≢ other → get u (record_clear R t key message s) other ≡ get u s other)
        × (u < t + 604800000
            → get u s key ≡ get t s key
            → 0 < message
            → (n : ℕ) × (get u (record_clear R t key message s) key ≡ some (num n)) × (message ≤ n))
  unfolding record_clear
  get-record_clear t u key other message s = (
    λ ne. ground (arith, get-set_px t u s key other (num message) 604800000),
    λ lt same low. (
      max (count_of (get t s key)) message,
      ground (arith, get-set_px t u s key key (num message) 604800000),
      ground arith,
    ),
  )

  get-record_locations :
      (t u : ℕ) (chat : Text) (message : ℕ) (ls : List Text) (s : Keys) (c : Text)
      → get u (record_locations R t chat message ls s) (clear_id c) ≡ get u s (clear_id c)
  unfolding record_locations
  get-record_locations t u chat message [] s c = refl
  get-record_locations t u chat message (l ∷ ls) s c =
      get-record_locations t u chat message ls (record_clear R t (clear_id_at chat l) message s) c
      ∙ (get-record_clear t u (clear_id_at chat l) (clear_id c) message s).0 (λ e. ground arith)

  all_clear-is_cleared :
      (t u : ℕ) (chat : ℤ) (message old : ℕ) (ls : List Text) (s s' : Keys) (j : DeliveryJob)
      → j.source_chat_id ≡ some chat
      → j.source_message_id ≡ some old
      → old < message
      → u < t + 604800000
      → get u s (clear_id (str chat)) ≡ get t s (clear_id (str chat))
      → get u s' (clear_id (str chat))
        ≡ get u (record_clears R t chat message true ls s) (clear_id (str chat))
      → is_cleared R u s' j ≡ true
  unfolding record_clears is_cleared cleared_by
  all_clear-is_cleared t u chat message old ls s s' j ec em lt soon kept same =
      let k = clear_id (str chat) in
      let s1 = record_clear R t k message s in
      let (n, at, high) = (get-record_clear t u k k message s).1 soon kept (omega arith) in
      let later = get-record_locations t u (str chat) message ls s1 (str chat) in
      ground (arith, at, high, later)

  module _ (P : Platform) where
    not_proceeding-none :
        (c : Config) (a : Attempt R) (m : MessageId) (payload : Text) (j : DeliveryJob) (s : Db R)
        → 1 < j.step
        → is_cleared R a.start s.keys j ≡ true
        → (deliver_job R P c a m payload j s).1 ≡ none
    unfolding deliver_job verdict reminder_verdict
    not_proceeding-none c a m payload j s step cleared = ground arith

    -- After an all-clear of a channel was recorded at time t for the post `message`: within a week, a
    -- delivery of a reminder (step 2 or 3) of an earlier post of that channel makes no request, in
    -- every state in which the channel's key reads as the record left it, if a record that was
    -- there before has not expired in between.
    pub all_clear_cancels :
        (t : ℕ) (chat : ℤ) (message old : ℕ) (places : List Text) (s : Keys) (c : Config)
        (a : Attempt R) (m : MessageId) (payload : Text) (j : DeliveryJob) (later : Db R)
        → j.source_chat_id ≡ some chat
        → j.source_message_id ≡ some old
        → old < message
        → 1 < j.step
        → a.start < t + 604800000
        → get a.start s (clear_id (str chat)) ≡ get t s (clear_id (str chat))
        → get a.start later.keys (clear_id (str chat))
          ≡ get a.start (record_clears R t chat message true places s) (clear_id (str chat))
        → (deliver_job R P c a m payload j later).1 ≡ none
    all_clear_cancels t chat message old places s c a m payload j later ec em lt step soon kept
          same =
        not_proceeding-none c a m payload j later step (
          all_clear-is_cleared t a.start chat message old places s later.keys j ec em lt soon kept
            same)
