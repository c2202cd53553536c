-- ===== src/Scraper/Publisher.antt =====
-- scraper/publisher.py and the handler of a live post in scraper/main.py: a source post enters the
-- stream once. A call of Redis may end without its answer, and then it ran or it did not.
pub mod Once
use alert_bot_project.Common.{
  ℕ, ◌*◌, ℤ, pos, str, Text, Bool, true, false, Option, none, some, List, [], ◌∷◌, take,
  if◌then◌else◌,
}
use alert_bot_project.Redis.{word, Redis, Db, alerts_stream, job, published}
use alert_bot_project.Shared.Constants.{source_replay_horizon_seconds}
use alert_bot_project.Services.Privacy.{exists}
use alert_bot_project.Scraper.Outbox.{ScraperOutbox, Post, put, delete, pending}

abbrev pub marker_ms : ℕ
marker_ms = source_replay_horizon_seconds * 1000

-- What comes of one call of the script.
pub data Reply : Type 0 where
  -- it ran and its answer arrived; it ran, and the connection broke; it did not run
  answered lost unreached : Reply

-- A call: its time, what comes of it, the id that XADD gives, and what others did before it.
pub record Call (R : Redis) : Type 0 where
  pub time : ℕ
  pub reply : Reply
  pub entry_id : Text
  pub before : Db R → Db R

module _ (R : Redis) where
  open R use {Keys, get, set_px, xadd}

  -- PUBLISH_ONCE_LUA
  unfoldable pub publish_once : ℕ → ℤ → ℕ → Text → Text → Db R → Bool × Db R
  publish_once now chat message payload entry_id s =
      let key = published (str chat) (str (pos message)) in
      if exists (get now s.keys key) then (false, s) else (
        true,
        record s {
          keys = set_px now key (word entry_id) marker_ms s.keys;
          streams = xadd alerts_stream (job payload) s.streams;
        },
      )

  -- publish_message: false is the error
  unfoldable pub publish_message : Call R → ℤ → ℕ → Text → Db R → Bool × Db R
  publish_message c chat message payload s =
      let s' = c.before s in
      let run = (publish_once c.time chat message payload c.entry_id s').1 in
      elim c.reply [ answered ↦ (true, run) | lost ↦ (false, run) | unreached ↦ (false, s') ]

  -- the attempts of handle_channel_post
  unfoldable pub attempts : List (Call R) → ℤ → ℕ → Text → Db R → Bool × Db R
  attempts [] chat message payload s = (false, s)
  attempts (c ∷ cs) chat message payload s =
      let (fine, s') = publish_message c chat message payload s in
      let rest = attempts cs chat message payload s' in if fine then (true, s') else rest

  -- handle_channel_post, for a post that validates to `payload`: three attempts
  unfoldable pub handle_channel_post :
      List (Call R) → ℤ → ℕ → Text → ScraperOutbox → Db R → ScraperOutbox × Db R
  handle_channel_post calls chat message payload o s =
      let o' = put chat message payload o in
      let (fine, s') = attempts (take 3 calls) chat message payload s in
      if fine then (delete chat message o', s') else (o', s')

  replay_rows : List Post → List (Call R) → ScraperOutbox → Db R → ScraperOutbox × Db R
  replay_rows [] calls o s = (o, s)
  replay_rows (p ∷ ps) [] o s = (o, s)
  replay_rows (p ∷ ps) (c ∷ calls) o s =
      let (fine, s') = publish_message c p.chat_id p.message_id p.payload s in
      let rest = replay_rows ps calls (delete p.chat_id p.message_id o) s' in
      if fine then rest else (o, s')

  -- One round of replay_outbox; it ends at the first error, or when the calls do.
  unfoldable pub replay_outbox : List (Call R) → ScraperOutbox → Db R → ScraperOutbox × Db R
  unfolding replay_rows
  replay_outbox calls o s = replay_rows (pending 100 o) calls o s
