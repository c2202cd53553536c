-- ===== src/Scraper/Catchup.antt =====
-- scraper/catchup.py: the posts of the channel's history that were missed, newest first.
pub mod Recovered
use alert_bot_project.Common.{
  ℕ, suc, ◌+◌, ◌-◌, ◌*◌, ℤ, Text, Bool, true, false, not, ◌&&◌, ◌||◌, Option, none, some, List, [],
  ◌∷◌, ltb, leb, length, if◌then◌else◌,
}
use alert_bot_project.Worker.Contract.{second}
use alert_bot_project.Scraper.Outbox.{ScraperOutbox, put, checkpoint, advance_checkpoint}

-- HistoryMessage, with the date as an instant
pub record HistoryMessage : Type 0 where
  pub id : ℕ
  pub date : Option ℕ
  pub text : Option Text
  pub caption : Option Text

-- message.text or message.caption; an empty text counts as none
unfoldable pub raw_text : HistoryMessage → Option Text
raw_text m = elim m.text [
  | some (c ∷ cs) ↦ some (c ∷ cs)
  | _ ↦ elim m.caption [ some (c ∷ cs) ↦ some (c ∷ cs) | _ ↦ none ]
]

-- core_shared/schemas.py, AlertMessage: whether a post is a valid source message at the time `now`
unfoldable pub is_alert_message : ℕ → Text → ℕ → Bool
is_alert_message now text at = leb (length text) 4096 && leb at (now + 300 * second)

-- message.id <= checkpoint
abbrev pub reached : Option ℕ → ℕ → Bool
reached none n = false
reached (some c) n = leb n c

-- checkpoint is None and source_time < cutoff
abbrev pub too_old : ℕ → Option ℕ → ℕ → Bool
too_old now none at = ltb (at + 900 * second) now
too_old now (some c) at = false

-- model_dump_json of a message: its id, channel, text and time
module _ (dump : ℕ → ℤ → Text → ℕ → Text) where
  -- the payload of a post with a time
  unfoldable pub payload_of : ℕ → ℤ → HistoryMessage → ℕ → Option Text
  payload_of now chat m at = elim (raw_text m) [
    | none ↦ none
    | some t ↦ if is_alert_message now t at then some (dump m.id chat t at) else none
  ]

  unfoldable pub put_payload : ℤ → ℕ → Option Text → ScraperOutbox → ScraperOutbox
  put_payload chat n none o = o
  put_payload chat n (some t) o = put chat n t o

  unfoldable pub counted : Option Text → ℕ → ℕ
  counted none n = n
  counted (some t) n = suc n

  -- The loop over the history; the flag is false after the ValueError.
  unfoldable pub scan :
      ℕ → ℤ → Option ℕ → List HistoryMessage → ℕ → ScraperOutbox → Bool × ℕ × ScraperOutbox
  unfolding put_payload counted
  scan now chat from [] recovered o = (true, recovered, o)
  scan now chat from (m ∷ ms) recovered o = elim m.date [
    | none ↦ (reached from m.id, recovered, o)
    | some at ↦
        let payload = payload_of now chat m at in
        let rest =
          scan now chat from ms (counted payload recovered) (put_payload chat m.id payload o) in
        if reached from m.id || too_old now from at then (true, recovered, o) else rest
  ]

  unfoldable pub raise_to : ℤ → List HistoryMessage → ScraperOutbox → ScraperOutbox
  raise_to chat [] o = o
  raise_to chat (m ∷ ms) o = advance_checkpoint chat m.id o

  -- catch_up_channel: the number of posts that were put, or none for the ValueError
  unfoldable pub catch_up_channel :
      ℕ → ℤ → List HistoryMessage → ScraperOutbox → Option ℕ × ScraperOutbox
  unfolding raise_to
  catch_up_channel now chat history o =
      let (fine, recovered, o') = scan now chat (checkpoint chat o) history 0 o in
      if fine then (some recovered, raise_to chat history o') else (none, o')
