-- ===== src/Worker/Clear.antt =====
-- worker/main.py: the record of an all-clear, for a channel or for places of it.
pub mod Cancels
use alert_bot_project.Common.{ℕ, ℤ, str, Text, Bool, List, [], ◌∷◌, ltb, if◌then◌else◌}
use alert_bot_project.Redis.{Key, num, count_of, Redis, clear_id, clear_id_at}

module _ (R : Redis) where
  open R use {Keys, get, set_px}

  -- RECORD_CLEAR_LUA
  unfoldable pub record_clear : ℕ → Key → ℕ → Keys → Keys
  record_clear now key incoming s =
      let prior = count_of (get now s key) in
      if ltb prior incoming then set_px now key (num incoming) 604800000 s else s

  unfoldable pub record_locations : ℕ → Text → ℕ → List Text → Keys → Keys
  unfolding record_clear
  record_locations now chat message [] s = s
  record_locations now chat message (l ∷ ls) s =
      record_locations now chat message ls (record_clear now (clear_id_at chat l) message s)

  -- The clears of one post in process_single_stream_payload: whether the whole channel is clear, and
  -- the places that are.
  unfoldable pub record_clears : ℕ → ℤ → ℕ → Bool → List Text → Keys → Keys
  unfolding record_clear record_locations
  record_clears now chat message everywhere locations s =
      let s' = if everywhere then record_clear now (clear_id (str chat)) message s else s in
      record_locations now (str chat) message locations s'
