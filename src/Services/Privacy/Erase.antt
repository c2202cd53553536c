-- ===== src/Services/Privacy/Erase.antt =====
-- services/privacy.py, `_delete_user_data_locked` and `_scrub_recipient_stream`: what a deletion takes
-- away. A stream is the list of its entries in the order of their identifiers, so that the cursor
-- after a page is the place behind it; the deletion meets streams and a delayed set that no other
-- process changes meanwhile.
pub mod Complete
pub mod Gone
use alert_bot_project.Common.{
  ℕ, zero, suc, ℤ, pos, str, Text, codes, Bool, true, false, not, ◌&&◌, ◌||◌, Option, none, some,
  List, [], ◌∷◌, ◌++◌, ltb, ◌==◌, if◌then◌else◌, same, filter, take, drop, length, is_empty, ite,
  ℤ-discrete,
}
use alert_bot_project.Redis.{
  MessageId, Key, Redis, delivery_stream, retry, mute, blocked, rate_chat,
}
use alert_bot_project.Shared.Json.{Json, obj, Members, find_last, int}
use alert_bot_project.Shared.Platform.{Platform}
use alert_bot_project.Database.{Tables}
use alert_bot_project.Services.Privacy.{fence_deletion, await_idle}

-- An entry of a stream of jobs: its identifier, and the field `payload` if it has it.
pub record StreamEntry : Type 0 where
  pub id : MessageId
  pub payload : Option Text

-- What json.loads and int make of a payload: a number, an error that the code catches, or the
-- AttributeError of a value that is no object.
pub data Reading : Type 0 where
  chat_number : ℤ → Members → Reading
  caught no_object : Reading

-- What a deletion meets.
pub record Deletion (Keys : Type 0) : Type 0 where
  -- the new generation, and the polls of the wait for deliveries in flight
  pub generation : Text
  pub polls : List (ℕ × (Keys → Keys))
  -- the keys that SCAN finds for the two patterns, and the members that ZSCAN finds
  pub matched : List Key
  pub members : List Text

module _ (P : Platform) (R : Redis) (int_of : Json → Option ℤ) where
  open P use {loads, tostring}
  open R use {Keys, Streams, Sorted, del, xack, zrem}

  -- int(job.get("chat_id", 0)), where int_of is `int` of a JSON value, none for its errors
  abbrev pub read_chat : Option Json → Members → Reading
  read_chat none ms = chat_number (pos 0) ms
  read_chat (some v) ms = elim (int_of v) [ none ↦ caught | some n ↦ chat_number n ms ]

  abbrev pub read_value : Option Json → Reading
  read_value none = caught
  read_value (some (obj ms)) = read_chat (find_last (codes "chat_id") ms) ms
  read_value (some _) = no_object

  abbrev pub reading : Text → Reading
  reading payload = read_value (loads payload)

  abbrev pub is_user : ℕ → ℤ → Bool
  is_user user n = ite (ℤ-discrete n (pos user)) true false

  abbrev pub payload_text : Option Text → Text
  payload_text none = codes "{}"
  payload_text (some t) = t

  abbrev pub named : ℕ → Reading → Bool
  named user (chat_number n ms) = is_user user n
  named user _ = false

  -- matches, of _scrub_recipient_stream, which catches the AttributeError too
  unfoldable pub names_user : ℕ → StreamEntry → Bool
  unfolding ℤ-discrete
  names_user user e = named user (reading (payload_text e.payload))

  -- The deletion of the matching entries of a page.
  abbrev pub erased_page : ℕ → List StreamEntry → List StreamEntry
  erased_page user page = filter (λ e. not (names_user user e)) page

  abbrev pub page_size : ℕ
  page_size = 500

  -- The loop over the pages; the fuel bounds their number, and the first component is false when it
  -- runs out.
  unfoldable pub scrub_stream : ℕ → ℕ → List StreamEntry → Bool × List StreamEntry
  unfolding filter
  scrub_stream zero user entries = (false, entries)
  scrub_stream (suc fuel) user entries =
      let page = take page_size entries in
      let rest = scrub_stream fuel user (drop page_size entries) in
      if is_empty page
      then (true, entries)
      else if ltb (length page) page_size
      then (true, erased_page user page)
      else (rest.0, erased_page user page ++ rest.1)

  -- The acknowledgements and the counters of the matching entries of delivery_stream.
  unfoldable pub ack_matching : ℕ → List StreamEntry → Streams → Streams
  ack_matching user [] s = s
  ack_matching user (e ∷ es) s =
      ack_matching user es (if names_user user e then xack delivery_stream e.id s else s)

  unfoldable pub drop_counters : ℕ → List StreamEntry → Keys → Keys
  drop_counters user [] s = s
  drop_counters user (e ∷ es) s =
      drop_counters user es (if names_user user e then del (retry e.id) s else s)

  -- job.get("recipient_generation", "0") != generation
  abbrev pub other_generation : Text → Option Json → Bool
  other_generation g none = not (same (codes "0") g)
  other_generation g (some (Json.str t)) = not (same t g)
  other_generation g (some _) = true

  abbrev pub is_obsolete : ℕ → Text → Reading → Bool
  is_obsolete user g (chat_number n ms) =
      is_user user n && other_generation g (find_last (codes "recipient_generation") ms)
  is_obsolete user g _ = false

  abbrev is_object : Reading → Bool
  is_object no_object = false
  is_object _ = true

  -- The loop over the members of the delayed set; the first component is false for the
  -- AttributeError, which ends it.
  unfoldable pub scrub_delayed : ℕ → Text → List Text → Sorted → Bool × Sorted
  unfolding ℤ-discrete
  scrub_delayed user g [] z = (true, z)
  scrub_delayed user g (m ∷ ms) z =
      let later =
        scrub_delayed user g ms (if is_obsolete user g (reading m) then zrem m z else z) in
      if is_object (reading m) then later else (false, z)

  unfoldable pub del_all : List Key → Keys → Keys
  del_all [] s = s
  del_all (k ∷ ks) s = del_all ks (del k s)

  -- DELETE FROM user_settings, with its cascade
  unfoldable pub delete_rows : ℕ → Tables → Tables
  unfolding filter
  delete_rows user db = record {
    user_settings = filter (λ u. not (u.user_id == user)) db.user_settings;
    user_triggers = filter (λ t. not (t.user_id == user)) db.user_triggers;
    user_activity_daily = filter (λ a. not (a.user_id == user)) db.user_activity_daily;
  }

  -- What a deletion changes.
  pub record Data : Type 0 where
    pub tables : Tables
    pub keys : Keys
    pub streams : Streams
    pub delayed : Sorted
    pub delivery : List StreamEntry
    pub dead_letters : List StreamEntry

  pub data Result : Type 0 where
    still_in_flight not_an_object out_of_pages done : Result

  -- The keys of the user that are deleted after the rows.
  abbrev user_keys : Text → List Key → List Key
  user_keys id matched = mute id ∷ blocked id ∷ rate_chat id ∷ matched

  -- the scrubbing of both streams, after that of the delayed set
  unfoldable pub scrub_both : ℕ → ℕ → Data → Result × Data
  unfolding scrub_stream ack_matching drop_counters
  scrub_both fuel user d =
      let first = scrub_stream fuel user d.delivery in
      let second = scrub_stream fuel user d.dead_letters in
      (
        if first.0 && second.0 then done else out_of_pages,
        record d {
          delivery = first.1;
          dead_letters = second.1;
          streams = ack_matching user d.delivery d.streams;
          keys = drop_counters user d.delivery d.keys;
        },
      )

  -- _delete_user_data_locked, with fuel for the pages of a stream
  unfoldable pub delete_user_data_locked : ℕ → ℕ → Deletion Keys → Data → Result × Data
  unfolding scrub_both scrub_delayed delete_rows del_all str
  delete_user_data_locked fuel user m d =
      let id = str (pos user) in
      let fenced = fence_deletion R id m.generation d.keys in
      let waited = await_idle R m.polls id fenced in
      let freed = record d {
        tables = delete_rows user d.tables;
        keys = del_all (user_keys id m.matched) waited.1;
      } in
      let scrubbed = scrub_delayed user m.generation m.members d.delayed in
      if not waited.0
      then (still_in_flight, record d { keys = waited.1 })
      else if not scrubbed.0
      then (not_an_object, record freed { delayed = scrubbed.1 })
      else scrub_both fuel user (record freed { delayed = scrubbed.1 })
