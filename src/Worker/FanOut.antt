-- ===== src/Worker/FanOut.antt =====
-- database/crud.py, `get_target_user_ids_page`, and the loop over its pages in worker/main.py,
-- `process_single_stream_payload`. The table of users is the list of its rows in the order of the
-- query (user_id); it and the clock stay the same during the loop.
pub mod Pages
pub mod Complete
use alert_bot_project.Common.{
  ℕ, zero, suc, pos, Text, Text-discrete, Bool, true, false, ◌&&◌, ◌||◌, Option, none, some, List,
  [], ◌∷◌, map, ite, ltb, leb, length, take, if◌then◌else◌,
}
use alert_bot_project.Redis.{Redis, Db}
use alert_bot_project.Shared.Platform.{Platform}
use alert_bot_project.Worker.Broadcaster.Enqueue.{Alert, dispatch_alerts}

-- A row of user_settings, with the words of its rows in user_triggers.
pub record UserSettings : Type 0 where
  pub user_id : ℕ
  pub potvory : List Text
  pub muted_until : Option ℕ
  pub trigger_words : List Text

unfoldable pub contains : Text → List Text → Bool
contains t [] = false
contains t (x ∷ xs) = ite (Text-discrete t x) true false || contains t xs

unfoldable pub overlap : List Text → List Text → Bool
unfolding contains
overlap [] ys = false
overlap (x ∷ xs) ys = contains x ys || overlap xs ys

abbrev pub not_muted : ℕ → Option ℕ → Bool
not_muted now none = true
not_muted now (some until) = ltb until now

abbrev pub has_word : List Text → List Text → Bool
has_word [] words = true
has_word (t ∷ ts) words = overlap (t ∷ ts) words

-- the conditions but the one on the page
unfoldable pub is_target : ℕ → List Text → List Text → UserSettings → Bool
is_target now categories triggers u =
    not_muted now u.muted_until
    && (overlap u.potvory categories && has_word triggers u.trigger_words)

-- user_id > after_user_id
abbrev pub is_after : Option ℕ → ℕ → Bool
is_after none n = true
is_after (some k) n = ltb k n

unfoldable pub selected : (UserSettings → Bool) → Option ℕ → List UserSettings → List ℕ
selected p after [] = []
selected p after (u ∷ us) =
    let rest = selected p after us in
    if p u && is_after after u.user_id then u.user_id ∷ rest else rest

-- get_target_user_ids_page; none is the ValueError
unfoldable pub get_target_user_ids_page :
    ℕ → List Text → List Text → Option ℕ → ℕ → List UserSettings → Option (List ℕ)
get_target_user_ids_page now [] triggers after page_size users = some []
get_target_user_ids_page now (c ∷ cs) triggers after page_size users =
    if leb 1 page_size && leb page_size 1000
    then some (take page_size (selected (is_target now (c ∷ cs) triggers) after users))
    else none

-- page[-1]
unfoldable pub last_of : ℕ → List ℕ → ℕ
last_of d [] = d
last_of d (x ∷ xs) = last_of x xs

abbrev pub page_limit : ℕ
page_limit = 500

abbrev page_of : Option (List ℕ) → List ℕ
page_of none = []
page_of (some page) = page

module _ (P : Platform) (R : Redis) where
  -- The loop over the pages; the fuel bounds their number. The second component is false when the
  -- fuel ran out.
  unfoldable pub fan_out :
      ℕ → ℕ → Alert → List Text → List Text → List UserSettings → Option ℕ → Db R → Bool × Db R
  fan_out zero now a categories triggers users after s = (false, s)
  fan_out (suc fuel) now a categories triggers users after s =
      let page =
        page_of (get_target_user_ids_page now categories triggers after page_limit users) in
      let s' = dispatch_alerts P R now a (map pos page) s in
      let rest = fan_out fuel now a categories triggers users (some (last_of 0 page)) s' in
      if ltb 0 (length page)
      then (if ltb (length page) page_limit then (true, s') else rest)
      else (true, s)
