-- ===== src/Services/Alarm.antt =====
-- services/ukrainealarm.py: what the client reads from the responses of the API. An error is an
-- `inl`; what its message says about the path is left out.
pub mod Poller
use alert_bot_project.Common.{
  ℕ, pos, str, Text, codes, Bool, true, false, ◌&&◌, ◌||◌, Option, none, some, ◌⊎◌, inl, inr, List,
  [], ◌∷◌, ◌++◌, ◌==◌, if◌then◌else◌, is_in, is_empty,
}
use alert_bot_project.Shared.Json.{
  Json, null, int, arr, obj, Items, nil, cons, Members, end, member, find_last,
}
use alert_bot_project.Shared.Platform.{Platform}
use alert_bot_project.Shared.TextProcessor.{lstrip, rstrip}

-- What session.get does: it raises an error of the transport, or answers with a status and a body,
-- `none` for one that is no JSON.
pub data HttpResponse : Type 0 where
  no_response : HttpResponse
  response : ℕ → Option Json → HttpResponse

pub data ApiError : Type 0 where
  transport_error rate_limited rejected_key unreadable_body : ApiError
  http_error : ℕ → ApiError
  invalid_index invalid_regions invalid_alerts unknown_region : ApiError

abbrev pub Answer : Type 0 → Type 0
Answer A = ApiError ⊎ A

infixl 5 ◌>>=◌
abbrev pub ◌>>=◌ : {A B : Type 0} → Answer A → (A → Answer B) → Answer B
inl e >>= f = inl e
inr a >>= f = f a

body_of : Option Json → Answer Json
body_of none = inl unreadable_body
body_of (some v) = inr v

-- _get
unfoldable pub get_json : HttpResponse → Answer Json
unfolding body_of
get_json no_response = inl transport_error
get_json (response status body) =
    if status == 429
    then inl rate_limited
    else if (status == 401) || (status == 403)
    then inl rejected_key
    else if status == 200
    then body_of body
    else inl (http_error status)

-- isinstance(index, int) and not isinstance(index, bool) and index >= 0
index_of : Option Json → Answer ℕ
index_of (some (int (pos n))) = inr n
index_of _ = inl invalid_index

-- data.get(key, default)
get_or : Text → Members → Option Json → Option Json
get_or key ms default =
    let value = find_last key ms in elim value [ none ↦ default | some v ↦ some v ]

status_index : Json → Answer ℕ
unfolding index_of get_or
status_index (obj ms) =
    index_of (get_or (codes "lastActionIndex") ms (find_last (codes "actionIndex") ms))
status_index _ = inl invalid_index

unfoldable pub get_status_index : HttpResponse → Answer ℕ
unfolding status_index get_json
get_status_index r = do body ← get_json r; status_index body

-- The types of the alerts of each region, which is all that is read of them.
alert_type : Option Json → Option Text
alert_type (some (Json.str (c ∷ cs))) = some (c ∷ cs)
alert_type _ = none

abbrev join : Option Text → Option (List Text) → Option (List Text)
join (some t) (some ts) = some (t ∷ ts)
join _ _ = none

unfoldable pub alert_types : Items → Option (List Text)
unfolding alert_type
alert_types nil = some []
alert_types (cons (obj ms) rest) =
    join (alert_type (find_last (codes "type") ms)) (alert_types rest)
alert_types (cons _ rest) = none

unfoldable pub active_alerts : Option Json → Option (List Text)
unfolding alert_types
active_alerts (some (arr alerts)) = alert_types alerts
active_alerts _ = none

abbrev join_region : Option (List Text) → Option (List (List Text)) → Option (List (List Text))
join_region (some ts) (some rs) = some (ts ∷ rs)
join_region _ _ = none

unfoldable pub region_types : Items → Option (List (List Text))
unfolding active_alerts
region_types nil = some []
region_types (cons (obj ms) rest) =
    join_region (active_alerts (find_last (codes "activeAlerts") ms)) (region_types rest)
region_types (cons _ rest) = none

validated : Option (List (List Text)) → Answer (List (List Text))
validated none = inl invalid_alerts
validated (some rs) = inr rs

region_alerts : Json → Answer (List (List Text))
unfolding validated region_types
region_alerts (arr regions) = validated (region_types regions)
region_alerts _ = inl invalid_alerts

unfoldable pub get_region_alerts : HttpResponse → Answer (List (List Text))
unfolding region_alerts get_json
get_region_alerts r = do body ← get_json r; region_alerts body

abbrev pub air_alert_types : List Text
air_alert_types = codes "AIR" ∷ []

module _ (P : Platform) where
  open P use {lower, upper, py_str}

  unfoldable pub any_air : List Text → Bool
  any_air [] = false
  any_air (t ∷ ts) = (is_empty air_alert_types || is_in (upper t) air_alert_types) || any_air ts

  unfoldable pub is_air_active : List (List Text) → Bool
  unfolding any_air
  is_air_active [] = false
  is_air_active (ts ∷ regions) = any_air ts || is_air_active regions

  -- str(value)
  abbrev shown : Json → Text
  shown (Json.str t) = t
  shown (int n) = str n
  shown null = codes "None"
  shown v = py_str v

  shown_or_empty : Option Json → Text
  shown_or_empty none = []
  shown_or_empty (some v) = shown v

  -- needle in name
  abbrev begins_with : Text → Text → Bool
  begins_with [] t = true
  begins_with (c ∷ cs) [] = false
  begins_with (c ∷ cs) (d ∷ ds) = (c == d) && begins_with cs ds

  unfoldable pub occurs_in : Text → Text → Bool
  occurs_in needle [] = begins_with needle []
  occurs_in needle (c ∷ cs) = begins_with needle (c ∷ cs) || occurs_in needle cs

  -- state.get("regionId"), where null counts as missing
  abbrev id_or : Option Json → Answer (Option Text) → Answer (Option Text)
  id_or none rest = rest
  id_or (some null) rest = rest
  id_or (some v) rest = inr (some (shown v))

  -- The loop of resolve_region_id; a state that is no object is an error.
  unfoldable pub find_region : Text → Items → Answer (Option Text)
  unfolding shown_or_empty occurs_in
  find_region needle nil = inr none
  find_region needle (cons (obj ms) rest) =
      let later = find_region needle rest in
      if occurs_in needle (lower (shown_or_empty (find_last (codes "regionName") ms)))
      then id_or (find_last (codes "regionId") ms) later
      else later
  find_region needle (cons _ rest) = inl invalid_regions

  -- list(..) of the member "states"; the elements of a text or of an object are texts, which are
  -- no objects
  states_of : Option Json → Answer Items
  states_of none = inr nil
  states_of (some (arr states)) = inr states
  states_of (some (Json.str [])) = inr nil
  states_of (some (obj end)) = inr nil
  states_of (some _) = inl invalid_regions

  get_regions : Json → Answer Items
  unfolding states_of
  get_regions (obj ms) = states_of (find_last (codes "states") ms)
  get_regions (arr regions) = inr regions
  get_regions _ = inr nil

  unfoldable pub resolve_region_id : Text → HttpResponse → Answer (Option Text)
  unfolding find_region get_regions get_json lstrip rstrip
  resolve_region_id name_substr r = do
    body ← get_json r
    states ← get_regions body
    find_region (lower (rstrip P (lstrip P name_substr))) states
