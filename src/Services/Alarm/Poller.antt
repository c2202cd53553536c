-- ===== src/Services/Alarm/Poller.antt =====
-- services/ukrainealarm.py, `AlarmStatePoller`, and worker/main.py, `check_official_air_alarm`, which
-- reads what it writes. A round of the loop is given by what it meets: the responses of the API,
-- the clocks and the failures of Redis. `time.monotonic()` and the clock of Redis are in
-- milliseconds, and no reading of time.monotonic() lies before an earlier one.
pub mod Fallback
pub mod Fresh
use alert_bot_project.Common.{
  ℕ, ◌-◌, ◌*◌, ◌≡◌, Text, Text-discrete, codes, Bool, true, false, not, ◌&&◌, ◌||◌, Option, none,
  some, ◌⊎◌, inl, inr, List, [], ◌∷◌, ◌==◌, leb, ltb, if◌then◌else◌, ite,
}
use alert_bot_project.Redis.{Value, Value-discrete, word, Redis, official_alarm}
use alert_bot_project.Shared.Platform.{Platform}
use alert_bot_project.Services.Privacy.{exists, is_token}
use alert_bot_project.Services.Alarm.{
  HttpResponse, ApiError, unknown_region, Answer, get_status_index, get_region_alerts,
  is_air_active, resolve_region_id,
}

-- self._region_name and config.OFFICIAL_ALARM_FAILSAFE
pub record Settings : Type 0 where
  pub region_name : Text
  pub failsafe : Bool

-- the default of state_ttl, in milliseconds, and _failsafe_after
abbrev pub state_ttl : ℕ
state_ttl = 90000

abbrev pub failsafe_after : ℕ
failsafe_after = state_ttl * 2

-- _region_id, _last_index and _last_success_ts of the poller; "" is no region.
pub record Poller : Type 0 where
  pub region_id : Text
  pub last_index : Option ℕ
  pub last_success_ts : ℕ

-- What a round meets.
pub record Round : Type 0 where
  pub regions : HttpResponse
  pub status : HttpResponse
  pub alerts : HttpResponse
  -- time.monotonic() at the check of the age, at the write and at the failsafe
  pub checked : ℕ
  pub written : ℕ
  pub failed : ℕ
  -- the clock of Redis when it runs the command of the round
  pub clock : ℕ
  -- whether Redis answers EXPIRE, the SET of the state and that of the failsafe; a command that
  -- fails is not carried out
  pub expire_answers : Bool
  pub set_answers : Bool
  pub failsafe_answers : Bool

abbrev pub state_word : Bool → Value
state_word active = word (if active then codes "1" else codes "0")

abbrev is_none : Option ℕ → Bool
is_none none = true
is_none (some n) = false

abbrev same_index : Option ℕ → Option ℕ → Bool
same_index (some m) (some n) = m == n
same_index none none = true
same_index _ _ = false

-- get_status_index_safe
abbrev pub index_safe : Answer ℕ → Option ℕ
index_safe (inl e) = none
index_safe (inr n) = some n

-- `self._last_index = index` if it is known
abbrev kept_index : Option ℕ → Option ℕ → Option ℕ
kept_index none last = last
kept_index (some n) last = some n

-- How _poll_once ends: it returns, or raises.
pub data Ending : Type 0 where
  refreshed written_state raised : Ending

-- _resolve_region: the region, or none for the error of _poll_once
abbrev pub region_of : Answer (Option Text) → Option Text
region_of (inr (some (c ∷ cs))) = some (c ∷ cs)
region_of _ = none

module _ (P : Platform) (R : Redis) (c : Settings) where
  open R use {Keys, get, set_px, expire}

  unfoldable pub resolve_region : Round → Text → Option Text
  resolve_region r (i ∷ is) = some (i ∷ is)
  resolve_region r [] = region_of (resolve_region_id P c.region_name r.regions)

  -- _write_state
  unfoldable pub write_state : ℕ → Bool → Keys → Keys
  write_state clock active s = set_px clock official_alarm (state_word active) state_ttl s

  unfoldable pub need_full : Option ℕ → ℕ → Poller → Bool
  need_full index now p =
      is_none index
      || (not (same_index index p.last_index) || leb state_ttl ((now - p.last_success_ts) * 2))

  -- the part of _poll_once from the full poll on
  unfoldable pub full_poll : Round → Option ℕ → Poller → Keys → Ending × Poller × Keys
  unfolding write_state
  full_poll r index p s = elim (get_region_alerts r.alerts) [
    | inl e ↦ (raised, p, s)
    | inr found ↦
        if r.set_answers
        then (
          written_state,
          record p { last_success_ts = r.written; last_index = kept_index index p.last_index },
          write_state r.clock (is_air_active P found) s,
        )
        else (raised, p, s)
  ]

  -- _poll_once where the region is known
  unfoldable pub poll_region : Round → Poller → Keys → Ending × Poller × Keys
  unfolding need_full full_poll
  poll_region r p s =
      let index = index_safe (get_status_index r.status) in
      let full = full_poll r index p s in
      if need_full index r.checked p
      then full
      else if not r.expire_answers
      then (raised, p, s)
      else if exists (get r.clock s official_alarm)
      then (refreshed, p, expire r.clock official_alarm state_ttl s)
      else full

  unfoldable pub poll_once : Round → Poller → Keys → Ending × Poller × Keys
  unfolding poll_region resolve_region
  poll_once r p s = elim (resolve_region r p.region_id) [
    | none ↦ (raised, p, s)
    | some region ↦ poll_region r (record p { region_id = region }) s
  ]

  -- _maybe_failsafe; a failure of its SET ends the loop, and with it the poller.
  unfoldable pub maybe_failsafe : Round → Poller → Keys → Bool × Keys
  maybe_failsafe r p s =
      if ltb 0 p.last_success_ts && ltb (r.failed - p.last_success_ts) failsafe_after
      then (true, s)
      else if r.failsafe_answers
      then (true, set_px r.clock official_alarm (state_word c.failsafe) state_ttl s)
      else (false, s)

  -- The body of the loop of run: whether the loop goes on, the poller and the keys.
  unfoldable pub round : Round → Poller → Keys → Bool × Poller × Keys
  unfolding poll_once maybe_failsafe
  round r p s =
      let (ending, p', s') = poll_once r p s in
      let (goes_on, s'') = maybe_failsafe r p' s' in
      elim ending [ raised ↦ (goes_on, p', s'') | _ ↦ (true, p', s') ]

  -- The loop of run of a poller with an API key, until the shutdown or an error of the failsafe.
  unfoldable pub run : List Round → Poller → Keys → Poller × Keys
  unfolding round
  run [] p s = (p, s)
  run (r ∷ rs) p s =
      let (goes_on, p', s') = round r p s in
      let rest = run rs p' s' in if goes_on then rest else (p', s')

  -- check_official_air_alarm; `answers` is false for a RedisError.
  unfoldable pub check_official_air_alarm : ℕ → Bool → Keys → Bool
  unfolding is_token
  check_official_air_alarm now answers s =
      let cached = get now s official_alarm in
      if answers && exists cached then is_token cached (codes "1") else c.failsafe
