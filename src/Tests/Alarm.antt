-- ===== src/Tests/Alarm.antt =====
-- Witnesses for the poller of the official alarm.
use alert_bot_project.Common.{ℕ, pos, codes, ◌≡◌, refl, true, none, some, inl, [], ◌∷◌, arith}
use alert_bot_project.Redis.Memory.{memory, no_keys}
use alert_bot_project.Shared.Json.{Json, int, arr, obj, nil, cons, end, member}
use alert_bot_project.Services.Alarm.{
  no_response, response, get_status_index, get_region_alerts, get_json,
}
use alert_bot_project.Services.Alarm.Poller.{
  Settings, Poller, Round, written_state, refreshed, poll_region, run, check_official_air_alarm,
}
use alert_bot_project.Services.Alarm.Poller.Fallback.{IsDown, alarm-FallsBack}
use alert_bot_project.Services.Alarm.Poller.Fresh.{IsRead, IsKept, poll_region-IsFresh}
use alert_bot_project.Tests.{platform}

abbrev pub alarm : Settings
alarm = record { region_name = codes "odesa"; failsafe = true }

abbrev air : Json
air = arr (
    cons
      (obj (
        member (codes "activeAlerts")
          (arr (cons (obj (member (codes "type") (Json.str (codes "AIR")) end)) nil)) end))
      nil)

abbrev round_at : ℕ → Round
round_at t = record {
  regions = no_response;
  status = response 200 (some (obj (member (codes "lastActionIndex") (int (pos 4)) end)));
  alerts = response 200 (some air);
  checked = t;
  written = t;
  failed = t;
  clock = t;
  expire_answers = true;
  set_answers = true;
  failsafe_answers = true;
}

abbrev down_at : ℕ → Round
down_at t = record (round_at t) { status = no_response; alerts = response 500 none }

abbrev poller : Poller
poller = record { region_id = codes "18"; last_index = none; last_success_ts = 0 }

is_down : (t : ℕ) → IsDown platform memory alarm (down_at t)
unfolding get_status_index get_region_alerts get_json
is_down t = ((_, refl), (_, refl))

alarm-FallsBack_example :
    check_official_air_alarm platform memory alarm 95000 true
      (run platform memory alarm
        (down_at 20000 ∷ down_at 35000 ∷ [])
        (run platform memory alarm (round_at 5000 ∷ []) poller no_keys).0
        (run platform memory alarm (round_at 5000 ∷ []) poller no_keys).1).1
    ≡ true
alarm-FallsBack_example =
    alarm-FallsBack platform memory alarm 5000 95000 (round_at 5000 ∷ [])
      (down_at 20000 ∷ down_at 35000 ∷ []) poller no_keys true (λ u h. inl refl) (omega arith, tt)
      (is_down 20000, (is_down 35000, tt)) (omega arith)

poll_region-IsFresh_example :
    ((poll_region platform memory alarm (round_at 5000) poller no_keys).0 ≡ written_state
      → IsRead platform memory alarm
          (round_at 5000)
          (poll_region platform memory alarm (round_at 5000) poller no_keys).2)
    × ((poll_region platform memory alarm (round_at 5000) poller no_keys).0 ≡ refreshed
        → IsKept platform memory alarm
            (round_at 5000)
            poller
            no_keys
            (poll_region platform memory alarm (round_at 5000) poller no_keys).2)
poll_region-IsFresh_example =
    poll_region-IsFresh platform memory alarm (round_at 5000) poller no_keys
