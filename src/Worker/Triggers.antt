-- ===== src/Worker/Triggers.antt =====
-- worker/main.py, `_resolve_trigger_words`: whether a post is sent out, and to which subscribers. A
-- set is the list of its elements.
pub mod Decision
use alert_bot_project.Common.{
  Text, codes, Bool, true, false, not, ◌&&◌, ◌||◌, Option, none, some, List, [], ◌∷◌, ◌++◌,
  if◌then◌else◌, is_empty,
}

unfoldable pub resolve_trigger_words : List Text → List Text → List Text → Bool → Option (List Text)
resolve_trigger_words categories locations matched_custom official_alarm_active =
    if not official_alarm_active
      && (is_empty categories || (is_empty locations && is_empty matched_custom))
    then none
    else if official_alarm_active && (is_empty locations && is_empty matched_custom)
    then (if not (is_empty categories) then some (codes "city" ∷ []) else none)
    else some (locations ++ matched_custom)
