-- ===== src/Shared/Constants.antt =====
-- core_shared/constants.py: the constants of delivery, with times in seconds. U+FE0F is written as a
-- code point.
use alert_bot_project.Common.{ℕ, ◌*◌, ◌∷◌, ◌++◌, Text, codes}

abbrev pub dislocs_per_page : ℕ
dislocs_per_page = 5

abbrev pub max_custom_triggers : ℕ
max_custom_triggers = 5

abbrev pub max_global_custom_triggers : ℕ
max_global_custom_triggers = 5000

abbrev pub source_replay_horizon_seconds : ℕ
source_replay_horizon_seconds = 30 * 24 * 60 * 60

abbrev pub alert_delay_1 : ℕ
alert_delay_1 = 60

abbrev pub alert_delay_2 : ℕ
alert_delay_2 = 300

unfoldable pub alert_first : Text
alert_first =
    codes
      "🚨 <b>Можлива повітряна загроза у вибраній зоні.</b> Автоматичний збіг у повідомленні джерела; перевірте офіційні сповіщення та дійте за їхніми вказівками."

unfoldable pub alert_second : Text
alert_second =
    codes "⚠"
    ++ 0xfe0f
      ∷ codes
          " <b>Нагадування про попередній сигнал.</b> Перевірте поточний стан у офіційних джерелах."

unfoldable pub alert_third : Text
alert_third =
    codes "⚠"
    ++ 0xfe0f
      ∷ codes
          " <b>Повторне нагадування.</b> Оцініть актуальну обстановку за офіційними повідомленнями."
