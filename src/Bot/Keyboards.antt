-- ===== src/Bot/Keyboards.antt =====
-- core_shared/callbacks.py and bot/keyboards/builders.py: the buttons of the menus. The packing of
-- callback data into texts and the rows of a keyboard are the framework's; a keyboard is the list of
-- its buttons in order.
pub mod Pages
use alert_bot_project.Common.{
  ℕ, zero, suc, ◌+◌, ◌-◌, ◌*◌, ◌/◌, min, ℤ, pos, negsuc, Text, codes, Bool, true, false, Option,
  some, none, List, [], ◌∷◌, ◌++◌, map, ltb, if◌then◌else◌, length, take, drop, same, is_in,
}
use alert_bot_project.Shared.Constants.{dislocs_per_page}
use alert_bot_project.Shared.Places.{Place, Category, kr_potvory, presented}
use alert_bot_project.Shared.Places.Odesa.{odesa_locs}
use alert_bot_project.Shared.Places.Outside.{outside_locs}

-- The data of a button: one of the callback classes, or a plain path of the menu.
pub data CallbackData : Type 0 where
  path : Text → CallbackData
  -- GroupNavCallback: group, page
  nav_group : Text → ℤ → CallbackData
  -- LocationToggleCallback: group, location_key, page
  loc_toggle : Text → Text → ℤ → CallbackData
  cat_toggle : Text → CallbackData
  mute_set : Text → CallbackData
  -- CustomActionCallback: action, phrase
  custom_act : Text → Option Text → CallbackData

pub record Button : Type 0 where
  pub text : Text
  pub callback_data : CallbackData

abbrev pub button : Text → CallbackData → Button
button t d = record { text = t; callback_data = d }

abbrev pub menu_main : Text
menu_main = codes "menu:main"

abbrev pub menu_choose_group : Text
menu_choose_group = codes "menu:choose_group"

abbrev pub menu_custom_manage : Text
menu_custom_manage = codes "menu:custom_manage"

abbrev pub menu_potvory : Text
menu_potvory = codes "menu:potvory"

abbrev pub menu_mute : Text
menu_mute = codes "menu:mute"

abbrev pub menu_info : Text
menu_info = codes "menu:info"

abbrev pub custom_add : Text
custom_add = codes "custom:add"

abbrev pub alert_ack : Text
alert_ack = codes "alert:ack"

abbrev pub back_button_text : Text
back_button_text = presented "⬅" ++ codes " Назад"

unfoldable build_back_to_main_keyboard : List Button
build_back_to_main_keyboard = button back_button_text (path menu_main) ∷ []

unfoldable build_main_menu : List Button
build_main_menu =
    button (codes "🌍 Обрати дислокацію") (path menu_choose_group)
    ∷ button (codes "✍" ++ 0xfe0f ∷ codes " Мої кастомні фрази") (path menu_custom_manage)
    ∷ button (codes "🦅 Крилаті потвори") (path menu_potvory)
    ∷ button (codes "🔕 Режим тиші (MUTE)") (path menu_mute)
    ∷ button (codes "ℹ" ++ 0xfe0f ∷ codes " Інформація") (path menu_info)
    ∷ []

unfoldable build_group_selection_menu : List Button
build_group_selection_menu =
    button (presented "🏙" ++ codes " Одеса (Райони)") (nav_group (codes "odesa") (pos 0))
    ∷ button (presented "🏞" ++ codes " Передмістя / Область") (nav_group (codes "outside") (pos 0))
    ∷ button back_button_text (path menu_main)
    ∷ []

-- source_map of a group
unfoldable pub places_of : Text → List Place
places_of group = if same group (codes "odesa") then odesa_locs else outside_locs

-- Python's (total_items - 1) // DISLOCS_PER_PAGE is -1 for no items, which max with 0 makes 0.
abbrev pub max_page : ℕ → ℕ
max_page total_items = (total_items - 1) / dislocs_per_page

abbrev pub clamp : ℤ → ℕ → ℕ
clamp (negsuc n) total_items = 0
clamp (pos n) total_items = if ltb (max_page total_items) n then max_page total_items else n

abbrev pub end_index : ℕ → ℕ → ℕ
end_index page total_items = min (page * dislocs_per_page + dislocs_per_page) total_items

-- items[start_index:end_index]
abbrev pub shown : ℕ → List Place → List Place
shown page items =
    let start_index = page * dislocs_per_page in
    take (end_index page (length items) - start_index) (drop start_index items)

abbrev status_marker : Bool → Text
status_marker is_active = if is_active then codes "✅" else codes "❌"

abbrev pub location_button : Text → List Text → ℕ → Place → Button
location_button group active page p =
    button (status_marker (is_in p.key active) ++ codes " " ++ p.emoji ++ codes " " ++ p.display)
      (loc_toggle group p.key (pos page))

abbrev pub navigation : Text → ℕ → ℕ → List Button → List Button
navigation group page total_items rest =
    let next =
      if ltb (end_index page total_items) total_items
      then button (codes "Наступні ➡" ++ 0xfe0f ∷ []) (nav_group group (pos (page + 1))) ∷ rest
      else rest in
    if ltb 0 page
    then button (presented "⬅" ++ codes " Попередні") (nav_group group (pos (page - 1))) ∷ next
    else next

abbrev pub footer : List Button
footer =
    button (codes "➕ Додати власну локацію") (path custom_add)
    ∷ button (presented "⬅" ++ codes " Назад до груп") (path menu_choose_group)
    ∷ []

-- The keyboard of a list of places.
abbrev pub keyboard : Text → List Place → List Text → ℕ → List Button
keyboard group items active page =
    map (location_button group active page) (shown page items)
    ++ navigation group page (length items) footer

unfoldable pub build_locations_paginated_keyboard : Text → List Text → ℤ → List Button
unfolding places_of
build_locations_paginated_keyboard group active_user_triggers page =
    let items = places_of group in
    keyboard group items active_user_triggers (clamp page (length items))

phrase_button : Text → Button
phrase_button phrase = button (codes "❌ " ++ phrase) (custom_act (codes "delete") (some phrase))

unfoldable pub build_custom_triggers_management_keyboard : List Text → List Button
unfolding phrase_button
build_custom_triggers_management_keyboard custom_phrases =
    map phrase_button custom_phrases
    ++ (button (codes "➕ Додати нову фразу") (path custom_add)
        ∷ button (presented "⬅" ++ codes " Головне меню") (path menu_main)
        ∷ [])

category_button : List Text → Category → Button
category_button active c =
    button (status_marker (is_in c.name active) ++ codes " " ++ c.name) (cat_toggle c.name)

unfoldable pub build_threat_categories_keyboard : List Text → List Button
unfolding category_button
build_threat_categories_keyboard active_categories =
    map (category_button active_categories) kr_potvory
    ++ (button back_button_text (path menu_main) ∷ [])

unfoldable pub build_mute_options_keyboard : List Button
build_mute_options_keyboard =
    button (codes "🔕 1 година") (mute_set (codes "1"))
    ∷ button (codes "🔕 2 години") (mute_set (codes "2"))
    ∷ button (codes "🔕 4 години") (mute_set (codes "4"))
    ∷ button (codes "😴 До ранку (07:00)") (mute_set (codes "morning"))
    ∷ button (codes "🔔 Увімкнути звук") (mute_set (codes "clear"))
    ∷ button back_button_text (path menu_main)
    ∷ []

unfoldable build_acknowledge_keyboard : List Button
build_acknowledge_keyboard = button (codes "✅ Сповіщення прийнято") (path alert_ack) ∷ []
