-- ===== src/Shared/Json.antt =====
-- JSON values as `json.loads` builds them before its `object_pairs_hook`: an object is the list of
-- its members in order, repeated keys included.
use alert_bot_project.Common.{
  ℤ, Text, Text-discrete, Bool, true, false, not, ◌&&◌, Option, none, some, ite,
}

mutual
  pub data Json : Type 0 where
    null : Json
    bool : Bool → Json
    int : ℤ → Json
    -- a number with a fraction or an exponent, by its text
    float : Text → Json
    str : Text → Json
    arr : Items → Json
    obj : Members → Json

  pub data Items : Type 0 where
    nil : Items
    cons : Json → Items → Items

  pub data Members : Type 0 where
    end : Members
    member : Text → Json → Members → Members

-- value.get(key), where the keys are distinct
unfoldable pub find : Text → Members → Option Json
find k end = none
find k (member j v ms) = ite (Text-discrete j k) (some v) (find k ms)

-- The last member of that name, as cjson builds its table.
unfoldable pub find_last : Text → Members → Option Json
find_last k end = none
find_last k (member j v ms) =
    let here : Option Json = ite (Text-discrete j k) (some v) none in
    let later = find_last k ms in elim later [ none ↦ here | some w ↦ some w ]

abbrev pub has_key : Text → Members → Bool
has_key k end = false
has_key k (member j v ms) = ite (Text-discrete j k) true (has_key k ms)

-- `_unique_object`, the hook of every object inside a value: no repeated member.
unfoldable mutual
  pub is_unique : Json → Bool
  is_unique null = true
  is_unique (bool b) = true
  is_unique (int n) = true
  is_unique (float t) = true
  is_unique (str t) = true
  is_unique (arr xs) = are_unique xs
  is_unique (obj ms) = members_unique ms

  pub are_unique : Items → Bool
  are_unique nil = true
  are_unique (cons x xs) = is_unique x && are_unique xs

  pub members_unique : Members → Bool
  members_unique end = true
  members_unique (member k v ms) = not (has_key k ms) && (is_unique v && members_unique ms)
