-- ===== src/Shared/Platform.antt =====
-- What the program calls and does not implement: character classes of Unicode, the readers of JSON
-- and of datetimes, and the numbers of Lua as texts. An instant is a count of microseconds since
-- the year 1 (`datetime.min`), in UTC.
use alert_bot_project.Common.{ℕ, ◌+◌, ◌*◌, Text, Bool, Option, List}
use alert_bot_project.Shared.Json.{Json}

pub record Platform : Type 0 where
  -- str.isalnum and the class \w, of one character
  pub is_alnum : ℕ → Bool
  pub is_word : ℕ → Bool
  -- json.loads, cjson.decode; none is an error
  pub loads : Text → Option Json
  pub decode : Text → Option Json
  -- json.dumps
  pub dumps : Json → Text
  -- pydantic's AwareDatetime from a text; none is a validation error
  pub read_time : Text → Option ℕ
  -- datetime.isoformat, and an instant in Kyiv to the minute
  pub isoformat : ℕ → Text
  pub kyiv_minute : ℕ → Text
  -- string.format('%.0f', n) of a JSON number, tostring(v) of a JSON value that is not a text
  pub format_0f : Json → Text
  pub tostring : Json → Text
  -- str.lower, str.upper, and str.isspace of one character
  pub lower : Text → Text
  pub upper : Text → Text
  pub is_space : ℕ → Bool
  -- re.compile(pattern, re.IGNORECASE): whether search finds a match, and the parts of split
  pub search_ignorecase : Text → Text → Bool
  pub split_ignorecase : Text → Text → List Text
  -- str(v) of a JSON value that is no text, number or null
  pub py_str : Json → Text

-- The clock of Redis and of `time.time()`, in milliseconds since 1970, as an instant.
abbrev pub instant : ℕ → ℕ
instant ms = 62135596800000000 + ms * 1000
