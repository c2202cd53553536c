-- ===== src/Worker/Job.antt =====
-- worker/delivery_contract.py: the job of a delivery, and the fields that need nothing from outside.
-- All errors of the validation are one `none`: every caller handles them alike.
pub mod Decimal
use alert_bot_project.Common.{
  ℕ, ◌+◌, ◌-◌, ◌*◌, ℤ, pos, negsuc, str, Text, codes, Bool, true, false, ◌&&◌, ◌||◌, Option, none,
  some, List, [], ◌∷◌, ◌++◌, ltb, leb, ◌==◌, if◌then◌else◌, length,
}
pub use alert_bot_project.Common.{same}
use alert_bot_project.Shared.Json.{Json, null, bool, int, Items, nil, cons, Members, end, member}

infixl 5 ◌>>=◌ ◌>>◌
abbrev pub ◌>>=◌ {ℓ κ} : {A : Type ℓ} {B : Type κ} → Option A → (A → Option B) → Option B
none >>= f = none
some a >>= f = f a

abbrev pub ◌>>◌ {ℓ} : {B : Type ℓ} → Option (Unit {0}) → Option B → Option B
m >> k = m >>= λ _. k

abbrev pub check : Bool → Option (Unit {0})
check true = some tt
check false = none

abbrev pub second : ℕ
second = 1000000

abbrev pub max_job_bytes : ℕ
max_job_bytes = 32768

abbrev pub freshness_seconds : ℕ
freshness_seconds = 600

abbrev pub max_delivery_age_seconds : ℕ
max_delivery_age_seconds = 604800

-- DeliveryJob
pub record DeliveryJob : Type 0 where
  pub chat_id : ℤ
  pub step : ℕ
  pub text : Text
  pub silent : Bool
  pub event_id : Option Text
  pub source_chat_id : Option ℤ
  pub source_message_id : Option ℕ
  pub source_timestamp : Option ℕ
  pub source_locations : List Text
  pub recipient_generation : Text

-- ge=-(2**53 - 1), le=2**53 - 1
abbrev pub in_id_range : ℤ → Bool
in_id_range (pos n) = leb n 9007199254740991
in_id_range (negsuc n) = ltb n 9007199254740991

-- The number of a run of ASCII digits, after the number `n` of the digits before.
pub digits_value : ℕ → Text → Option ℕ
digits_value n [] = some n
digits_value n (c ∷ cs) =
    let rest = digits_value (n * 10 + (c - 48)) cs in if leb 48 c && leb c 57 then rest else none

pub magnitude : Text → Option ℕ
magnitude [] = none
magnitude (c ∷ cs) = digits_value 0 (c ∷ cs)

pub negated : ℕ → ℤ
negated n = if n == 0 then pos 0 else negsuc (n - 1)

-- int(value), on the texts that `str` makes; it reads others too, which the caller rejects
unfoldable pub read_int : Text → Option ℤ
unfolding digits_value magnitude negated
read_int [] = none
read_int (c ∷ cs) =
    if c == b'-'
    then (do n ← magnitude cs; some (negated n))
    else (do n ← magnitude (c ∷ cs); some (pos n))

unfoldable pub nonzero : ℤ → Option ℤ
nonzero n = elim n [ pos k ↦ if k == 0 then none else some (pos k) | negsuc k ↦ some (negsuc k) ]

-- canonical_chat_id
unfoldable pub canonical_chat_id : Json → Option ℤ
unfolding read_int nonzero
canonical_chat_id (int n) = nonzero n
canonical_chat_id (Json.str t) = do n ← read_int t; check (same t (str n)); nonzero n
canonical_chat_id _ = none

-- f"{source_chat_id}:{source_message_id}:{chat_id}"
unfoldable pub identity : ℤ → ℕ → ℤ → Text
identity source message chat =
    str source ++ (codes ":" ++ (str (pos message) ++ (codes ":" ++ str chat)))

unfoldable pub text_items : Items → Option (List Text)
text_items nil = some []
text_items (cons (Json.str t) xs) = do ts ← text_items xs; some (t ∷ ts)
text_items (cons _ xs) = none

-- value.replace("_", "").replace("-", "")
abbrev pub without_joiners : Text → Text
without_joiners [] = []
without_joiners (c ∷ cs) =
    let rest = without_joiners cs in if c == b'_' || c == b'-' then rest else c ∷ rest

known_names : List Text
known_names =
    codes "chat_id"
    ∷ codes "step"
    ∷ codes "text"
    ∷ codes "silent"
    ∷ codes "event_id"
    ∷ codes "source_chat_id"
    ∷ codes "source_message_id"
    ∷ codes "source_timestamp"
    ∷ codes "source_locations"
    ∷ codes "recipient_generation"
    ∷ []

contains : Text → List Text → Bool
contains t [] = false
contains t (x ∷ xs) = same t x || contains t xs

-- extra="forbid"
unfoldable pub only_known : Members → Bool
unfolding known_names contains
only_known end = true
only_known (member k v ms) = contains k known_names && only_known ms

-- The validators of the fields, on what the object holds under the field's name.
abbrev pub bounded_text : ℕ → Text → Option Text
bounded_text limit t = if leb 1 (length t) && leb (length t) limit then some t else none

unfoldable pub field_step : Option Json → Option ℕ
field_step (some (int (pos n))) = if leb 1 n && leb n 3 then some n else none
field_step _ = none

unfoldable pub field_text : Option Json → Option Text
field_text (some (Json.str t)) = bounded_text 4096 t
field_text _ = none

unfoldable pub field_silent : Option Json → Option Bool
field_silent none = some false
field_silent (some (bool b)) = some b
field_silent (some _) = none

unfoldable pub field_source_chat : Option Json → Option (Option ℤ)
field_source_chat none = some none
field_source_chat (some null) = some none
field_source_chat (some (int n)) = if in_id_range n then some (some n) else none
field_source_chat (some _) = none

unfoldable pub field_source_message : Option Json → Option (Option ℕ)
field_source_message none = some none
field_source_message (some null) = some none
field_source_message (some (int (pos n))) =
    if ltb 0 n && leb n 2147483647 then some (some n) else none
field_source_message (some _) = none

unfoldable pub field_generation : Option Json → Option Text
field_generation none = some (codes "0")
field_generation (some (Json.str t)) = bounded_text 64 t
field_generation (some _) = none

unfoldable pub field_chat : Option Json → Option ℤ
field_chat none = none
field_chat (some v) = do n ← canonical_chat_id v; check (in_id_range n); some n

-- consistent_identity
abbrev pub is_event : Option Text → Text → Bool
is_event none t = false
is_event (some e) t = same e t

-- The source is given whole or not at all, and then it names the event.
source_consistent : Option ℤ → Option ℕ → Option Text → ℤ → Bool
source_consistent none none event chat = true
source_consistent (some c) (some m) event chat = is_event event (identity c m chat)
source_consistent _ _ event chat = false

event_consistent : ℕ → Option Text → Bool
event_consistent step none = leb step 1
event_consistent step (some e) = true

unfoldable pub consistent_identity : DeliveryJob → Bool
unfolding source_consistent event_consistent
consistent_identity j =
    source_consistent j.source_chat_id j.source_message_id j.event_id j.chat_id
    && event_consistent j.step j.event_id
