-- ===== src/Worker/Contract/Identity.antt =====
-- worker/delivery_contract.py: the fields of a chat and of an event read what `str` and the identity
-- of a stage write.
use alert_bot_project.Common.{
  ℕ, ◌≤◌, ◌≡◌, ◌≢◌, refl, ap, ℤ, pos, negsuc, str, Text, codes, Bool, true, some, [], ◌∷◌, ◌++◌,
  All, All-append, All-map, all, length, length-append, arith, inl, inr,
}
use alert_bot_project.Shared.Json.{Json}
use alert_bot_project.Shared.Platform.{Platform}
use alert_bot_project.Worker.Contract.{
  field_chat, canonical_chat_id, field_event, identity, event_char,
}
use alert_bot_project.Worker.Job.{in_id_range, nonzero}
use alert_bot_project.Worker.Job.Decimal.{read_int-str, length-str-le, str-IsNumeral, IsNumeral}

-- `str` of a number in range is accepted as a chat.
pub field_chat-str :
    (z : ℤ) → in_id_range z ≡ true → z ≢ pos 0 → field_chat (some (Json.str (str z))) ≡ some z
unfolding field_chat canonical_chat_id nonzero
field_chat-str (pos n) h ne =
    let other : n ≢ 0 = λ e. ne (ap pos e) in ground (arith, read_int-str (pos n), h, other)
field_chat-str (negsuc n) h ne = ground (arith, read_int-str (negsuc n), h)

module _ (P : Platform) where
  open P use {is_word, loads, dumps, read_time, isoformat}

  all_chars : (p : ℕ → Bool) (t : Text) → All (λ c. p c ≡ true) t → all p t ≡ true
  all_chars p [] h = refl
  all_chars p (c ∷ cs) h = ground (arith, h.0, all_chars p cs h.1)

  module _ (digit_is_word : (c : ℕ) → 48 ≤ c → c ≤ 57 → is_word c ≡ true) where
    abbrev IsEventChar : ℕ → Type 0
    IsEventChar c = event_char P c ≡ true

    numeral-IsEventChar : (c : ℕ) → IsNumeral c → IsEventChar c
    numeral-IsEventChar c (inl (low, high)) = ground (arith, digit_is_word c low high)
    numeral-IsEventChar c (inr sign) = ground (arith, sign)

    str-IsEventChar : (z : ℤ) → All IsEventChar (str z)
    str-IsEventChar z = All-map IsNumeral IsEventChar (str z) numeral-IsEventChar (str-IsNumeral z)

    colon_next : (t : Text) → All IsEventChar t → All IsEventChar (codes ":" ++ t)
    colon_next t h = (ground arith, h)

    identity-IsEventChar :
        (source : ℤ) (m : ℕ) (chat : ℤ) → All IsEventChar (identity source m chat)
    unfolding identity
    identity-IsEventChar source m chat =
        All-append IsEventChar (str source) _ (str-IsEventChar source) (
          colon_next _ (
            All-append IsEventChar (str (pos m)) _ (str-IsEventChar (pos m))
              (colon_next _ (str-IsEventChar chat))))

    length-identity-le :
        (source : ℤ) (m : ℕ) (chat : ℤ)
        → in_id_range source ≡ true
        → in_id_range (pos m) ≡ true
        → in_id_range chat ≡ true
        → (1 ≤ length (identity source m chat)) × (length (identity source m chat) ≤ 128)
    unfolding identity
    length-identity-le source m chat hs hm hc = ground (
      arith,
      length-append (str source) (58 ∷ (str (pos m) ++ 58 ∷ str chat)),
      length-append (str (pos m)) (58 ∷ str chat),
      length-str-le source hs,
      length-str-le (pos m) hm,
      length-str-le chat hc,
    )

    pub field_event-identity :
        (source : ℤ) (m : ℕ) (chat : ℤ)
        → in_id_range source ≡ true
        → in_id_range (pos m) ≡ true
        → in_id_range chat ≡ true
        → field_event P (some (Json.str (identity source m chat)))
          ≡ some (some (identity source m chat))
    unfolding field_event
    field_event-identity source m chat hs hm hc = ground (
      arith,
      length-identity-le source m chat hs hm hc,
      all_chars (event_char P) (identity source m chat) (identity-IsEventChar source m chat),
    )
