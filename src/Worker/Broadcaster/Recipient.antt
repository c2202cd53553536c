-- ===== src/Worker/Broadcaster/Recipient.antt =====
-- worker/broadcaster.py: how the scripts read the recipient of a payload and its fence, stated on
-- the decoded JSON and on the keys.
use alert_bot_project.Common.{
  ℕ, ◌≡◌, ◌≢◌, refl, Text, Text-discrete, codes, true, false, Option, none, some, ◌⊎◌, inl, inr,
  arith, Option-cases, ap, sym, subst, ◌∙◌,
}
use alert_bot_project.Redis.{Redis, deleted, generation}
use alert_bot_project.Shared.Json.{Json, null, bool, int, float, arr, obj, Members, find_last}
use alert_bot_project.Shared.Platform.{Platform}
use alert_bot_project.Services.Privacy.{generation_of}
use alert_bot_project.Worker.Broadcaster.{
  absent, id, fault, lua_value, lua_object, lua_id, lua_generation_of, lua_generation, allowed,
}

module _ (P : Platform) where
  open P use {decode, format_0f, tostring}

  -- A text or a number as the id of a chat.
  abbrev pub IsId : Option Json → Text → Type 0
  IsId (some (Json.str t)) chat = chat ≡ t
  IsId (some (int n)) chat = chat ≡ format_0f (int n)
  IsId (some (float t)) chat = chat ≡ format_0f (float t)
  IsId _ chat = ⊥

  -- No value, or false.
  abbrev pub IsAbsent : Option Json → Type 0
  IsAbsent none = Unit
  IsAbsent (some (bool false)) = Unit
  IsAbsent _ = ⊥

  -- A value that is neither: null, true, a list or an object.
  abbrev pub IsNoId : Option Json → Type 0
  IsNoId (some null) = Unit
  IsNoId (some (bool true)) = Unit
  IsNoId (some (arr xs)) = Unit
  IsNoId (some (obj ms)) = Unit
  IsNoId _ = ⊥

  -- The generation of a job: 0 where there is none or false, a text as it is, else its printed form.
  abbrev pub IsGeneration : Option Json → Text → Type 0
  IsGeneration none g = g ≡ codes "0"
  IsGeneration (some (bool false)) g = g ≡ codes "0"
  IsGeneration (some (Json.str t)) g = g ≡ t
  IsGeneration (some v) g = g ≡ tostring v

  -- The payload is an object that names this chat and this generation.
  pub record Names (payload chat g : Text) : Type 0 where
    pub members : Members
    pub decoded : decode payload ≡ some (obj members)
    pub chat_id : IsId (find_last (codes "chat_id") members) chat
    pub recipient_generation : IsGeneration (find_last (codes "recipient_generation") members) g

  abbrev IsNamelessValue : Option Json → Type 0
  IsNamelessValue (some (obj ms)) = IsAbsent (find_last (codes "chat_id") ms)
  IsNamelessValue _ = Unit

  -- The payload is no object, or one without a chat.
  abbrev pub IsNameless : Text → Type 0
  IsNameless payload = IsNamelessValue (decode payload)

  -- The payload is an object whose chat is neither a text nor a number.
  pub record IsUnreadable (payload : Text) : Type 0 where
    pub members : Members
    pub decoded : decode payload ≡ some (obj members)
    pub chat_id : IsNoId (find_last (codes "chat_id") members)

  -- What the scripts read of a value.
  value-cases :
      (o : Option Json)
      → ((chat : Text) × (lua_value P o ≡ id chat) × IsId o chat)
        ⊎ (((lua_value P o ≡ absent) × IsAbsent o) ⊎ ((lua_value P o ≡ fault) × IsNoId o))
  unfolding lua_value
  value-cases none = inr (inl (refl, tt))
  value-cases (some null) = inr (inr (refl, tt))
  value-cases (some (bool true)) = inr (inr (refl, tt))
  value-cases (some (bool false)) = inr (inl (refl, tt))
  value-cases (some (int n)) = inl (format_0f (int n), refl, refl)
  value-cases (some (float t)) = inl (format_0f (float t), refl, refl)
  value-cases (some (Json.str t)) = inl (t, refl, refl)
  value-cases (some (arr xs)) = inr (inr (refl, tt))
  value-cases (some (obj ms)) = inr (inr (refl, tt))

  lua_generation_of-IsGeneration : (o : Option Json) → IsGeneration o (lua_generation_of P o)
  unfolding lua_generation_of
  lua_generation_of-IsGeneration none = refl
  lua_generation_of-IsGeneration (some null) = refl
  lua_generation_of-IsGeneration (some (bool true)) = refl
  lua_generation_of-IsGeneration (some (bool false)) = refl
  lua_generation_of-IsGeneration (some (int n)) = refl
  lua_generation_of-IsGeneration (some (float t)) = refl
  lua_generation_of-IsGeneration (some (Json.str t)) = refl
  lua_generation_of-IsGeneration (some (arr xs)) = refl
  lua_generation_of-IsGeneration (some (obj ms)) = refl

  -- A payload names a chat, or none, or one that the scripts cannot read.
  abbrev pub Recipient : Text → Type 0
  Recipient payload =
      ((chat : Text) × (lua_id P payload ≡ id chat) × Names payload chat (lua_generation P payload))
      ⊎ (((lua_id P payload ≡ absent) × IsNameless payload)
          ⊎ ((lua_id P payload ≡ fault) × IsUnreadable payload))

  object-Recipient :
      (payload : Text) (ms : Members) → decode payload ≡ some (obj ms) → Recipient payload
  unfolding lua_id lua_object lua_generation
  object-Recipient payload ms e = elim (value-cases (find_last (codes "chat_id") ms)) [
    | inl (chat, v, is) ↦ inl (
      chat,
      rw e v,
      record {
        members = ms;
        decoded = e;
        chat_id = is;
        recipient_generation =
            rw (e, lua_generation)
              (lua_generation_of-IsGeneration (find_last (codes "recipient_generation") ms));
      },
    )
    | inr (inl (v, is)) ↦ inr (inl (rw e v, subst IsNamelessValue (sym e) is))
    | inr (inr (v, is)) ↦ inr (inr (rw e v, record { members = ms; decoded = e; chat_id = is }))
  ]

  pub recipient : (payload : Text) → Recipient payload
  unfolding lua_id lua_object
  recipient payload = by_value (decode payload) refl
    where
      bare :
          (d : Option Json)
          → decode payload ≡ d
          → lua_object P d ≡ absent
          → IsNamelessValue d
          → Recipient payload
      bare d e a n = inr (inl (ap (lua_object P) e ∙ a, subst IsNamelessValue (sym e) n))

      by_value : (d : Option Json) → decode payload ≡ d → Recipient payload
      by_value none e = bare none e refl tt
      by_value (some (obj ms)) e = object-Recipient payload ms e
      by_value (some null) e = bare (some null) e refl tt
      by_value (some (bool b)) e = bare (some (bool b)) e refl tt
      by_value (some (int n)) e = bare (some (int n)) e refl tt
      by_value (some (float t)) e = bare (some (float t)) e refl tt
      by_value (some (Json.str t)) e = bare (some (Json.str t)) e refl tt
      by_value (some (arr xs)) e = bare (some (arr xs)) e refl tt

module _ (R : Redis) where
  open R use {Keys, get}

  -- The fence of a chat is down, and the chat has this generation.
  abbrev pub IsFree : ℕ → Text → Text → Keys → Type 0
  IsFree now chat g s =
      (get now s (deleted chat) ≡ none) × (generation_of (get now s (generation chat)) ≡ g)

  -- A deletion has fenced the chat, or it has another generation.
  abbrev pub IsFenced : ℕ → Text → Text → Keys → Type 0
  IsFenced now chat g s =
      (get now s (deleted chat) ≢ none) ⊎ (generation_of (get now s (generation chat)) ≢ g)

  pub allowed-cases :
      (now : ℕ) (chat g : Text) (s : Keys)
      → ((allowed R now chat g s ≡ true) × IsFree now chat g s)
        ⊎ ((allowed R now chat g s ≡ false) × IsFenced now chat g s)
  unfolding allowed
  allowed-cases now chat g s = elim (Option-cases (get now s (deleted chat))) [
    | inl e ↦ elim (Text-discrete (generation_of (get now s (generation chat))) g) [
      | yes same ↦ inl (ground arith, (e, same))
      | no other ↦ inr (ground arith, inr other)
    ]
    | inr (v, e) ↦ inr (ground arith, inl (λ x. ground arith))
  ]
