-- ===== src/Services/Privacy/Erase/Gone.antt =====
-- services/privacy.py: what is gone from a list, and which payloads are of a user.
use alert_bot_project.Common.{
  ℕ, ◌≡◌, ◌≢◌, refl, sym, subst, ◌∙◌, ap, ℤ, pos, Text, codes, Bool, true, false, Option, none,
  some, List, [], ◌∷◌, filter, arith, Bool-cases, inl, inr, Option-cases,
}
use alert_bot_project.Redis.{Redis}
use alert_bot_project.Shared.Json.{Json, null, bool, int, float, arr, obj, Members, find_last}
use alert_bot_project.Shared.Platform.{Platform}
use alert_bot_project.Services.Privacy.Erase.{
  StreamEntry, Reading, chat_number, caught, no_object, reading, read_chat, read_value,
  other_generation, named, payload_text, names_user, is_obsolete, is_user,
}

-- The second list is the first one without the elements that are gone, in its order.
pub data Without {A : Type 0} (Gone : A → Type 0) : List A → List A → Type 0 where
  nothing : Without Gone [] []
  dropped : {x : A} {xs ys : List A} → Gone x → Without Gone xs ys → Without Gone (x ∷ xs) ys
  kept : {x : A} {xs ys : List A} → ¬ Gone x → Without Gone xs ys → Without Gone (x ∷ xs) (x ∷ ys)

pub filter-Without :
    {A : Type 0} (Gone : A → Type 0) (p : A → Bool) (xs : List A)
    → ((x : A) → (p x ≡ false → Gone x) × (p x ≡ true → ¬ Gone x))
    → Without Gone xs (filter p xs)
unfolding filter
filter-Without Gone p [] h = nothing
filter-Without Gone p (x ∷ xs) h = elim (Bool-cases (p x)) [
  | inl yes' ↦ rw yes' (kept ((h x).1 yes') (filter-Without Gone p xs h))
  | inr no' ↦ rw no' (dropped ((h x).0 no') (filter-Without Gone p xs h))
]

module _ (P : Platform) (R : Redis) (int_of : Json → Option ℤ) where
  open P use {loads}

  -- The number of a chat: 0 without one.
  abbrev pub IsNumber : Option Json → ℤ → Type 0
  IsNumber none n = n ≡ pos 0
  IsNumber (some v) n = int_of v ≡ some n

  -- The payload is an object whose chat is the user.
  pub record IsOf (user : ℕ) (payload : Text) (members : Members) : Type 0 where
    pub decoded : loads payload ≡ some (obj members)
    pub chat_id : IsNumber (find_last (codes "chat_id") members) (pos user)

  abbrev pub text_of : Option Text → Text
  text_of none = codes "{}"
  text_of (some t) = t

  -- An entry of a stream is of the user.
  abbrev pub IsFor : ℕ → StreamEntry → Type 0
  IsFor user e = (ms : Members) × IsOf user (text_of e.payload) ms

  -- The generation of a payload, 0 without one, is not this one.
  abbrev pub IsOther : Text → Option Json → Type 0
  IsOther g none = g ≢ codes "0"
  IsOther g (some v) = v ≢ Json.str g

  -- A payload of the delayed set is of the user and of another generation.
  abbrev pub IsObsolete : ℕ → Text → Text → Type 0
  IsObsolete user g q =
      (ms : Members) × IsOf user q ms × IsOther g (find_last (codes "recipient_generation") ms)

  -- What is read of a member, as a number.
  chat-of :
      (o : Option Json) (read ms : Members) (n : ℤ)
      → read_chat P R int_of o read ≡ chat_number n ms
      → (read ≡ ms) × IsNumber o n
  chat-of none read ms n h = ground arith
  chat-of (some v) read ms n h = elim (Option-cases (int_of v)) [
    | inl e ↦ absurd (ground (arith, e, h))
    | inr (k, e) ↦ (ground (arith, e, h), ground (arith, e, h))
  ]

  of-chat :
      (o : Option Json) (ms : Members) (n : ℤ)
      → IsNumber o n
      → read_chat P R int_of o ms ≡ chat_number n ms
  of-chat none ms n h = ap (λ k. chat_number k ms) (sym h)
  of-chat (some v) ms n h = rw (read_chat, h) refl

  -- What is read of a value, as the number of a chat.
  value-of :
      (d : Option Json) (ms : Members) (n : ℤ)
      → read_value P R int_of d ≡ chat_number n ms
      → (d ≡ some (obj ms)) × IsNumber (find_last (codes "chat_id") ms) n
  value-of none ms n h = absurd (ground arith)
  value-of (some (obj read)) ms n h =
      let (same_members, number) = chat-of (find_last (codes "chat_id") read) read ms n h in
      (
        ap (λ x. some (obj x)) same_members,
        subst (λ x. IsNumber (find_last (codes "chat_id") x) n) same_members number,
      )
  value-of (some null) ms n h = absurd (ground arith)
  value-of (some (bool b)) ms n h = absurd (ground arith)
  value-of (some (int k)) ms n h = absurd (ground arith)
  value-of (some (float t)) ms n h = absurd (ground arith)
  value-of (some (Json.str t)) ms n h = absurd (ground arith)
  value-of (some (arr xs)) ms n h = absurd (ground arith)

  -- A payload is of the user where its chat is read as the user.
  IsOf-reading :
      (payload : Text) (user : ℕ) (ms : Members)
      → reading P R int_of payload ≡ chat_number (pos user) ms
      → IsOf user payload ms
  IsOf-reading payload user ms h =
      let (e, number) = value-of (loads payload) ms (pos user) h in
      record { decoded = e; chat_id = number }

  reading-IsOf :
      (payload : Text) (user : ℕ) (ms : Members)
      → IsOf user payload ms
      → reading P R int_of payload ≡ chat_number (pos user) ms
  reading-IsOf payload user ms h =
      ap (read_value P R int_of) h.decoded
      ∙ of-chat (find_last (codes "chat_id") ms) ms (pos user) h.chat_id

  is_user_lem :
      (user : ℕ) (n : ℤ)
      → (is_user P R int_of user n ≡ true → n ≡ pos user)
        × (n ≡ pos user → is_user P R int_of user n ≡ true)
  is_user_lem user n = (λ h. ground arith, λ h. ground arith)

  named_lem :
      (user : ℕ) (x : Reading)
      → named P R int_of user x ≡ true
      → (ms : Members) × (x ≡ chat_number (pos user) ms)
  named_lem user (chat_number n ms) h = (ms, ap (λ k. chat_number k ms) ((is_user_lem user n).0 h))
  named_lem user caught h = absurd (ground arith)
  named_lem user no_object h = absurd (ground arith)

  text_of_lem : (o : Option Text) → payload_text P R int_of o ≡ text_of o
  text_of_lem none = refl
  text_of_lem (some t) = refl

  -- The test of the code on an entry.
  pub names_user-IsFor :
      (user : ℕ) (e : StreamEntry)
      → (names_user P R int_of user e ≡ true → IsFor user e)
        × (IsFor user e → names_user P R int_of user e ≡ true)
  unfolding names_user
  names_user-IsFor user e = (
    λ h.
        let (ms, read) =
          named_lem user (reading P R int_of (payload_text P R int_of e.payload)) h in
        let read' =
          subst (λ t. reading P R int_of t ≡ chat_number (pos user) ms) (text_of_lem e.payload)
            read in
        (ms, IsOf-reading (text_of e.payload) user ms read'),
    λ h.
        let read = reading-IsOf (text_of e.payload) user h.0 h.1 in
        ap (λ t. named P R int_of user (reading P R int_of t)) (text_of_lem e.payload)
        ∙ ap (named P R int_of user) read
        ∙ (is_user_lem user (pos user)).1 refl,
  )

  other_lem :
      (g : Text) (o : Option Json)
      → (other_generation P R int_of g o ≡ true → IsOther g o)
        × (IsOther g o → other_generation P R int_of g o ≡ true)
  other_lem g none = (λ h e. ground arith, λ h. ground arith)
  other_lem g (some (Json.str t)) = (λ h e. ground arith, λ h. ground arith)
  other_lem g (some null) = (λ h e. ground arith, λ h. refl)
  other_lem g (some (bool b)) = (λ h e. ground arith, λ h. refl)
  other_lem g (some (int n)) = (λ h e. ground arith, λ h. refl)
  other_lem g (some (float t)) = (λ h e. ground arith, λ h. refl)
  other_lem g (some (arr xs)) = (λ h e. ground arith, λ h. refl)
  other_lem g (some (obj ms)) = (λ h e. ground arith, λ h. refl)

  obsolete_lem :
      (user : ℕ) (g : Text) (x : Reading)
      → is_obsolete P R int_of user g x ≡ true
      → (ms : Members) × (x ≡ chat_number (pos user) ms)
        × IsOther g (find_last (codes "recipient_generation") ms)
  obsolete_lem user g (chat_number n ms) h = (
    ms,
    ap (λ k. chat_number k ms) ((is_user_lem user n).0 (ground arith)),
    (other_lem g (find_last (codes "recipient_generation") ms)).0 (ground arith),
  )
  obsolete_lem user g caught h = absurd (ground arith)
  obsolete_lem user g no_object h = absurd (ground arith)

  -- The test of the code on a payload of the delayed set.
  pub is_obsolete-IsObsolete :
      (user : ℕ) (g q : Text)
      → (is_obsolete P R int_of user g (reading P R int_of q) ≡ true → IsObsolete user g q)
        × (IsObsolete user g q → is_obsolete P R int_of user g (reading P R int_of q) ≡ true)
  is_obsolete-IsObsolete user g q = (
    λ h.
        let (ms, read, other) = obsolete_lem user g (reading P R int_of q) h in
        (ms, IsOf-reading q user ms read, other),
    λ (ms, is, other).
        let same_user = (is_user_lem user (pos user)).1 refl in
        let differs = (other_lem g (find_last (codes "recipient_generation") ms)).1 other in
        ap (is_obsolete P R int_of user g) (reading-IsOf q user ms is)
        ∙ ground (arith, same_user, differs),
  )
