-- ===== src/Worker/Broadcaster/DeadLetter.antt =====
-- worker/broadcaster.py, `_move_to_dlq`: what the dead-letter script does.
pub mod Attempts
use mathlib.Core.Logic.{if_pos}
use alert_bot_project.Common.{
  ℕ, zero, suc, subst, ◌∙◌, sym, ◌+◌, ◌≤◌, ◌<◌, ◌≡◌, ◌≢◌, Text, Text-discrete, Bool, true, false,
  Option, none, some, List, [], ◌∷◌, ◌++◌, ite, ltb, if◌then◌else◌, arith, length, refl, ◌⊎◌, inl,
  inr,
}
use alert_bot_project.Redis.{
  MessageId, Value, num, Redis, Db, Key-discrete, Stream-discrete, delivery_stream, delivery_dlq,
  dead, unreadable, retry, count_of, increased,
}
use alert_bot_project.Shared.Platform.{Platform}
use alert_bot_project.Worker.Broadcaster.{
  Reason, reason_text, day_ms, absent, id, fault, lua_id, lua_generation, allowed, ack, set_stage,
  move_to_dlq, finish_failed_job, stage_of, LuaId, settle_dlq, mark_failed, count_attempt,
}
use alert_bot_project.Worker.Broadcaster.Recipient.{
  Names, IsNameless, IsUnreadable, IsFree, IsFenced, recipient, allowed-cases,
}

module _ (P : Platform) (R : Redis) where
  open R use {
    Keys, get, set_px, del, incr, expire, entries, owner, xadd, xack, get-set_px, get-del, get-incr,
    get-expire, entries-xadd, entries-xack, owner-xadd, owner-xack,
  }

  -- The letter of a message: the whole payload if its recipient is free, nothing if it is fenced,
  -- and only the reason if the payload names no recipient.
  abbrev pub IsLettered : ℕ → MessageId → Text → Reason → Db R → Db R → Type 0
  IsLettered now m payload why s s' =
      ((chat : Text) × (g : Text) × Names P payload chat g
        × ((IsFree R now chat g s.keys
              × (entries s'.streams delivery_dlq
                  ≡ entries s.streams delivery_dlq ++ dead payload (reason_text why) m ∷ []))
            ⊎ (IsFenced R now chat g s.keys
                × (entries s'.streams delivery_dlq ≡ entries s.streams delivery_dlq))))
      ⊎ (IsNameless P payload
          × (entries s'.streams delivery_dlq
              ≡ entries s.streams delivery_dlq ++ unreadable (reason_text why) m ∷ []))

  pub record IsDeadLettered (now : ℕ) (m : MessageId) (payload : Text) (why : Reason) (s s' : Db R)
      : Type 0 where
    pub acknowledged : owner s'.streams delivery_stream m ≡ none
    pub counter_cleared : (u : ℕ) → get u s'.keys (retry m) ≡ none
    pub lettered : IsLettered now m payload why s s'

  -- An acknowledgement of a message, with its counter.
  settle_dlq_lem :
      (m : MessageId) (s : Db R)
      → (owner (settle_dlq R P m s).streams delivery_stream m ≡ none)
        × (entries (settle_dlq R P m s).streams delivery_dlq ≡ entries s.streams delivery_dlq)
        × ((u : ℕ) → get u (settle_dlq R P m s).keys (retry m) ≡ none)
  unfolding settle_dlq
  settle_dlq_lem m s = (
    ground (arith, owner-xack s.streams delivery_stream delivery_stream m m),
    entries-xack s.streams delivery_stream delivery_dlq m,
    λ u. ground (arith, get-del u s.keys (retry m) (retry m)),
  )

  mark_failed-streams :
      (now : ℕ) (key : Option (Text × Text)) (s : Db R)
      → (mark_failed R P now key s).streams ≡ s.streams
  unfolding mark_failed
  mark_failed-streams now none s = refl
  mark_failed-streams now (some k) s = refl

  move_to_dlq-id :
      (now : ℕ) (m : MessageId) (payload : Text) (why : Reason) (key : Option (Text × Text))
      (s : Db R) (chat : Text)
      → lua_id P payload ≡ id chat
      → Names P payload chat (lua_generation P payload)
      → ((move_to_dlq R P now m payload why key s).0 ≡ true)
        × IsDeadLettered now m payload why s (move_to_dlq R P now m payload why key s).1
  unfolding move_to_dlq
  move_to_dlq-id now m payload why key s chat h named =
      let g = lua_generation P payload in
      let letter = dead payload (reason_text why) m in
      let written : Db R = record s { streams = xadd delivery_dlq letter s.streams } in
      let marked = mark_failed R P now key written in
      let law = entries-xadd s.streams delivery_dlq delivery_dlq letter in
      let after = settle_dlq_lem m marked in
      let bare = settle_dlq_lem m s in
      let frame = mark_failed-streams now key written in
      elim (allowed-cases R now chat g s.keys) [
        | inl (e, free) ↦ (
          ground arith,
          record {
            acknowledged = ground (arith, after, frame);
            counter_cleared = λ u. ground (arith, after.2 u);
            lettered = inl (chat, g, named, inl (free, ground (arith, h, e, after, frame, law)));
          },
        )
        | inr (e, fenced) ↦ (
          ground arith,
          record {
            acknowledged = ground (arith, bare);
            counter_cleared = λ u. ground (arith, bare.2 u);
            lettered = inl (chat, g, named, inr (fenced, ground (arith, h, e, bare)));
          },
        )
      ]

  move_to_dlq-absent :
      (now : ℕ) (m : MessageId) (payload : Text) (why : Reason) (key : Option (Text × Text))
      (s : Db R)
      → lua_id P payload ≡ absent
      → IsNameless P payload
      → ((move_to_dlq R P now m payload why key s).0 ≡ true)
        × IsDeadLettered now m payload why s (move_to_dlq R P now m payload why key s).1
  unfolding move_to_dlq
  move_to_dlq-absent now m payload why key s h nameless =
      let letter = unreadable (reason_text why) m in
      let written : Db R = record s { streams = xadd delivery_dlq letter s.streams } in
      let after = settle_dlq_lem m written in
      let law = entries-xadd s.streams delivery_dlq delivery_dlq letter in
      (
        ground arith,
        record {
          acknowledged = ground (arith, after, law);
          counter_cleared = λ u. ground (arith, after.2 u);
          lettered = inr (nameless, ground (arith, h, after, law));
        },
      )

  -- One run of the dead-letter script: it ends with an error, which changes nothing, only if the
  -- payload is an object whose chat_id is neither absent or false nor a text or a number. Else the
  -- message is acknowledged and its retry counter is gone; the dead-letter stream has exactly one
  -- entry more, with the payload if no deletion has fenced the recipient that it names and the
  -- generations agree, and without it if it names none; and it has none more if the recipient is
  -- fenced or has another generation.
  pub move_to_dlq-IsDeadLettered :
      (now : ℕ) (m : MessageId) (payload : Text) (why : Reason) (key : Option (Text × Text))
      (s : Db R)
      → (IsUnreadable P payload × (move_to_dlq R P now m payload why key s ≡ (false, s)))
        ⊎ (((move_to_dlq R P now m payload why key s).0 ≡ true)
            × IsDeadLettered now m payload why s (move_to_dlq R P now m payload why key s).1)
  unfolding move_to_dlq
  move_to_dlq-IsDeadLettered now m payload why key s = elim (recipient P payload) [
    | inl (chat, e, named) ↦ inr (move_to_dlq-id now m payload why key s chat e named)
    | inr (inl (e, nameless)) ↦ inr (move_to_dlq-absent now m payload why key s e nameless)
    | inr (inr (e, unread)) ↦ inl (unread, ground (arith, e))
  ]
