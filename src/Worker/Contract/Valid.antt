-- ===== src/Worker/Contract/Valid.antt =====
-- What a job that passed the contract satisfies.
use alert_bot_project.Common.{
  ℕ, ◌+◌, ◌*◌, ◌≤◌, ◌<◌, ℤ, pos, Text, codes, ◌≡◌, ◌≢◌, ap, ◌∙◌, true, Option, none, some, List,
  length, all, arith, Option-cases, inl, inr,
}
use alert_bot_project.Shared.Json.{Json, Members, find, int}
use alert_bot_project.Shared.Platform.{Platform}
use alert_bot_project.Worker.Contract.{
  DeliveryJob, second, in_id_range, nonzero, canonical_chat_id, identity, field_step, field_text,
  field_source_message, field_generation, field_chat, field_event, event_char, field_timestamp,
  field_locations, location_key, consistent_identity, model_validate, parse_delivery_job, object,
}

module _ (P : Platform) where
  pub record IsValid (now : ℕ) (j : DeliveryJob) : Type 0 where
    -- a recipient whose id is exact as a double
    pub chat_nonzero : j.chat_id ≢ pos 0
    pub chat_range : in_id_range j.chat_id ≡ true
    pub step_low : 1 ≤ j.step
    pub step_high : j.step ≤ 3
    pub text_low : 1 ≤ length j.text
    pub text_high : length j.text ≤ 4096
    -- the event
    pub event_low : (e : Text) → j.event_id ≡ some e → 1 ≤ length e
    pub event_high : (e : Text) → j.event_id ≡ some e → length e ≤ 128
    pub event_chars : (e : Text) → j.event_id ≡ some e → all (event_char P) e ≡ true
    pub event_given : 1 < j.step → j.event_id ≢ none
    -- the source
    pub source_whole :
        (c : ℤ)
        → j.source_chat_id ≡ some c
        → (m : ℕ) × (j.source_message_id ≡ some m)
          × (0 < m)
          × (m ≤ 2147483647)
          × (j.event_id ≡ some (identity c m j.chat_id))
    pub source_absent : j.source_chat_id ≡ none → j.source_message_id ≡ none
    pub source_time : (at : ℕ) → j.source_timestamp ≡ some at → at ≤ now + 300 * second
    pub locations_count : length j.source_locations ≤ 64
    pub locations_keys : all (location_key P) j.source_locations ≡ true
    pub generation_low : 1 ≤ length j.recipient_generation
    pub generation_high : length j.recipient_generation ≤ 64

  nonzero_valid : (k n : ℤ) → nonzero k ≡ some n → n ≢ pos 0
  unfolding nonzero
  nonzero_valid k n e = ground arith

  canonical_valid : (v : Json) (n : ℤ) → canonical_chat_id v ≡ some n → n ≢ pos 0
  unfolding canonical_chat_id
  canonical_valid (int k) n e = nonzero_valid k n e
  canonical_valid (Json.str t) n e = ground arith
  canonical_valid _ n e = cc

  chat_valid :
      (o : Option Json) (n : ℤ) → field_chat o ≡ some n → (n ≢ pos 0) × (in_id_range n ≡ true)
  unfolding field_chat
  chat_valid none n e = cc
  chat_valid (some v) n e = ground (arith, canonical_valid v n)

  step_valid : (o : Option Json) (n : ℕ) → field_step o ≡ some n → (1 ≤ n) × (n ≤ 3)
  unfolding field_step
  step_valid o n e = ground arith

  text_valid :
      (o : Option Json) (t : Text) → field_text o ≡ some t → (1 ≤ length t) × (length t ≤ 4096)
  unfolding field_text
  text_valid o t e = ground arith

  generation_valid :
      (o : Option Json) (t : Text) → field_generation o ≡ some t → (1 ≤ length t) × (length t ≤ 64)
  unfolding field_generation
  generation_valid o t e = ground arith

  event_valid :
      (o : Option Json) (t : Text)
      → field_event P o ≡ some (some t)
      → (1 ≤ length t) × (length t ≤ 128) × (all (event_char P) t ≡ true)
  unfolding field_event
  event_valid o t e = ground arith

  message_valid :
      (o : Option Json) (m : ℕ)
      → field_source_message o ≡ some (some m)
      → (0 < m) × (m ≤ 2147483647)
  unfolding field_source_message
  message_valid o m e = ground arith

  time_valid :
      (now : ℕ) (o : Option Json) (at : ℕ)
      → field_timestamp P now o ≡ some (some at)
      → at ≤ now + 300 * second
  unfolding field_timestamp
  time_valid now o at e = ground arith

  locations_valid :
      (o : Option Json) (ts : List Text)
      → field_locations P o ≡ some ts
      → (length ts ≤ 64) × (all (location_key P) ts ≡ true)
  unfolding field_locations
  locations_valid o ts e = ground arith

  consistent_source :
      (j : DeliveryJob) (c : ℤ)
      → consistent_identity j ≡ true
      → j.source_chat_id ≡ some c
      → (m : ℕ) × (j.source_message_id ≡ some m) × (j.event_id ≡ some (identity c m j.chat_id))
  unfolding consistent_identity
  consistent_source j c e h = elim (Option-cases j.source_message_id) [
    | inl missing ↦ absurd (ground arith)
    | inr (m, given) ↦ (m, given, ground arith)
  ]

  consistent_absent :
      (j : DeliveryJob)
      → consistent_identity j ≡ true
      → (j.source_chat_id ≡ none → j.source_message_id ≡ none) × (1 < j.step → j.event_id ≢ none)
  unfolding consistent_identity
  consistent_absent j e = ground arith

  -- The values of the fields of a job that was accepted.
  record Accepted (now : ℕ) (ms : Members) (j : DeliveryJob) : Type 0 where
    chat : field_chat (find (codes "chat_id") ms) ≡ some j.chat_id
    step : field_step (find (codes "step") ms) ≡ some j.step
    text : field_text (find (codes "text") ms) ≡ some j.text
    event : field_event P (find (codes "event_id") ms) ≡ some j.event_id
    message : field_source_message (find (codes "source_message_id") ms) ≡ some j.source_message_id
    time : field_timestamp P now (find (codes "source_timestamp") ms) ≡ some j.source_timestamp
    locations : field_locations P (find (codes "source_locations") ms) ≡ some j.source_locations
    generation :
        field_generation (find (codes "recipient_generation") ms) ≡ some j.recipient_generation
    consistent : consistent_identity j ≡ true

  model_validate-Accepted :
      (now : ℕ) (ms : Members) (j : DeliveryJob)
      → model_validate P now ms ≡ some j
      → Accepted now ms j
  unfolding model_validate
  model_validate-Accepted now ms j e = ground arith

  Accepted-IsValid : (now : ℕ) (ms : Members) (j : DeliveryJob) → Accepted now ms j → IsValid now j
  Accepted-IsValid now ms j a = record {
    chat_nonzero = (chat_valid _ _ a.chat).0;
    chat_range = (chat_valid _ _ a.chat).1;
    step_low = (step_valid _ _ a.step).0;
    step_high = (step_valid _ _ a.step).1;
    text_low = (text_valid _ _ a.text).0;
    text_high = (text_valid _ _ a.text).1;
    event_low = λ e h. (event_valid _ e (a.event ∙ ap some h)).0;
    event_high = λ e h. (event_valid _ e (a.event ∙ ap some h)).1;
    event_chars = λ e h. (event_valid _ e (a.event ∙ ap some h)).2;
    event_given = (consistent_absent j a.consistent).1;
    source_whole = λ c h.
        let (m, given, named) = consistent_source j c a.consistent h in
        let (low, high) = message_valid _ m (a.message ∙ ap some given) in
        (m, given, low, high, named);
    source_absent = (consistent_absent j a.consistent).0;
    source_time = λ at h. time_valid now _ at (a.time ∙ ap some h);
    locations_count = (locations_valid _ _ a.locations).0;
    locations_keys = (locations_valid _ _ a.locations).1;
    generation_low = (generation_valid _ _ a.generation).0;
    generation_high = (generation_valid _ _ a.generation).1;
  }

  parsed_members :
      (now : ℕ) (payload : Text) (j : DeliveryJob)
      → parse_delivery_job P now payload ≡ some j
      → (ms : Members) × (model_validate P now ms ≡ some j)
  unfolding parse_delivery_job
  parsed_members now payload j e = elim (Option-cases (P.loads payload)) [
    | inl bad ↦ absurd (ground arith)
    | inr (v, loaded) ↦ elim (Option-cases (object P v)) [
      | inl bad ↦ absurd (ground arith)
      | inr (ms, object) ↦ (ms, ground arith)
    ]
  ]

  -- Every job that `parse_delivery_job` accepts is valid: a recipient that is not 0 and is exact as
  -- a double, a step from 1 to 3, texts within their lengths, an event name of allowed characters
  -- that steps 2 and 3 have, a source that is whole or absent and that names the event, a source
  -- time at most 300 s ahead of the clock, and at most 64 location keys in the allowed form.
  pub parse_delivery_job-IsValid :
      (now : ℕ) (payload : Text) (j : DeliveryJob)
      → parse_delivery_job P now payload ≡ some j
      → IsValid now j
  parse_delivery_job-IsValid now payload j e =
      let (ms, validated) = parsed_members now payload j e in
      Accepted-IsValid now ms j (model_validate-Accepted now ms j validated)
