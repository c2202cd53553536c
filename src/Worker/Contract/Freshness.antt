-- ===== src/Worker/Contract/Freshness.antt =====
-- What may still be sent of an old alert.
use alert_bot_project.Common.{
  ℕ, ◌+◌, ◌*◌, ◌≤◌, ◌<◌, Text, ◌≡◌, ◌↔◌, ◌⊎◌, inl, inr, Bool, true, none, some, ◌++◌, length,
  length-take, ltb, arith, Option-cases, Bool-cases,
}
use alert_bot_project.Shared.Constants.{alert_first}
use alert_bot_project.Worker.Contract.{
  DeliveryJob, second, historical_notice, removeprefix, as_notice, delivery_content,
}

-- The source time is known and at most 600 s ago.
abbrev pub IsFresh : ℕ → DeliveryJob → Type 0
IsFresh now j = (at : ℕ) × (j.source_timestamp ≡ some at) × (now ≤ at + 600 * second)

-- The source time is known and more than seven days ago.
abbrev pub IsExpired : ℕ → DeliveryJob → Type 0
IsExpired now j = (at : ℕ) × (j.source_timestamp ≡ some at) × (at + 604800 * second < now)

as_notice_short : (text : Text) → length (as_notice text) ≤ 4096
unfolding as_notice
as_notice_short text =
    omega (arith, length-take 4096 (historical_notice ++ removeprefix text alert_first))

module _ (now : ℕ) (j : DeliveryJob) (text : Text) (silent : Bool) where
  -- What is sent is either the text itself, loud or silent as asked, and then the alert is fresh;
  -- or it is the first alert under the historical notice, within 4096 characters and silent, and
  -- then the alert is not known to be fresh and is not older than seven days.
  pub delivery_content_lem :
      (t : Text) (s : Bool)
      → delivery_content now j text silent ≡ some (t, s)
      → (IsFresh now j × (t ≡ text) × (s ≡ silent))
        ⊎ ((¬ IsFresh now j)
            × (¬ IsExpired now j)
            × (j.step ≤ 1)
            × (t ≡ as_notice text)
            × (length t ≤ 4096)
            × (s ≡ true))
  unfolding delivery_content
  delivery_content_lem t s e = elim (Option-cases j.source_timestamp) [
    | inl unknown ↦ inr (
      λ f. ground arith,
      λ x. ground arith,
      ground arith,
      ground arith,
      ground (arith, as_notice_short text),
      ground arith,
    )
    | inr (at, known) ↦ elim (Bool-cases (ltb (at + 600 * second) now)) [
      | inl old ↦ inr (
        λ f. ground arith,
        λ x. ground arith,
        ground arith,
        ground arith,
        ground (arith, as_notice_short text),
        ground arith,
      )
      | inr fresh ↦ inl ((at, known, ground arith), ground arith, ground arith)
    ]
  ]

  -- Nothing is sent exactly when the alert is older than seven days, or when a reminder (step 2 or
  -- 3) is not known to be fresh.
  pub delivery_content-none :
      (delivery_content now j text silent ≡ none)
      ↔ (IsExpired now j ⊎ ((1 < j.step) × (¬ IsFresh now j)))
  unfolding delivery_content
  delivery_content-none = (
    λ e. elim (Option-cases j.source_timestamp) [
      | inl unknown ↦ inr (ground arith, λ f. ground arith)
      | inr (at, known) ↦ elim (Bool-cases (ltb (at + 604800 * second) now)) [
        | inl expired ↦ inl (at, known, ground arith)
        | inr recent ↦ inr (ground arith, λ f. ground arith)
      ]
    ],
    λ h. elim h [
      | inl x ↦ ground arith
      | inr (later, stale) ↦ elim (Option-cases j.source_timestamp) [
        | inl unknown ↦ ground arith
        | inr (at, known) ↦ elim (Bool-cases (ltb (at + 600 * second) now)) [
          | inl old ↦ ground arith
          | inr fresh ↦ absurd (stale (at, known, ground arith))
        ]
      ]
    ],
  )
