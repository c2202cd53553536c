-- ===== src/Shared/TriggerCache/Contents.antt =====
-- core_shared/trigger_cache.py: the phrases in Redis after a reconciliation.
use alert_bot_project.Common.{
  ℕ, suc, ◌≤◌, ◌≡◌, sym, ◌∙◌, Text, Bool, true, false, not, ◌&&◌, ◌||◌, Option, List, [], ◌∷◌, ◌==◌,
  if◌then◌else◌, same, is_in, length, all, arith, Bool-cases, inl, inr, ◌⊎◌,
}
use alert_bot_project.Shared.TriggerCache.{
  TriggerSet, TriggerCache, next_version, sadd_all, version_text, changed_meanwhile,
  reconcile_custom_trigger_cache,
}

-- No text stands twice in a list.
abbrev pub are_distinct : List Text → Bool
are_distinct [] = true
are_distinct (t ∷ ts) = not (is_in t ts) && are_distinct ts

abbrev without : Text → List Text → List Text
without t [] = []
without t (x ∷ xs) = let rest = without t xs in if same t x then xs else x ∷ rest

length-without :
    (t : Text) (xs : List Text) → is_in t xs ≡ true → suc (length (without t xs)) ≡ length xs
length-without t [] h = absurd (ground (arith, h))
length-without t (x ∷ xs) h = elim (Bool-cases (same t x)) [
  | inl e ↦ ground (arith, e)
  | inr e ↦ ground (arith, e, h, length-without t xs (ground (arith, e, h)))
]

is_in-without :
    (t u : Text) (xs : List Text)
    → same t u ≡ false
    → is_in u xs ≡ true
    → is_in u (without t xs) ≡ true
is_in-without t u [] ne h = absurd (ground (arith, h))
is_in-without t u (x ∷ xs) ne h = ground (arith, ne, h, is_in-without t u xs ne)

-- The elements of a list that stand in another one.
abbrev Within : List Text → List Text → Type 0
Within xs ys = (t : Text) → is_in t xs ≡ true → is_in t ys ≡ true

Within-length : (xs ys : List Text) → are_distinct xs ≡ true → Within xs ys → length xs ≤ length ys
Within-length [] ys d w = omega arith
Within-length (x ∷ xs) ys d w =
    let there : is_in x ys ≡ true = w x (ground arith) in
    let others : Within xs (without x ys) =
      λ t h. is_in-without x t ys (ground (arith, d, h)) (w t (ground (arith, h))) in
    omega
      (arith, Within-length xs (without x ys) (ground (arith, d)) others, length-without x ys there)

all-Within : (xs ys : List Text) → all (λ t. is_in t ys) xs ≡ true → Within xs ys
all-Within [] ys h t k = absurd (ground (arith, k))
all-Within (x ∷ xs) ys h t k = elim (Bool-cases (same t x)) [
  | inl e ↦ ground (arith, h, e)
  | inr e ↦ all-Within xs ys (ground (arith, h)) t (ground (arith, k, e))
]

-- As many distinct elements of a list as it is long are all of it.
Within-back :
    (xs ys : List Text)
    → are_distinct xs ≡ true
    → Within xs ys
    → length xs ≡ length ys
    → Within ys xs
Within-back xs ys d w e t h = elim (Bool-cases (is_in t xs)) [
  | inl found ↦ found
  | inr missing ↦
      let others : Within xs (without t ys) =
        λ u k. is_in-without t u ys (ground (arith, missing, k)) (w u k) in
      absurd (omega (arith, Within-length xs (without t ys) d others, length-without t ys h, e))
]

module _ (S : TriggerSet) where
  open S use {Phrases, smembers, sadd, deleted, smembers-sadd, smembers-deleted}

  is_in-sadd_all :
      (ws : List Text) (s : Phrases) (t : Text)
      → is_in t (smembers (sadd_all S ws s)) ≡ (is_in t ws || is_in t (smembers s))
  unfolding sadd_all
  is_in-sadd_all [] s t = ground arith
  is_in-sadd_all (w ∷ ws) s t = ground (arith, is_in-sadd_all ws (sadd w s) t, smembers-sadd t w s)

  -- A cache whose phrases are exactly the wanted ones.
  abbrev pub Holds : List Text → TriggerCache S → Type 0
  Holds phrases c = (t : Text) → is_in t (smembers c.phrases) ≡ is_in t phrases

  same_elements :
      (xs ys : List Text) → Within xs ys → Within ys xs → (t : Text) → is_in t xs ≡ is_in t ys
  same_elements xs ys there back t = elim (Bool-cases (is_in t xs)) [
    | inl e ↦ e ∙ sym (there t e)
    | inr e ↦ elim (Bool-cases (is_in t ys)) [
      | inl f ↦ absurd (ground (arith, e, back t f))
      | inr f ↦ e ∙ sym f
    ]
  ]

  -- A reconciliation with the phrases of the database, by the version that was read before them: if
  -- the version is another one by now, the cache stays as it is; else it holds exactly the phrases
  -- of the database afterwards, and its version is counted up unless it stays as it is. It is for a
  -- cache whose phrases are distinct, as those of a set are.
  pub reconcile_custom_trigger_cache-Holds :
      (phrases : List Text) (expected : Option ℕ) (c : TriggerCache S)
      → are_distinct (smembers c.phrases) ≡ true
      → ((same (version_text S c.version) (version_text S expected) ≡ false)
          → reconcile_custom_trigger_cache S phrases expected c ≡ (changed_meanwhile, c))
        × ((same (version_text S c.version) (version_text S expected) ≡ true)
            → Holds phrases (reconcile_custom_trigger_cache S phrases expected c).1
              × (((reconcile_custom_trigger_cache S phrases expected c).1 ≡ c)
                  ⊎ ((reconcile_custom_trigger_cache S phrases expected c).1.version
                      ≡ next_version S c.version)))
  unfolding reconcile_custom_trigger_cache
  reconcile_custom_trigger_cache-Holds phrases expected c d = (
    λ other. ground (arith, other),
    λ expected_one. elim (Bool-cases same_already) [
      | inl kept ↦
          let there = all-Within (smembers c.phrases) phrases (ground (arith, kept)) in
          let sizes : length (smembers c.phrases) ≡ length phrases = ground (arith, kept) in
          let back = Within-back (smembers c.phrases) phrases d there sizes in
          (
            λ t. ground (
              arith,
              expected_one,
              kept,
              same_elements (smembers c.phrases) phrases there back t,
            ),
            inl (ground (arith, expected_one, kept)),
          )
      | inr changed ↦ (
        λ t.
            ground
              (arith, expected_one, changed, is_in-sadd_all phrases deleted t, smembers-deleted),
        inr (ground (arith, expected_one, changed)),
      )
    ],
  )
    where
      same_already : Bool
      same_already =
          (length (smembers c.phrases) == length phrases)
          && all (λ w. is_in w phrases) (smembers c.phrases)
