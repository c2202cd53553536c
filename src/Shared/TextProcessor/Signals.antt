-- ===== src/Shared/TextProcessor/Signals.antt =====
-- core_shared/text_processor.py: the result of analyze_signal, told from the clauses of the text.
use alert_bot_project.Common.{
  Text, ◌≡◌, refl, sym, ◌∙◌, ap, inl, inr, Bool, false, not, ◌&&◌, ◌||◌, List, [], ◌∷◌, ◌++◌,
  if◌then◌else◌, is_in, same, is_empty, any, filter, arith, append_assoc, append-nil, Bool-cases,
}
use alert_bot_project.Shared.Platform.{Platform}
use alert_bot_project.Shared.Places.{kr_potvory}
use alert_bot_project.Shared.TextProcessor.{
  clear_pattern, negation_pattern, resolved_pattern, clause_split_pattern, insert, update,
  SignalStatus, active, clear, negated, unknown, Clauses, no_clauses, joined, is_blank, normalize,
  found_categories, parse_message, add_clause, add_clauses, analyze_signal,
}

is_in-append : (l : Text) (xs ys : List Text) → is_in l (xs ++ ys) ≡ (is_in l xs || is_in l ys)
is_in-append l [] ys = ground arith
is_in-append l (x ∷ xs) ys = ground (arith, is_in-append l xs ys)

is_in-insert : (l t : Text) (xs : List Text) → is_in l (insert t xs) ≡ (is_in l xs || same l t)
is_in-insert l t xs = ground (arith, is_in-append l xs (t ∷ []))

is_in-update : (l : Text) (xs ys : List Text) → is_in l (update xs ys) ≡ (is_in l xs || is_in l ys)
is_in-update l xs [] = ground arith
is_in-update l xs (y ∷ ys) = ground (arith, is_in-update l (insert y xs) ys, is_in-insert l y xs)

update-not_empty : (xs ys : List Text) → is_empty xs ≡ false → is_empty (update xs ys) ≡ false
update-not_empty xs [] h = h
update-not_empty (x ∷ xs) (y ∷ ys) h = update-not_empty (insert y (x ∷ xs)) ys (ground arith)
update-not_empty [] (y ∷ ys) h = absurd (ground arith)

is_empty-update : (xs ys : List Text) → is_empty (update xs ys) ≡ (is_empty xs && is_empty ys)
is_empty-update [] [] = refl
is_empty-update (x ∷ xs) [] = refl
is_empty-update [] (y ∷ ys) = update-not_empty (y ∷ []) ys refl
is_empty-update (x ∷ xs) (y ∷ ys) = update-not_empty (x ∷ xs) (y ∷ ys) refl

module _ (P : Platform) where
  open P use {search_ignorecase, split_ignorecase}

  -- What a clause says: an all-clear, a denial, or something else.
  unfoldable pub is_all_clear : Text → Bool
  is_all_clear t =
      let c = normalize P t in
      not (is_blank c)
      && (search_ignorecase clear_pattern c || search_ignorecase resolved_pattern c)

  unfoldable pub is_denial : Text → Bool
  is_denial t =
      let c = normalize P t in
      not (is_blank c)
      && (not (search_ignorecase clear_pattern c || search_ignorecase resolved_pattern c)
          && search_ignorecase negation_pattern c)

  unfoldable pub is_statement : Text → Bool
  is_statement t =
      let c = normalize P t in
      not (is_blank c)
      && (not (search_ignorecase clear_pattern c || search_ignorecase resolved_pattern c)
          && not (search_ignorecase negation_pattern c))

  abbrev pub names_threat : Text → Bool
  names_threat t = not (is_empty (found_categories P kr_potvory (normalize P t)))

  abbrev pub places_in : Text → List Text
  places_in t = (parse_message P t).locations

  module _ (t : Text) (ts : List Text) (s : Clauses) where
    abbrev next : Clauses
    next = add_clause P t (normalize P t) s

    step_statements :
        next.positive_clauses
        ≡ (if is_statement t then s.positive_clauses ++ t ∷ [] else s.positive_clauses)
    unfolding add_clause is_statement
    step_statements = ground arith

    step_active : next.saw_active ≡ (s.saw_active || (is_statement t && names_threat t))
    unfolding add_clause is_statement
    step_active = ground arith

    step_negation : next.saw_negation ≡ (s.saw_negation || is_denial t)
    unfolding add_clause is_denial
    step_negation = ground arith

    step_clear : next.global_clear ≡ (s.global_clear || (is_all_clear t && is_empty (places_in t)))
    unfolding add_clause is_all_clear
    step_clear = ground arith

    step_places :
        (l : Text)
        → is_in l next.clear_locations
          ≡ (is_in l s.clear_locations || (is_all_clear t && is_in l (places_in t)))
    unfolding add_clause is_all_clear
    step_places l = ground (arith, is_in-update l s.clear_locations (places_in t))

    step_any_place :
        is_empty next.clear_locations
        ≡ (is_empty s.clear_locations && not (is_all_clear t && not (is_empty (places_in t))))
    unfolding add_clause is_all_clear
    step_any_place = ground (arith, is_empty-update s.clear_locations (places_in t))

  -- A test on the variables that each clause can only make true.
  add_clauses-any :
      (f : Clauses → Bool) (p : Text → Bool)
      → ((t : Text) (s : Clauses) → f (add_clause P t (normalize P t) s) ≡ (f s || p t))
      → (ts : List Text) (s : Clauses) → f (add_clauses P ts s) ≡ (f s || any p ts)
  unfolding add_clauses
  add_clauses-any f p h [] s = ground arith
  add_clauses-any f p h (t ∷ ts) s =
      ground (arith, add_clauses-any f p h ts (add_clause P t (normalize P t) s), h t s)

  add_clauses-statements :
      (ts : List Text) (s : Clauses)
      → (add_clauses P ts s).positive_clauses ≡ s.positive_clauses ++ filter is_statement ts
  unfolding add_clauses filter
  add_clauses-statements [] s = sym (append-nil s.positive_clauses)
  add_clauses-statements (t ∷ ts) s = elim (Bool-cases (is_statement t)) [
    | inl e ↦
        add_clauses-statements ts (next t ts s)
        ∙ rw (step_statements t ts s, e)
            (append_assoc s.positive_clauses (t ∷ []) (filter is_statement ts))
    | inr e ↦ add_clauses-statements ts (next t ts s) ∙ rw (step_statements t ts s, e) refl
  ]

  -- The status that three facts on the clauses decide.
  abbrev pub decided : Bool → Bool → Bool → SignalStatus
  decided threat all_clear denial =
      if threat then active else if all_clear then clear else if denial then negated else unknown

  abbrev pub clauses_of : Text → List Text
  clauses_of raw_text = split_ignorecase clause_split_pattern raw_text

  -- The analysis of a text, by its clauses. The positive text joins the clauses that are neither
  -- all-clears nor denials. The whole channel is clear when some all-clear names no place, and a
  -- place is clear when some all-clear names it. The status is active if a clause of the positive
  -- text names a threat, else clear if there is an all-clear, else negated if there is a denial.
  pub analyze_signal_lem :
      (raw_text : Text)
      → ((analyze_signal P raw_text).positive_text
          ≡ joined (filter is_statement (clauses_of raw_text)))
        × ((analyze_signal P raw_text).global_clear
            ≡ any (λ t. is_all_clear t && is_empty (places_in t)) (clauses_of raw_text))
        × ((l : Text)
            → is_in l (analyze_signal P raw_text).clear_locations
              ≡ any (λ t. is_all_clear t && is_in l (places_in t)) (clauses_of raw_text))
        × ((analyze_signal P raw_text).status
            ≡ decided
                (any (λ t. is_statement t && names_threat t) (clauses_of raw_text))
                (any is_all_clear (clauses_of raw_text))
                (any is_denial (clauses_of raw_text)))
  unfolding analyze_signal
  analyze_signal_lem raw_text = (
    ap joined (add_clauses-statements ts no_clauses),
    global,
    λ l.
        add_clauses-any (λ s. is_in l s.clear_locations) _ (λ t s. step_places t [] s l) ts
          no_clauses,
    ground (arith, threats, denials, global, somewhere, any_clear ts),
  )
    where
      ts : List Text
      ts = clauses_of raw_text

      threats :
          (add_clauses P ts no_clauses).saw_active ≡ any (λ t. is_statement t && names_threat t) ts
      threats = add_clauses-any (λ s. s.saw_active) _ (λ t s. step_active t [] s) ts no_clauses

      denials : (add_clauses P ts no_clauses).saw_negation ≡ any is_denial ts
      denials = add_clauses-any (λ s. s.saw_negation) _ (λ t s. step_negation t [] s) ts no_clauses

      global :
          (add_clauses P ts no_clauses).global_clear
          ≡ any (λ t. is_all_clear t && is_empty (places_in t)) ts
      global = add_clauses-any (λ s. s.global_clear) _ (λ t s. step_clear t [] s) ts no_clauses

      somewhere :
          not (is_empty (add_clauses P ts no_clauses).clear_locations)
          ≡ any (λ t. is_all_clear t && not (is_empty (places_in t))) ts
      somewhere =
          add_clauses-any (λ s. not (is_empty s.clear_locations)) _
            (λ t s. ground (arith, step_any_place t [] s)) ts no_clauses

      any_clear :
          (us : List Text)
          → any is_all_clear us ≡ (
              any (λ t. is_all_clear t && is_empty (places_in t)) us
              || any (λ t. is_all_clear t && not (is_empty (places_in t))) us)
      any_clear [] = refl
      any_clear (u ∷ us) = ground (arith, any_clear us)
