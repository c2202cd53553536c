-- ===== src/Bot/Keyboards/Pages.antt =====
-- bot/keyboards/builders.py: the pages of the places.
use alert_bot_project.Common.{
  ℕ, zero, suc, ◌+◌, ◌-◌, ◌*◌, ◌≤◌, ℤ, pos, negsuc, Text, ◌≡◌, refl, ap, sym, ◌∙◌, true, List, [],
  ◌∷◌, ◌++◌, map, ltb, length, take, drop, All, All-append, All-if, arith, dec_le,
}
use alert_bot_project.Shared.Constants.{dislocs_per_page}
use alert_bot_project.Shared.Places.{Place}
use alert_bot_project.Bot.Keyboards.{
  CallbackData, nav_group, loc_toggle, Button, places_of, max_page, clamp, end_index, shown,
  location_button, navigation, footer, build_locations_paginated_keyboard,
}

module _ {ℓ} {A : Type ℓ} where
  take_nil : (n : ℕ) → take {A = A} n [] ≡ []
  take_nil zero = refl
  take_nil (suc n) = refl

  take-append-drop : (n k : ℕ) (xs : List A) → take n xs ++ take k (drop n xs) ≡ take (n + k) xs
  take-append-drop zero k xs = ground arith
  take-append-drop (suc n) k [] = take_nil k ∙ sym (take_nil (suc n + k))
  take-append-drop (suc n) k (x ∷ xs) =
      let shift : suc (n + k) ≡ suc n + k = omega arith in
      ap (λ t. x ∷ t) (take-append-drop n k xs) ∙ ap (λ m. take m (x ∷ xs)) shift

  take_all : (n : ℕ) (xs : List A) → length xs ≤ n → take n xs ≡ xs
  take_all zero [] h = refl
  take_all zero (x ∷ xs) h = absurd (omega arith)
  take_all (suc n) [] h = refl
  take_all (suc n) (x ∷ xs) h = ap (λ t. x ∷ t) (take_all n xs (omega arith))

  length-drop : (n : ℕ) (xs : List A) → length (drop n xs) ≡ length xs - n
  length-drop zero xs = omega arith
  length-drop (suc n) [] = omega arith
  length-drop (suc n) (x ∷ xs) = omega (arith, length-drop n xs)

shown_lem :
    (page : ℕ) (items : List Place)
    → shown page items ≡ take dislocs_per_page (drop (page * dislocs_per_page) items)
shown_lem page items = elim (dec_le (page * 5 + 5) (length items)) [
  | yes h ↦
      let width : end_index page (length items) - page * 5 ≡ 5 = omega arith in
      ap (λ n. take n (drop (page * 5) items)) width
  | no h ↦
      take_all _ _ (omega (arith, length-drop (page * 5) items))
      ∙ sym (take_all 5 (drop (page * 5) items) (omega (arith, length-drop (page * 5) items)))
]

-- The places that a keyboard offers.
abbrev offered : CallbackData → List Text → List Text
offered (loc_toggle group k page) ks = k ∷ ks
offered _ ks = ks

unfoldable pub toggled_keys : List Button → List Text
toggled_keys [] = []
toggled_keys (b ∷ bs) = offered b.callback_data (toggled_keys bs)

toggled_keys-append :
    (group : Text) (active : List Text) (page total : ℕ) (items : List Place)
    → toggled_keys
        (map (location_button group active page) items ++ navigation group page total footer)
      ≡ map (λ p. p.key) items
unfolding toggled_keys
toggled_keys-append group active page total [] = ground arith
toggled_keys-append group active page total (p ∷ items) =
    ap (λ t. p.key ∷ t) (toggled_keys-append group active page total items)

-- The keys on the pages below n, one page after another.
unfoldable pub keys_below : Text → List Text → ℕ → List Text
keys_below group active zero = []
keys_below group active (suc n) =
    keys_below group active n
    ++ toggled_keys (build_locations_paginated_keyboard group active (pos n))

map-append {ℓ κ} :
    {A : Type ℓ} {B : Type κ} (f : A → B) (xs ys : List A) → map f (xs ++ ys) ≡ map f xs ++ map f ys
map-append f [] ys = refl
map-append f (x ∷ xs) ys = ap (λ t. f x ∷ t) (map-append f xs ys)

keys_below_lem :
    (group : Text) (active : List Text) (n : ℕ)
    → n ≤ suc (max_page (length (places_of group)))
    → keys_below group active n ≡ map (λ p. p.key) (take (n * dislocs_per_page) (places_of group))
unfolding keys_below build_locations_paginated_keyboard
keys_below_lem group active zero h = refl
keys_below_lem group active (suc n) h =
    let items = places_of group in
    let same_page : clamp (pos n) (length items) ≡ n = ground arith in
    rw
      (
        same_page,
        keys_below_lem group active n (omega arith),
        toggled_keys-append group active n (length items) (shown n items),
        shown_lem n items,
      )
      (sym (map-append (λ p. p.key) (take (n * 5) items) (take 5 (drop (n * 5) items)))
        ∙ ap (map (λ p. p.key))
            (take-append-drop (n * 5) 5 items ∙ ap (λ k. take k items) (omega arith)))

-- The pages from 0 to the last one offer every place of the group exactly once, in the order of the
-- table.
pub build_locations_complete :
    (group : Text) (active : List Text)
    → keys_below group active (suc (max_page (length (places_of group))))
      ≡ map (λ p. p.key) (places_of group)
build_locations_complete group active =
    let items = places_of group in
    keys_below_lem group active (suc (max_page (length items))) (omega arith)
    ∙ ap (map (λ p. p.key)) (take_all _ items (omega arith))

-- A button that leads to a page leads to one of the pages of the group.
abbrev pub IsInRange : ℕ → Button → Type 0
IsInRange last b = elim b.callback_data [
  | nav_group g n ↦ (k : ℕ) × (n ≡ pos k) × (k ≤ last)
  | loc_toggle g key n ↦ (k : ℕ) × (n ≡ pos k) × (k ≤ last)
  | _ ↦ Unit
]

-- Whatever page the callback data names, negative or beyond the last, every button of the
-- keyboard leads to an existing page of the group.
pub build_locations-IsInRange :
    (group : Text) (active : List Text) (page : ℤ)
    → All
        (IsInRange (max_page (length (places_of group))))
        (build_locations_paginated_keyboard group active page)
unfolding build_locations_paginated_keyboard
build_locations-IsInRange group active page =
    All-append _ (map (location_button group active at) (shown at items)) _
      (locations (shown at items)) buttons
  where
    items : List Place
    items = places_of group

    at : ℕ
    at = clamp page (length items)

    last : ℕ
    last = max_page (length items)

    clamp-le : (z : ℤ) (n : ℕ) → clamp z n ≤ max_page n
    clamp-le (pos z) n = ground arith
    clamp-le (negsuc z) n = ground arith

    locations : (ps : List Place) → All (IsInRange last) (map (location_button group active at) ps)
    locations [] = tt
    locations (p ∷ ps) = ((at, refl, clamp-le page (length items)), locations ps)

    next_exists : ltb (end_index at (length items)) (length items) ≡ true → at + 1 ≤ last
    next_exists h = ground arith

    buttons : All (IsInRange last) (navigation group at (length items) footer)
    buttons =
        All-if (IsInRange last) (ltb 0 at) _ _
          (λ h. (at - 1, refl, omega (arith, clamp-le page (length items))))
          (All-if (IsInRange last) (ltb (end_index at (length items)) (length items)) _ _
            (λ h. (at + 1, refl, next_exists h)) (tt, (tt, tt)))
