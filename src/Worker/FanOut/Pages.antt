-- ===== src/Worker/FanOut/Pages.antt =====
-- database/crud.py: pages by the key of the last row are the consecutive parts of the whole result.
use alert_bot_project.Common.{
  ℕ, zero, suc, ◌<◌, ◌≡◌, refl, ap, Bool, true, Option, none, some, List, [], ◌∷◌, ◌++◌, All, arith,
  length, take, if◌then◌else◌, Bool-cases, inl, inr,
}
use alert_bot_project.Worker.FanOut.{UserSettings, is_after, selected, last_of}

abbrev pub IsIncreasing : List ℕ → Type 0
IsIncreasing [] = Unit
IsIncreasing (x ∷ xs) = All (λ y. x < y) xs × IsIncreasing xs

-- user_id is the primary key, and the rows come in its order.
abbrev pub IsOrdered : List UserSettings → Type 0
IsOrdered [] = Unit
IsOrdered (u ∷ us) = All (λ v. u.user_id < v.user_id) us × IsOrdered us

unfoldable pub above : Option ℕ → List ℕ → List ℕ
above after [] = []
above after (x ∷ xs) = let rest = above after xs in if is_after after x then x ∷ rest else rest

abbrev pub drop : ℕ → List ℕ → List ℕ
drop zero xs = xs
drop (suc n) [] = []
drop (suc n) (x ∷ xs) = drop n xs

pub take-drop : (n : ℕ) (xs : List ℕ) → take n xs ++ drop n xs ≡ xs
take-drop zero xs = refl
take-drop (suc n) [] = refl
take-drop (suc n) (x ∷ xs) = ap (λ ys. x ∷ ys) (take-drop n xs)

pub selected-above :
    (p : UserSettings → Bool) (after : Option ℕ) (us : List UserSettings)
    → selected p after us ≡ above after (selected p none us)
unfolding selected above
selected-above p after [] = refl
selected-above p after (u ∷ us) = ground (arith, selected-above p after us)

above_rest : (k : ℕ) (xs : List ℕ) → All (λ y. k < y) xs → above (some k) xs ≡ xs
unfolding above
above_rest k [] h = refl
above_rest k (x ∷ xs) h = ground (arith, above_rest k xs h.1, h.0)

last_of-high :
    (n x d : ℕ) (xs : List ℕ)
    → All (λ y. x < y) xs
    → 0 < length xs
    → x < last_of d (take (suc n) xs)
unfolding last_of
last_of-high n x d [] h p = absurd (omega arith)
last_of-high zero x d (y ∷ ys) h p = h.0
last_of-high (suc n) x d (y ∷ []) h p = h.0
last_of-high (suc n) x d (y ∷ z ∷ zs) h p = last_of-high n x y (z ∷ zs) h.1 (omega arith)

-- After the last key of a page comes the rest.
pub above-last_of :
    (n d : ℕ) (xs : List ℕ)
    → IsIncreasing xs
    → 0 < length xs
    → above (some (last_of d (take (suc n) xs))) xs ≡ drop (suc n) xs
unfolding above last_of
above-last_of n d [] o p = absurd (omega arith)
above-last_of zero d (x ∷ xs) o p = ground (arith, above_rest x xs o.0)
above-last_of (suc n) d (x ∷ []) o p = ground arith
above-last_of (suc n) d (x ∷ y ∷ ys) o p =
    let low = last_of-high n x x (y ∷ ys) o.0 (omega arith) in
    let rest = above-last_of n x (y ∷ ys) o.1 (omega arith) in ground (arith, low, rest)

-- A later key alone selects.
pub above-above :
    (after : Option ℕ) (k : ℕ) (xs : List ℕ)
    → is_after after k ≡ true
    → above (some k) (above after xs) ≡ above (some k) xs
unfolding above
above-above after k [] h = refl
above-above none k (x ∷ xs) h = ground (arith, above-above none k xs h)
above-above (some a) k (x ∷ xs) h = ground (arith, above-above (some a) k xs h)

All-above :
    (j : ℕ) (after : Option ℕ) (xs : List ℕ)
    → All (λ y. j < y) xs
    → All (λ y. j < y) (above after xs)
unfolding above
All-above j after [] h = tt
All-above j after (x ∷ xs) h = elim (Bool-cases (is_after after x)) [
  | inl e ↦ rw e (h.0, All-above j after xs h.1)
  | inr e ↦ rw e (All-above j after xs h.1)
]

pub above-IsIncreasing :
    (after : Option ℕ) (xs : List ℕ) → IsIncreasing xs → IsIncreasing (above after xs)
unfolding above
above-IsIncreasing after [] o = tt
above-IsIncreasing after (x ∷ xs) o = elim (Bool-cases (is_after after x)) [
  | inl e ↦ rw e (All-above x after xs o.0, above-IsIncreasing after xs o.1)
  | inr e ↦ rw e (above-IsIncreasing after xs o.1)
]
