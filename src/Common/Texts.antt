-- ===== src/Common/Texts.antt =====
-- Equality of texts as a Boolean, membership in a list of texts, and slices.
use Prim.Native.Nat.{ℕ, zero, suc}
use mathlib.Core.Bool.{Bool, true, false, ◌||◌}
use mathlib.Core.Logic.{ite}
use alert_bot_project.Common.Tests.{if◌then◌else◌, ltb, ◌==◌}
use mathlib.Core.Path.{◌≡◌, refl}
use mathlib.Core.List.{List, [], ◌∷◌, ◌++◌}
use native.Mathlib.Omega.{arith}
use alert_bot_project.Common.Lists.{Text, Text-discrete}

abbrev pub same : Text → Text → Bool
same a b = ite (Text-discrete a b) true false

abbrev pub is_in : Text → List Text → Bool
is_in t [] = false
is_in t (x ∷ xs) = same t x || is_in t xs

abbrev pub drop {ℓ} : {A : Type ℓ} → ℕ → List A → List A
drop zero xs = xs
drop (suc n) [] = []
drop (suc n) (x ∷ xs) = drop n xs

abbrev pub is_empty {ℓ} : {A : Type ℓ} → List A → Bool
is_empty [] = true
is_empty (x ∷ xs) = false

abbrev pub any {ℓ} : {A : Type ℓ} → (A → Bool) → List A → Bool
any p [] = false
any p (x ∷ xs) = p x || any p xs

unfoldable pub filter {ℓ} : {A : Type ℓ} → (A → Bool) → List A → List A
filter p [] = []
filter p (x ∷ xs) = let rest = filter p xs in if p x then x ∷ rest else rest

pub is_in-append_left :
    (t : Text) (xs ys : List Text) → is_in t xs ≡ true → is_in t (xs ++ ys) ≡ true
is_in-append_left t [] ys h = absurd (ground arith)
is_in-append_left t (x ∷ xs) ys h = ground (arith, is_in-append_left t xs ys)

pub is_in-append_right :
    (t : Text) (xs ys : List Text) → is_in t ys ≡ true → is_in t (xs ++ ys) ≡ true
is_in-append_right t [] ys h = h
is_in-append_right t (x ∷ xs) ys h = ground (arith, is_in-append_right t xs ys)

pub same_self : (t : Text) → same t t ≡ true
same_self t = ground arith

-- sorted(..) of texts, which compares code points
unfoldable pub text_le : Text → Text → Bool
text_le [] t = true
text_le (c ∷ cs) [] = false
text_le (c ∷ cs) (d ∷ ds) = let rest = text_le cs ds in if c == d then rest else ltb c d

unfoldable pub insert : Text → List Text → List Text
insert t [] = t ∷ []
insert t (x ∷ xs) = let rest = insert t xs in if text_le t x then t ∷ x ∷ xs else x ∷ rest

unfoldable pub sorted : List Text → List Text
unfolding text_le insert
sorted [] = []
sorted (x ∷ xs) = insert x (sorted xs)

is_in-insert : (q t : Text) (ts : List Text) → is_in q (insert t ts) ≡ (same q t || is_in q ts)
unfolding insert
is_in-insert q t [] = refl
is_in-insert q t (x ∷ xs) = ground (arith, is_in-insert q t xs)

pub is_in-sorted : (q : Text) (ts : List Text) → is_in q (sorted ts) ≡ is_in q ts
unfolding sorted
is_in-sorted q [] = refl
is_in-sorted q (x ∷ xs) = ground (arith, is_in-insert q x (sorted xs), is_in-sorted q xs)
