-- ===== src/Worker/Job/Decimal.antt =====
-- worker/delivery_contract.py, `canonical_chat_id`: `int` reads what `str` writes.
use alert_bot_project.Common.{
  ℕ, zero, suc, ◌+◌, ◌*◌, ◌/◌, ◌%◌, ◌≤◌, ◌<◌, ◌≡◌, ◌∙◌, refl, ap, sym, ℤ, pos, negsuc, str, digits,
  Text, true, ◌&&◌, some, [], ◌∷◌, length, ltb, leb, arith, if_true, if_false, dec_lt, subst, All,
  All-map, ◌-◌, ◌⊎◌, inl, inr,
}
use alert_bot_project.Worker.Job.{digits_value, magnitude, read_int, in_id_range}

digit_value :
    (m d : ℕ) (acc : Text)
    → d < 10
    → digits_value m ((48 + d) ∷ acc) ≡ digits_value (m * 10 + d) acc
unfolding digits_value
digit_value m d acc h =
    let value : m * 10 + (48 + d - 48) ≡ m * 10 + d = omega arith in
    if_true (leb 48 (48 + d) && leb (48 + d) 57) _ _ (ground arith)
    ∙ ap (λ k. digits_value k acc) value

digits-few : (fuel n : ℕ) (acc : Text) → n < 10 → digits (suc fuel) n acc ≡ (48 + n) ∷ acc
unfolding digits
digits-few fuel n acc h = if_true (ltb n 10) _ _ (ground arith)

digits-more :
    (fuel n : ℕ) (acc : Text)
    → 10 ≤ n
    → digits (suc fuel) n acc ≡ digits fuel (n / 10) ((48 + n % 10) ∷ acc)
unfolding digits
digits-more fuel n acc h = if_false (ltb n 10) _ _ (ground arith)

digits_value-digits :
    (fuel n : ℕ) (acc : Text) → n < fuel → digits_value 0 (digits fuel n acc) ≡ digits_value n acc
digits_value-digits zero n acc h = absurd (omega arith)
digits_value-digits (suc fuel) n acc h = elim (dec_lt n 10) [
  | yes small ↦
      let alone : 0 * 10 + n ≡ n = omega arith in
      ap (digits_value 0) (digits-few fuel n acc small)
      ∙ digit_value 0 n acc small
      ∙ ap (λ k. digits_value k acc) alone
  | no large ↦
      let parts : n / 10 * 10 + n % 10 ≡ n = omega arith in
      ap (digits_value 0) (digits-more fuel n acc (omega (arith, large)))
      ∙ digits_value-digits fuel (n / 10) ((48 + n % 10) ∷ acc) (omega (arith, large))
      ∙ digit_value (n / 10) (n % 10) acc (omega arith)
      ∙ ap (λ k. digits_value k acc) parts
]

-- A text of digits is not empty, begins with a digit, and has at most as many as its number.
abbrev pub IsDigit : ℕ → Type 0
IsDigit c = (48 ≤ c) × (c ≤ 57)

pub digits-IsDigit : (fuel n : ℕ) (acc : Text) → All IsDigit acc → All IsDigit (digits fuel n acc)
unfolding digits
digits-IsDigit zero n acc h = h
digits-IsDigit (suc fuel) n acc h = elim (dec_lt n 10) [
  | yes small ↦
      subst (All IsDigit) (sym (digits-few fuel n acc small)) ((omega arith, omega arith), h)
  | no large ↦
      subst (All IsDigit) (sym (digits-more fuel n acc (omega (arith, large))))
        (digits-IsDigit fuel (n / 10) ((48 + n % 10) ∷ acc) ((omega arith, omega arith), h))
]

length-digits-pos :
    (fuel n : ℕ) (acc : Text) → 0 < fuel ⊎ (0 < length acc) → 0 < length (digits fuel n acc)
unfolding digits
length-digits-pos zero n acc (inl h) = absurd (omega arith)
length-digits-pos zero n acc (inr h) = h
length-digits-pos (suc fuel) n acc h = elim (dec_lt n 10) [
  | yes small ↦ subst (λ t. 0 < length t) (sym (digits-few fuel n acc small)) (omega arith)
  | no large ↦
      subst (λ t. 0 < length t) (sym (digits-more fuel n acc (omega (arith, large))))
        (length-digits-pos fuel (n / 10) ((48 + n % 10) ∷ acc) (inr (omega arith)))
]

magnitude-value : (t : Text) → 0 < length t → magnitude t ≡ digits_value 0 t
unfolding magnitude
magnitude-value [] h = absurd (omega arith)
magnitude-value (c ∷ cs) h = refl

magnitude-digits : (n : ℕ) → magnitude (digits (suc n) n []) ≡ some n
unfolding digits_value
magnitude-digits n =
    magnitude-value (digits (suc n) n []) (length-digits-pos (suc n) n [] (inl (omega arith)))
    ∙ digits_value-digits (suc n) n [] (omega arith)

read_digits : (t : Text) (n : ℕ) → All IsDigit t → magnitude t ≡ some n → read_int t ≡ some (pos n)
unfolding read_int
read_digits [] n h e = absurd (ground (arith, e))
read_digits (c ∷ cs) n h e = ground (arith, e, h.0.0)

read_negative :
    (t : Text) (n : ℕ) → magnitude t ≡ some (suc n) → read_int (b'-' ∷ t) ≡ some (negsuc n)
unfolding read_int
read_negative t n e = ground (arith, e)

str-pos : (n : ℕ) → str (pos n) ≡ digits (suc n) n []
unfolding str
str-pos n = refl

str-negsuc : (n : ℕ) → str (negsuc n) ≡ b'-' ∷ digits (suc (suc n)) (suc n) []
unfolding str
str-negsuc n = refl

-- A text that `str` writes is read as its number.
pub read_int-str : (z : ℤ) → read_int (str z) ≡ some z
read_int-str (pos n) =
    ap read_int (str-pos n)
    ∙ read_digits (digits (suc n) n []) n (digits-IsDigit (suc n) n [] tt) (magnitude-digits n)
read_int-str (negsuc n) =
    ap read_int (str-negsuc n)
    ∙ read_negative (digits (suc (suc n)) (suc n) []) n (magnitude-digits (suc n))

-- The power of ten that bounds the number of digits.
abbrev pow10 : ℕ → ℕ
pow10 zero = 1
pow10 (suc k) = 10 * pow10 k

length-digits-le :
    (k fuel n : ℕ) (acc : Text) → n < pow10 k → 0 < k → length (digits fuel n acc) ≤ k + length acc
unfolding digits
length-digits-le zero fuel n acc h p = absurd (omega arith)
length-digits-le (suc k) zero n acc h p = omega arith
length-digits-le (suc k) (suc fuel) n acc h p = elim (dec_lt n 10) [
  | yes small ↦
      subst (λ t. length t ≤ suc k + length acc) (sym (digits-few fuel n acc small)) (omega arith)
  | no large ↦
      let more = digits-more fuel n acc (omega (arith, large)) in
      let left : n / 10 < pow10 k = omega arith in
      let some_left : 0 < k = elim (dec_lt 0 k) [
        | yes q ↦ q
        | no q ↦ absurd (none_left k q large left)
      ] in
      let fewer = length-digits-le k fuel (n / 10) ((48 + n % 10) ∷ acc) left some_left in
      subst (λ t. length t ≤ suc k + length acc) (sym more) (omega (arith, fewer))
]
  where
    none_left : (j : ℕ) → ¬ (0 < j) → ¬ (n < 10) → n / 10 < pow10 j → ⊥
    none_left zero q large left = omega (arith, large)
    none_left (suc j) q large left = q (omega arith)

-- A number in the range of identifiers has at most 16 digits, and perhaps a sign.
pub length-str-le : (z : ℤ) → in_id_range z ≡ true → length (str z) ≤ 17
length-str-le (pos n) h =
    subst (λ t. length t ≤ 17) (sym (str-pos n))
      (omega (arith, length-digits-le 16 (suc n) n [] (ground arith) (omega arith)))
length-str-le (negsuc n) h =
    subst (λ t. length t ≤ 17) (sym (str-negsuc n))
      (omega (arith, length-digits-le 16 (suc (suc n)) (suc n) [] (ground arith) (omega arith)))

-- The characters of a number are digits and the sign.
abbrev pub IsNumeral : ℕ → Type 0
IsNumeral c = IsDigit c ⊎ (c ≡ b'-')

pub str-IsNumeral : (z : ℤ) → All IsNumeral (str z)
str-IsNumeral (pos n) =
    subst (All IsNumeral) (sym (str-pos n))
      (All-map IsDigit IsNumeral _ (λ c h. inl h) (digits-IsDigit (suc n) n [] tt))
str-IsNumeral (negsuc n) = subst (All IsNumeral) (sym (str-negsuc n)) (
  inr refl,
  All-map IsDigit IsNumeral _ (λ c h. inl h) (digits-IsDigit (suc (suc n)) (suc n) [] tt),
)
