-- ===== src/Worker/FanOut/Complete.antt =====
-- worker/main.py: the loop over the pages reaches every selected user once, in order.
use alert_bot_project.Common.{
  ℕ, zero, suc, pos, ◌+◌, ◌<◌, ◌≤◌, ◌≡◌, refl, ◌∙◌, sym, ap, subst, Text, Bool, true, Option, none,
  some, List, [], ◌∷◌, ◌++◌, All, map, min, dec_lt, arith, length, take, length-take, Bool-cases,
  All-if, inl, inr,
}
use alert_bot_project.Redis.{Redis, Db}
use alert_bot_project.Shared.Platform.{Platform}
use alert_bot_project.Worker.Broadcaster.Enqueue.{Alert, dispatch_alerts}
use alert_bot_project.Worker.FanOut.{
  UserSettings, page_limit, is_after, is_target, selected, last_of, fan_out,
  get_target_user_ids_page,
}
use alert_bot_project.Worker.FanOut.Pages.{
  IsIncreasing, IsOrdered, above, drop, take-drop, selected-above, above-last_of, above-above,
  above-IsIncreasing,
}

above_after : (after : Option ℕ) (xs : List ℕ) → All (λ y. is_after after y ≡ true) (above after xs)
unfolding above
above_after after [] = tt
above_after after (x ∷ xs) =
    All-if (λ y. is_after after y ≡ true) (is_after after x) x (above after xs) (λ e. e)
      (above_after after xs)

last_of-All :
    (P : ℕ → Bool) (n d : ℕ) (xs : List ℕ)
    → All (λ y. P y ≡ true) xs
    → 0 < length xs
    → P (last_of d (take (suc n) xs)) ≡ true
unfolding last_of
last_of-All P n d [] h p = absurd (omega arith)
last_of-All P zero d (x ∷ xs) h p = h.0
last_of-All P (suc n) d (x ∷ []) h p = h.0
last_of-All P (suc n) d (x ∷ y ∷ ys) h p = last_of-All P n x (y ∷ ys) h.1 (omega arith)

next_page :
    (n : ℕ) (after : Option ℕ) (xs : List ℕ)
    → IsIncreasing xs
    → 0 < length (above after xs)
    → above (some (last_of 0 (take (suc n) (above after xs)))) xs ≡ drop (suc n) (above after xs)
next_page n after xs o p =
    let late = last_of-All (is_after after) n 0 (above after xs) (above_after after xs) p in
    sym (above-above after (last_of 0 (take (suc n) (above after xs))) xs late)
    ∙ above-last_of n 0 (above after xs) (above-IsIncreasing after xs o) p

selected-IsIncreasing :
    (p : UserSettings → Bool) (us : List UserSettings)
    → IsOrdered us
    → IsIncreasing (selected p none us)
      × ((k : ℕ) → All (λ v. k < v.user_id) us → All (λ y. k < y) (selected p none us))
unfolding selected
selected-IsIncreasing p [] o = (tt, λ k h. tt)
selected-IsIncreasing p (u ∷ us) o =
    let rest = selected-IsIncreasing p us o.1 in
    elim (Bool-cases (p u)) [
      | inl e ↦ (rw e (rest.1 u.user_id o.0, rest.0), λ k h. rw e (h.0, rest.1 k h.1))
      | inr e ↦ (rw e rest.0, λ k h. rw e (rest.1 k h.1))
    ]

length-drop : (n : ℕ) (xs : List ℕ) → length (drop (suc n) xs) + min (suc n) (length xs) ≡ length xs
length-drop n [] = omega arith
length-drop zero (x ∷ xs) = omega arith
length-drop (suc n) (x ∷ xs) = omega (arith, length-drop n xs)

empty_of : (xs : List ℕ) → length xs ≡ 0 → xs ≡ []
empty_of [] h = refl
empty_of (x ∷ xs) h = absurd (omega (arith, h))

take_all : (n : ℕ) (xs : List ℕ) → length xs ≤ n → take n xs ≡ xs
take_all zero [] h = refl
take_all zero (x ∷ xs) h = absurd (omega arith)
take_all (suc n) [] h = refl
take_all (suc n) (x ∷ xs) h = ap (λ ys. x ∷ ys) (take_all n xs (omega arith))

-- The users of the next page are those that follow the page.
selected_next :
    (p : UserSettings → Bool) (after : Option ℕ) (users : List UserSettings)
    → IsOrdered users
    → 0 < length (selected p after users)
    → selected p (some (last_of 0 (take page_limit (selected p after users)))) users
      ≡ drop page_limit (selected p after users)
selected_next p after users o h =
    let xs = selected p none users in
    let same = selected-above p after users in
    let long : 0 < length (above after xs) = subst (λ ys. 0 < length ys) same h in
    let step = next_page 499 after xs (selected-IsIncreasing p users o).0 long in
    let last = last_of 0 (take page_limit (selected p after users)) in
    selected-above p (some last) users
    ∙ subst (λ ys. above (some (last_of 0 (take page_limit ys))) xs ≡ drop page_limit ys) (sym same)
        step

module _ (P : Platform) (R : Redis) where
  dispatch_alerts-append :
      (now : ℕ) (a : Alert) (xs ys : List ℕ) (s : Db R)
      → dispatch_alerts P R now a (map pos (xs ++ ys)) s
        ≡ dispatch_alerts P R now a (map pos ys) (dispatch_alerts P R now a (map pos xs) s)
  unfolding dispatch_alerts
  dispatch_alerts-append now a [] ys s = refl
  dispatch_alerts-append now a (x ∷ xs) ys s = dispatch_alerts-append now a xs ys _

  fan_out-nobody :
      (fuel now : ℕ) (a : Alert) (c : Text) (categories triggers : List Text)
      (users : List UserSettings) (after : Option ℕ) (s : Db R)
      → selected (is_target now (c ∷ categories) triggers) after users ≡ []
      → fan_out P R (suc fuel) now a (c ∷ categories) triggers users after s ≡ (
        true,
        dispatch_alerts P R now a
            (map pos (selected (is_target now (c ∷ categories) triggers) after users))
            s,
      )
  unfolding fan_out get_target_user_ids_page dispatch_alerts
  fan_out-nobody fuel now a c categories triggers users after s h =
      rw (h, fan_out, get_target_user_ids_page) refl

  -- The loop over the pages, on a table with increasing keys, for some category and with fuel for
  -- more rounds than there are selected users: it ends, and it has enqueued the alert for exactly
  -- the users that the conditions select, each once, in the order of their ids.
  pub fan_out-selected :
      (fuel now : ℕ) (a : Alert) (c : Text) (categories triggers : List Text)
      (users : List UserSettings) (after : Option ℕ) (s : Db R)
      → IsOrdered users
      → length (selected (is_target now (c ∷ categories) triggers) after users) < fuel
      → fan_out P R fuel now a (c ∷ categories) triggers users after s ≡ (
        true,
        dispatch_alerts P R now a
            (map pos (selected (is_target now (c ∷ categories) triggers) after users))
            s,
      )
  unfolding fan_out get_target_user_ids_page
  fan_out-selected zero now a c categories triggers users after s o f = absurd (omega arith)
  fan_out-selected (suc fuel) now a c categories triggers users after s o f =
      let p = is_target now (c ∷ categories) triggers in
      let ys = selected p after users in
      let page = take page_limit ys in
      let size = length-take page_limit ys in
      elim (dec_lt 0 (length ys)) [
        | no e ↦
            let nobody = empty_of ys (omega (arith, e)) in
            fan_out-nobody fuel now a c categories triggers users after s nobody
        | yes some_left ↦ elim (dec_lt (length ys) page_limit) [
          | yes short ↦ ground (arith, size, take_all page_limit ys (omega arith))
          | no full ↦
              let after' = some (last_of 0 page) in
              let s' = dispatch_alerts P R now a (map pos page) s in
              let following = selected_next p after users o some_left in
              let fewer = length-drop 499 ys in
              let rest =
                fan_out-selected fuel now a c categories triggers users after' s' o
                  (ground (arith, following, fewer)) in
              ground (
                arith,
                size,
                rest,
                following,
                take-drop page_limit ys,
                dispatch_alerts-append now a page (drop page_limit ys) s,
              )
        ]
      ]
