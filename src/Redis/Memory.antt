-- ===== src/Redis/Memory.antt =====
-- An implementation of the interface in memory, at which the laws hold: it runs the tests.
use alert_bot_project.Common.{
  ℕ, zero, suc, ◌+◌, ◌-◌, ◌≤◌, ◌<◌, Text, Text-discrete, ◌≡◌, ◌≢◌, refl, Option, none, some, List,
  [], ◌∷◌, ◌++◌, All, ite, ltb, leb, if◌then◌else◌, length, take, arith, Bool, true, false,
  Bool-cases, Option-cases, inl, inr, length-take,
}
use mathlib.Core.Logic.{if_pos, if_neg}
use alert_bot_project.Redis.{
  MessageId, Key, Key-discrete, Value, word, num, kept, increased, Stream, Stream-discrete, Entry,
  count_of, claimed, Redis,
}

-- A value and its deadline.
abbrev Cell : Type 0
Cell = Option (Value × Option ℕ)

abbrev live : ℕ → Cell → Option Value
live t none = none
live t (some (v, none)) = some v
live t (some (v, some d)) = if ltb t d then some v else none

abbrev deadline : ℕ → Cell → Option ℕ
deadline t none = none
deadline t (some (v, none)) = none
deadline t (some (v, some d)) = if ltb t d then some d else none

abbrev Cells : Type 0
Cells = Key → Cell

abbrev put : Key → Cell → Cells → Cells
put k c s j = ite (Key-discrete k j) c (s j)

-- The value at `t` with another deadline.
abbrev until : ℕ → Cell → Option Value → Cell
until d c none = none
until d c (some v) = some (v, some d)

abbrev Log : Type 0
Log = record { items : Stream → List Entry; owners : Stream → MessageId → Option Text }

abbrev Scores : Type 0
Scores = List (Text × ℕ)

abbrev find_score : Scores → Text → Option ℕ
find_score [] q = none
find_score ((p, n) ∷ z) q = ite (Text-discrete p q) (some n) (find_score z q)

abbrev remove : Text → Scores → Scores
remove p [] = []
remove p ((q, n) ∷ z) = let rest = remove p z in ite (Text-discrete q p) rest ((q, n) ∷ rest)

pub find_score-remove :
    (z : Scores) (p q : Text)
    → find_score (remove p z) q ≡ ite (Text-discrete p q) none (find_score z q)
find_score-remove [] p q = ground arith
find_score-remove ((r, n) ∷ z) p q = ground (arith, find_score-remove z p q)

pub find_score-put :
    (z : Scores) (n : ℕ) (p q : Text)
    → find_score ((p, n) ∷ remove p z) q ≡ ite (Text-discrete p q) (some n) (find_score z q)
find_score-put z n p q = ground (arith, find_score-remove z p q)

abbrev is_due : ℕ → Option ℕ → Bool
is_due limit none = false
is_due limit (some n) = leb n limit

abbrev due_in : Scores → ℕ → Scores → List Text
due_in z limit [] = []
due_in z limit ((p, n) ∷ l) =
    let rest = due_in z limit l in if is_due limit (find_score z p) then p ∷ rest else rest

abbrev IsDue : Scores → ℕ → Text → Type 0
IsDue z limit p = (k : ℕ) × (find_score z p ≡ some k) × (k ≤ limit)

IsDue-of_test :
    (z : Scores) (limit : ℕ) (p : Text) → is_due limit (find_score z p) ≡ true → IsDue z limit p
IsDue-of_test z limit p h = elim (Option-cases (find_score z p)) [
  | inl e ↦ absurd (ground arith)
  | inr (k, e) ↦ (k, e, ground arith)
]

pub due_in-IsDue : (z : Scores) (limit : ℕ) (l : Scores) → All (IsDue z limit) (due_in z limit l)
due_in-IsDue z limit [] = tt
due_in-IsDue z limit ((p, n) ∷ l) = elim (Bool-cases (is_due limit (find_score z p))) [
  | inl e ↦ rw e (IsDue-of_test z limit p e, due_in-IsDue z limit l)
  | inr e ↦ rw e (due_in-IsDue z limit l)
]

pub All-take {ℓ κ} : {A : Type ℓ} (P : A → Type κ) (n : ℕ) (l : List A) → All P l → All P (take n l)
All-take P zero l h = tt
All-take P (suc n) [] h = tt
All-take P (suc n) (x ∷ l) h = (h.0, All-take P n l h.1)

pub length-take-le {ℓ} : {A : Type ℓ} (n : ℕ) (l : List A) → length (take n l) ≤ n
length-take-le n l = omega (arith, length-take n l)

pub get-set_lem :
    (t : ℕ) (s : Cells) (k j : Key) (v : Value)
    → live t (put k (some (v, none)) s j) ≡ ite (Key-discrete k j) (some v) (live t (s j))
get-set_lem t s k j v = ground arith

pub get-set_px_lem :
    (t u : ℕ) (s : Cells) (k j : Key) (v : Value) (ttl : ℕ)
    → live u (put k (some (v, some (t + ttl))) s j)
      ≡ ite (Key-discrete k j) (if ltb u (t + ttl) then some v else none) (live u (s j))
get-set_px_lem t u s k j v ttl = ground arith

pub get-del_lem :
    (t : ℕ) (s : Cells) (k j : Key)
    → live t (put k none s j) ≡ ite (Key-discrete k j) none (live t (s j))
get-del_lem t s k j = ground arith

-- INCR and DECR on a cell.
abbrev increased_cell : ℕ → Cell → Cell
increased_cell t none = some (num 1, none)
increased_cell t (some (num n, none)) = some (num (n + 1), none)
increased_cell t (some (num n, some d)) =
    if ltb t d then some (num (n + 1), some d) else some (num 1, none)
increased_cell t (some (word w, none)) = some (word w, none)
increased_cell t (some (word w, some d)) =
    if ltb t d then some (word w, some d) else some (num 1, none)

live-increased :
    (t u : ℕ) (c : Cell) → t ≤ u → live u (increased_cell t c) ≡ increased (live t c) (live u c)
live-increased t u none h = refl
live-increased t u (some (num n, none)) h = refl
live-increased t u (some (num n, some d)) h = ground arith
live-increased t u (some (word w, none)) h = refl
live-increased t u (some (word w, some d)) h = ground arith

pub get-incr_lem :
    (t u : ℕ) (s : Cells) (k j : Key)
    → t ≤ u
    → live u (put k (increased_cell t (s k)) s j)
      ≡ ite (Key-discrete k j) (increased (live t (s k)) (live u (s k))) (live u (s j))
get-incr_lem t u s k j h = elim (Key-discrete k j) [
  | yes p ↦ rw (if_pos _ p, if_pos _ p) (live-increased t u (s k) h)
  | no p ↦ rw (if_neg _ p, if_neg _ p)
]

live-kept :
    (t u n : ℕ) (c : Cell)
    → t ≤ u
    → 0 < count_of (live t c)
    → live u (some (num n, deadline t c)) ≡ kept n (live u c)
live-kept t u n none h p = absurd (omega arith)
live-kept t u n (some (w, none)) h p = refl
live-kept t u n (some (w, some d)) h p = ground arith

pub get-decr_lem :
    (t u : ℕ) (s : Cells) (k j : Key)
    → t ≤ u
    → 0 < count_of (live t (s k))
    → live u (put k (some (num (count_of (live t (s k)) - 1), deadline t (s k))) s j)
      ≡ ite (Key-discrete k j) (kept (count_of (live t (s k)) - 1) (live u (s k))) (live u (s j))
get-decr_lem t u s k j h p = elim (Key-discrete k j) [
  | yes e ↦ rw (if_pos _ e, if_pos _ e) (live-kept t u _ (s k) h p)
  | no e ↦ rw (if_neg _ e, if_neg _ e)
]

live-until :
    (u d : ℕ) (c : Cell) (o : Option Value) → live u (until d c o) ≡ (if ltb u d then o else none)
live-until u d c none = ground arith
live-until u d c (some v) = refl

pub get-expire_lem :
    (t : ℕ) (s : Cells) (k j : Key) (ttl u : ℕ)
    → live u (put k (until (t + ttl) (s k) (live t (s k))) s j)
      ≡ ite (Key-discrete k j) (if ltb u (t + ttl) then live t (s k) else none) (live u (s j))
get-expire_lem t s k j ttl u = elim (Key-discrete k j) [
  | yes p ↦ rw (if_pos _ p, if_pos _ p) (live-until u (t + ttl) (s k) (live t (s k)))
  | no p ↦ rw (if_neg _ p, if_neg _ p)
]

pub put_ne :
    (u : ℕ) (c : Cell) (s : Cells) (k j : Key) → k ≢ j → live u (put k c s j) ≡ live u (s j)
put_ne u c s k j h = rw (if_neg (Key-discrete k j) h)

abbrev pub memory : Redis
memory = record {
  Keys = Cells;
  get = λ t s k. live t (s k);
  set = λ k v s. put k (some (v, none)) s;
  set_px = λ t k v ttl s. put k (some (v, some (t + ttl))) s;
  del = λ k s. put k none s;
  incr = λ t k s. put k (increased_cell t (s k)) s;
  decr = λ t k s. put k (some (num (count_of (live t (s k)) - 1), deadline t (s k))) s;
  expire = λ t k ttl s. put k (until (t + ttl) (s k) (live t (s k))) s;
  get-set = λ t s k j v. get-set_lem t s k j v;
  get-set_px = get-set_px_lem;
  get-del = get-del_lem;
  get-incr = get-incr_lem;
  get-decr = get-decr_lem;
  get-expire = λ t s k j ttl u _. get-expire_lem t s k j ttl u;
  get-incr_ne = λ t u s k j. put_ne u (increased_cell t (s k)) s k j;
  get-decr_ne =
      λ t u s k j. put_ne u (some (num (count_of (live t (s k)) - 1), deadline t (s k))) s k j;
  get-expire_ne = λ t u s k j ttl. put_ne u (until (t + ttl) (s k) (live t (s k))) s k j;
  Streams = Log;
  entries = λ s n. s.items n;
  owner = λ s n i. s.owners n i;
  xadd = λ n e s. record {
    items = λ m. ite (Stream-discrete n m) (s.items m ++ e ∷ []) (s.items m);
    owners = s.owners;
  };
  xack = λ n i s. record {
    items = s.items;
    owners = λ m j.
        ite (Stream-discrete n m) (ite (Text-discrete i j) none (s.owners m j)) (s.owners m j);
  };
  xclaim = λ n c i s. record {
    items = s.items;
    owners = λ m j.
        ite (Stream-discrete n m)
          (ite (Text-discrete i j) (claimed c (s.owners m j)) (s.owners m j)) (s.owners m j);
  };
  entries-xadd = λ s n m e. refl;
  entries-xack = λ s n m i. refl;
  entries-xclaim = λ s n m c i. refl;
  owner-xadd = λ s n m e i. refl;
  owner-xack = λ s n m i j. refl;
  owner-xclaim = λ s n m c i j. refl;
  Sorted = Scores;
  score = find_score;
  zadd = λ n p z. (p, n) ∷ remove p z;
  zrem = remove;
  due = λ z limit n. take n (due_in z limit z);
  score-zadd = find_score-put;
  score-zrem = find_score-remove;
  due-score = λ z limit n. All-take (IsDue z limit) n (due_in z limit z) (due_in-IsDue z limit z);
  length-due = λ z limit n. length-take-le n (due_in z limit z);
}

-- The empty store.
abbrev pub no_keys : Cells
no_keys k = none

abbrev pub no_streams : Log
no_streams = record { items = λ n. []; owners = λ n i. none }
