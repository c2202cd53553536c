-- ===== src/Worker/Matcher.antt =====
-- worker/custom_matcher.py: the bounded Aho-Corasick matcher of the users' own phrases.
pub mod Labels
pub mod Grow
pub mod Trie
pub mod Fall
pub mod Links
pub mod Queue
pub mod Rows
pub mod Built
pub mod Bounds
pub mod Found
pub mod Exact
pub mod Reload
use alert_bot_project.Common.{
  sorted, ℕ, zero, suc, ◌+◌, ◌-◌, ◌^◌, Text, Bool, true, false, not, ◌&&◌, ◌||◌, Option, none, some,
  List, [], ◌∷◌, ◌++◌, length, drop, get_or, set, ltb, leb, ◌==◌, if◌then◌else◌, is_in, same,
}
use alert_bot_project.Shared.Constants.{max_global_custom_triggers}

-- A dict from characters to nodes, in the order of insertion.
abbrev pub Edges : Type 0
Edges = List (ℕ × ℕ)

-- edges.get(char)
unfoldable pub edge_at : ℕ → Edges → Option ℕ
edge_at c [] = none
edge_at c ((d, child) ∷ row) = if d == c then some child else edge_at c row

-- _edges, _fail and _outputs. Every node is below the length of the three lists, which the
-- invariant of Matcher/Labels shows, so the defaults of `get_or` below are never read.
pub record Machine : Type 0 where
  pub edges : List Edges
  pub fail : List ℕ
  pub outputs : List (List Text)

abbrev pub row : Machine → ℕ → Edges
row m node = get_or m.edges node []

abbrev pub fail_of : Machine → ℕ → ℕ
fail_of m node = get_or m.fail node 0

abbrev pub outputs_of : Machine → ℕ → List Text
outputs_of m node = get_or m.outputs node []

abbrev pub blank : Machine
blank = record { edges = [] ∷ []; fail = 0 ∷ []; outputs = [] ∷ [] }

-- one round of `for char in phrase`
unfoldable pub grow : Machine → ℕ → ℕ → Machine
grow m node c = record {
  edges = set m.edges node (row m node ++ (c, length m.edges) ∷ []) ++ [] ∷ [];
  fail = m.fail ++ 0 ∷ [];
  outputs = m.outputs ++ [] ∷ [];
}

unfoldable pub add_char : Machine → ℕ → ℕ → Machine × ℕ
unfolding grow
add_char m node c = elim (edge_at c (row m node)) [
  | some child ↦ (m, child)
  | none ↦ (grow m node c, length m.edges)
]

unfoldable pub add_chars : Machine → ℕ → Text → Machine × ℕ
unfolding add_char
add_chars m node [] = (m, node)
add_chars m node (c ∷ cs) = let (m', child) = add_char m node c in add_chars m' child cs

unfoldable pub add_output : Machine → ℕ → Text → Machine
add_output m node phrase = record m {
  outputs = set m.outputs node (outputs_of m node ++ phrase ∷ []);
}

unfoldable pub add_phrases : Machine → List Text → Machine
unfolding add_chars add_output
add_phrases m [] = m
add_phrases m (phrase ∷ phrases) =
    let (m', node) = add_chars m 0 phrase in add_phrases (add_output m' node phrase) phrases

-- `while node and char not in edges[node]: node = fail[node]`; none when the fuel is used up
unfoldable pub fall : Machine → ℕ → ℕ → ℕ → Option ℕ
fall m zero node c = none
fall m (suc fuel) node c =
    let next = fall m fuel (fail_of m node) c in
    if node == 0
    then some node
    else elim (edge_at c (row m node)) [ some _ ↦ some node | none ↦ next ]

-- edges[node].get(char, 0)
abbrev pub target : Machine → ℕ → ℕ → ℕ
target m node c = elim (edge_at c (row m node)) [ some child ↦ child | none ↦ 0 ]

-- the two writes for one child
unfoldable pub link : Machine → ℕ → ℕ → Machine
link m child fallback = record m {
  fail = set m.fail child fallback;
  outputs = set m.outputs child (outputs_of m child ++ outputs_of m fallback);
}

-- `for char, child in edges[node].items()`, without the appends to the queue
unfoldable pub link_row : Machine → ℕ → Edges → Option Machine
unfolding link fall
link_row m node [] = some m
link_row m node ((c, child) ∷ rest) = elim (fall m (length m.edges) (fail_of m node) c) [
  | none ↦ none
  | some fallback ↦ link_row (link m child (target m fallback c)) node rest
]

abbrev pub children : Edges → List ℕ
children [] = []
children ((c, child) ∷ rest) = child ∷ children rest

-- the loop over the queue
unfoldable pub link_all : ℕ → Machine → List ℕ → Option Machine
unfolding link_row
link_all fuel m [] = some m
link_all zero m (node ∷ queue) = none
link_all (suc fuel) m (node ∷ queue) = elim (link_row m node (row m node)) [
  | none ↦ none
  | some m' ↦ link_all fuel m' (queue ++ children (row m node))
]

-- _build: the children of a node have larger numbers than it, so 2 to the number of nodes bounds
-- the rounds of the queue
unfoldable pub build : List Text → Option Machine
unfolding sorted add_phrases link_all
build phrases =
    let m = add_phrases blank (sorted phrases) in
    link_all (2 ^ length m.edges) m (children (row m 0))

-- CustomTriggerMatcher: `loaded` is _loaded with the version that was read for it.
pub record CustomTriggerMatcher : Type 0 where
  pub machine : Machine
  pub version : Option Text
  pub loaded : Bool

pub data MatchAnswer : Type 0 where
  matched : List Text → MatchAnswer
  -- ValueError
  limit_exceeded : MatchAnswer
  out_of_fuel : MatchAnswer

abbrev same_version : Option Text → Option Text → Bool
same_version none none = true
same_version none (some b) = false
same_version (some a) none = false
same_version (some a) (some b) = same a b

abbrev answer : Option (List Text) → MatchAnswer
answer none = out_of_fuel
answer (some ts) = matched ts

module _ (is_alnum : ℕ → Bool) where
  -- _word_char
  abbrev pub word_char : ℕ → Bool
  word_char c = is_alnum c || (c == 95)

  -- `i < len(text) and _word_char(text[i])`
  abbrev pub word_at : Text → ℕ → Bool
  word_at text i = ltb i (length text) && word_char (get_or text i 0)

  -- the loop on suffix_end, which has this many rounds at most
  unfoldable pub skip_suffix : ℕ → Text → ℕ → ℕ
  skip_suffix zero text i = i
  skip_suffix (suc n) text i =
      let rest = skip_suffix n text (i + 1) in if word_at text i then rest else i

  -- the two tests of a phrase whose last character has the index `end`
  unfoldable pub stands : Text → ℕ → Text → Bool
  unfolding skip_suffix
  stands text end phrase =
      let start = end + 1 - length phrase in
      not (ltb 0 start && word_char (get_or text (start - 1) 0))
      && not (word_at text (skip_suffix 3 text (end + 1)))

  -- `for phrase in outputs[node]`
  unfoldable pub add_matches : Text → ℕ → List Text → List Text → List Text
  unfolding stands
  add_matches text end [] matches = matches
  add_matches text end (phrase ∷ phrases) matches = add_matches text end phrases (
      if stands text end phrase && not (is_in phrase matches)
      then matches ++ phrase ∷ []
      else matches)

  -- the loop on the characters, at the index `end`
  unfoldable pub scan_text : Machine → Text → ℕ → ℕ → Text → List Text → Option (List Text)
  unfolding fall add_matches
  scan_text m text node end [] matches = some matches
  scan_text m text node end (c ∷ cs) matches = elim (fall m (length m.edges) node c) [
    | none ↦ none
    | some at ↦
        scan_text m text (target m at c) (end + 1) cs
          (add_matches text end (outputs_of m (target m at c)) matches)
  ]

  -- _match
  unfoldable pub find_matches : Machine → Text → Option (List Text)
  unfolding scan_text sorted
  find_matches m text = elim (scan_text m text 0 0 text []) [
    | none ↦ none
    | some matches ↦ some (sorted matches)
  ]

  -- get_matches, with the version and the phrases that Redis returned
  unfoldable pub get_matches :
      Option Text → List Text → Text → CustomTriggerMatcher → MatchAnswer × CustomTriggerMatcher
  unfolding build find_matches
  get_matches version phrases text s =
      if s.loaded && same_version version s.version
      then (answer (find_matches s.machine text), s)
      else if ltb max_global_custom_triggers (length phrases)
      then (limit_exceeded, s)
      else elim (build phrases) [
        | none ↦ (out_of_fuel, s)
        | some m ↦
            (answer (find_matches m text), record { machine = m; version = version; loaded = true })
      ]
