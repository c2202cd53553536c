-- ===== src/Scraper/Outbox.antt =====
-- scraper/outbox.py: the local tables of posts that wait for Redis, and of source checkpoints. Each
-- method is one SQL statement; a table is the list of its rows.
pub mod Rows
use alert_bot_project.Common.{
  ℕ, suc, ℤ, pos, negsuc, ℤ-discrete, Text, Bool, true, false, not, ◌&&◌, Option, none, some, List,
  [], ◌∷◌, ite, ltb, leb, ◌==◌, if◌then◌else◌, take, length, max,
}

-- A row of pending_posts.
pub record Post : Type 0 where
  pub chat_id : ℤ
  pub message_id : ℕ
  pub payload : Text

-- A row of source_checkpoints.
pub record Checkpoint : Type 0 where
  pub chat_id : ℤ
  pub last_reconciled_id : ℕ

pub record ScraperOutbox : Type 0 where
  pub pending_posts : List Post
  pub source_checkpoints : List Checkpoint

abbrev pub same_chat : ℤ → ℤ → Bool
same_chat a b = ite (ℤ-discrete a b) true false

-- WHERE chat_id = ? AND message_id = ?
abbrev pub is_row : ℤ → ℕ → Post → Bool
is_row chat message p = same_chat p.chat_id chat && p.message_id == message

-- The payload of the row with this primary key.
unfoldable pub find_post : ℤ → ℕ → List Post → Option Text
find_post chat message [] = none
find_post chat message (p ∷ ps) =
    let rest = find_post chat message ps in if is_row chat message p then some p.payload else rest

-- INSERT OR IGNORE
unfoldable pub insert_post : ℤ → ℕ → Text → List Post → List Post
insert_post chat message payload ps = elim (find_post chat message ps) [
  | none ↦ record { chat_id = chat; message_id = message; payload = payload } ∷ ps
  | some _ ↦ ps
]

unfoldable pub delete_post : ℤ → ℕ → List Post → List Post
delete_post chat message [] = []
delete_post chat message (p ∷ ps) =
    let rest = delete_post chat message ps in if is_row chat message p then rest else p ∷ rest

unfoldable pub find_checkpoint : ℤ → List Checkpoint → Option ℕ
find_checkpoint chat [] = none
find_checkpoint chat (c ∷ cs) =
    let rest = find_checkpoint chat cs in
    if same_chat c.chat_id chat then some c.last_reconciled_id else rest

-- ON CONFLICT (chat_id) DO UPDATE SET last_reconciled_id = MAX(...)
unfoldable pub upsert_checkpoint : ℤ → ℕ → List Checkpoint → List Checkpoint
upsert_checkpoint chat message [] = record { chat_id = chat; last_reconciled_id = message } ∷ []
upsert_checkpoint chat message (c ∷ cs) =
    let rest = upsert_checkpoint chat message cs in
    if same_chat c.chat_id chat
    then record c { last_reconciled_id = max c.last_reconciled_id message } ∷ cs
    else c ∷ rest

unfoldable pub put : ℤ → ℕ → Text → ScraperOutbox → ScraperOutbox
put chat message payload o = record o {
  pending_posts = insert_post chat message payload o.pending_posts;
}

-- the order of SQLite on integers
int_le : ℤ → ℤ → Bool
int_le (pos m) (pos n) = leb m n
int_le (pos m) (negsuc n) = false
int_le (negsuc m) (pos n) = true
int_le (negsuc m) (negsuc n) = leb n m

-- ORDER BY chat_id, message_id
row_le : Post → Post → Bool
unfolding int_le
row_le p q =
    if same_chat p.chat_id q.chat_id
    then leb p.message_id q.message_id
    else int_le p.chat_id q.chat_id

insert_row : Post → List Post → List Post
unfolding row_le
insert_row p [] = p ∷ []
insert_row p (q ∷ qs) = let rest = insert_row p qs in if row_le p q then p ∷ q ∷ qs else q ∷ rest

unfoldable pub ordered : List Post → List Post
unfolding insert_row
ordered [] = []
ordered (p ∷ ps) = insert_row p (ordered ps)

-- LIMIT ?
unfoldable pub pending : ℕ → ScraperOutbox → List Post
pending limit o = take limit (ordered o.pending_posts)

unfoldable pub delete : ℤ → ℕ → ScraperOutbox → ScraperOutbox
delete chat message o = record o { pending_posts = delete_post chat message o.pending_posts }

unfoldable pub count : ScraperOutbox → ℕ
count o = length o.pending_posts

unfoldable pub checkpoint : ℤ → ScraperOutbox → Option ℕ
checkpoint chat o = find_checkpoint chat o.source_checkpoints

unfoldable pub advance_checkpoint : ℤ → ℕ → ScraperOutbox → ScraperOutbox
advance_checkpoint chat message o = record o {
  source_checkpoints = upsert_checkpoint chat message o.source_checkpoints;
}
