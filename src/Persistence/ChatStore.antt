-- ===== src/Persistence/ChatStore.antt =====
-- persistence/chat_store.py: the conversations of the users, in Postgres.
--
-- The two tables are lists of rows, the oldest first; the constraints of docs/supabase_schema.sql are
-- written out. A user id is the server's own and always a uuid; a conversation id comes from the
-- client, and `parse_uuid` is `uuid.UUID`. The database is none where `POSTGRES_DSN` is not set. The
-- ids and times that Postgres makes up are arguments. Rows of one time are ordered by their place
-- in the table, which is one of the orders that the database may choose. The creation time of a
-- conversation, which nothing reads, is left out; `audio_path` is written by the web client alone.
pub mod Rows
pub mod Turns
pub mod Owners
mod Examples
use sarvam.Prelude.{
  ℕ, zero, suc, ◌+◌, ◌*◌, Bool, true, false, ◌&&◌, not, Option, none, some, List, [], ◌∷◌, ◌++◌,
  String, Text, map, keep, any, leb, str_eq, if◌then◌else◌,
}

pub data Role : Type 0 where
  user assistant : Role

pub record Conversation : Type 0 where
  pub id : String
  pub user_id : String
  pub updated_at : ℕ

pub record StoredMessage : Type 0 where
  pub id : String
  pub conversation_id : String
  pub user_id : String
  pub role : Role
  pub content : Text
  pub audio_path : Option String
  pub response_language : Option String
  pub created_at : ℕ

pub record Db : Type 0 where
  pub conversations : List Conversation
  pub messages : List StoredMessage

-- `order by key`, which keeps the order of equal keys.
abbrev insert_by : {A : Type 0} → (A → ℕ) → A → List A → List A
insert_by key x [] = x ∷ []
insert_by key x (y ∷ ys) = if leb (key x) (key y) then x ∷ y ∷ ys else y ∷ insert_by key x ys

abbrev pub order_by : {A : Type 0} → (A → ℕ) → List A → List A
order_by key [] = []
order_by key (x ∷ xs) = insert_by key x (order_by key xs)

-- `order by key desc`
abbrev insert_desc : {A : Type 0} → (A → ℕ) → A → List A → List A
insert_desc key x [] = x ∷ []
insert_desc key x (y ∷ ys) = if leb (key y) (key x) then x ∷ y ∷ ys else y ∷ insert_desc key x ys

abbrev pub order_by_desc : {A : Type 0} → (A → ℕ) → List A → List A
order_by_desc key [] = []
order_by_desc key (x ∷ xs) = insert_desc key x (order_by_desc key xs)

abbrev pub owned_by : String → String → Conversation → Bool
owned_by cid uid c = str_eq c.id cid && str_eq c.user_id uid

abbrev first_content : List StoredMessage → Option Text
first_content [] = none
first_content (m ∷ ms) = some m.content

abbrev head_of : {A : Type 0} → List A → Option A
head_of [] = none
head_of (x ∷ xs) = some x

-- The row of `list_conversations`.
pub record Listed : Type 0 where
  pub id : String
  pub updated_at : ℕ
  pub title : Option Text

unfoldable pub title_of : Db → Conversation → Option Text
title_of db c =
    first_content
      (order_by (λ m. m.created_at) (keep (λ m. str_eq m.conversation_id c.id) db.messages))

unfoldable pub list_conversations : String → Option Db → List Listed
unfolding title_of
list_conversations uid none = []
list_conversations uid (some db) =
    map (λ c. record { id = c.id; updated_at = c.updated_at; title = title_of db c })
      (order_by_desc (λ c. c.updated_at) (keep (λ c. str_eq c.user_id uid) db.conversations))

-- `new_id` is the id that Postgres makes up.
unfoldable pub create_conversation : String → String → ℕ → Option Db → Option String × (Option Db)
create_conversation uid new_id now none = (none, none)
create_conversation uid new_id now (some db) = (
  some new_id,
  some (record db {
    conversations =
        db.conversations ++ (record { id = new_id; user_id = uid; updated_at = now } ∷ []);
  }),
)

-- Where a row is inserted: the transaction's time, and the id where the caller gives none.
pub record Clock : Type 0 where
  pub now : ℕ
  pub new_id : String

abbrev pub id_or : Option String → Clock → String
id_or none t = t.new_id
id_or (some i) t = i

-- The insert, and the update of the conversation's `updated_at`.
abbrev pub with_row : StoredMessage → Db → Db
with_row row db = record {
  conversations =
      map
        (λ c.
          if str_eq c.id row.conversation_id then record c { updated_at = row.created_at } else c)
        db.conversations;
  messages = db.messages ++ (row ∷ []);
}

abbrev pub may_insert : StoredMessage → Db → Bool
may_insert row db =
    any (λ c. str_eq c.id row.conversation_id) db.conversations
    && not (any (λ m. str_eq m.id row.id) db.messages)

abbrev pub row_of : String → String → Role → Text → Option String → String → ℕ → StoredMessage
row_of cid uid role content language row_id now = record {
  id = row_id;
  conversation_id = cid;
  user_id = uid;
  role = role;
  content = content;
  audio_path = none;
  response_language = language;
  created_at = now;
}

-- The foreign key and the primary key of `messages`; none is the exception.
unfoldable pub insert_message_on :
    String
    → String
    → Role
    → Text
    → Option String
    → Option String
    → Clock
    → Db
    → Option (String × Db)
insert_message_on cid uid role content language message_id t db =
    let row = row_of cid uid role content language (id_or message_id t) t.now in
    if may_insert row db then some (row.id, with_row row db) else none

unfoldable pub insert_message :
    String
    → String
    → Role
    → Text
    → Option String
    → Option String
    → Clock
    → Option Db
    → Option (Option (String × Db))
insert_message cid uid role content language message_id t none = some none
insert_message cid uid role content language message_id t (some db) =
    elim (insert_message_on cid uid role content language message_id t db) [
      | none ↦ none
      | some r ↦ some (some r)
    ]

module _ (parse_uuid : String → Option String) where
  -- The row's deletion takes its messages with it.
  unfoldable pub delete_conversation : String → String → Option Db → Bool × (Option Db)
  delete_conversation conversation_id uid none = (false, none)
  delete_conversation conversation_id uid (some db) = elim (parse_uuid conversation_id) [
    | none ↦ (false, some db)
    | some cid ↦
        if any (owned_by cid uid) db.conversations
        then (
          true,
          some (record {
            conversations = keep (λ c. not (owned_by cid uid c)) db.conversations;
            messages = keep (λ m. not (str_eq m.conversation_id cid)) db.messages;
          }),
        )
        else (false, some db)
  ]

  unfoldable pub get_conversation : String → String → Option Db → Option String
  get_conversation conversation_id uid none = none
  get_conversation conversation_id uid (some db) = elim (parse_uuid conversation_id) [
    | none ↦ none
    | some cid ↦ elim (head_of (keep (owned_by cid uid) db.conversations)) [
      | none ↦ none
      | some c ↦ some c.id
    ]
  ]

  unfoldable pub list_messages : String → String → Option Db → List StoredMessage
  list_messages conversation_id uid none = []
  list_messages conversation_id uid (some db) = elim (parse_uuid conversation_id) [
    | none ↦ []
    | some cid ↦
        order_by (λ m. m.created_at)
          (keep (λ m. str_eq m.conversation_id cid && str_eq m.user_id uid) db.messages)
  ]
