-- ===== src/Gateway/Store.antt =====
-- gateway/app/db.py over the tables of db/schema.sql, and the rows of gateway/app/models.py.
--
-- A query is a function of the two tables. Identifiers and times are drawn by the database; its
-- clock does not go back, so the rows of `messages` stand in the order of `created_at`. `none` is an
-- exception of the database: a primary key that is taken, or a foreign key that leads nowhere.
pub mod Consistent
pub mod History
pub mod Listed
mod Tests
use inferlog.Prelude.{
  ℕ, ◌+◌, ◌-◌, ◌%◌, ◌≡◌, Bool, true, false, not, ◌&&◌, Option, none, some, List, [], ◌∷◌, ◌++◌, map,
  ◌==◌, if◌then◌else◌, find?, filter, count_if, take_last, length, is_some, arith, Option-cases,
}
use mathlib.Core.Option
use inferlog.Prelude.Queries.{order_by, desc}
use inferlog.Prelude.Text.{Text}

pub record Conversation : Type 0 where
  pub id : ℕ
  pub title : Option Text
  pub provider : Text
  pub model : Text
  pub system_prompt : Option Text
  pub created_at : ℕ
  pub updated_at : ℕ

pub data Role : Type 0 where
  system user assistant : Role

-- `messages.status`
pub data TurnStatus : Type 0 where
  complete cancelled error : TurnStatus

pub record Message : Type 0 where
  pub id : ℕ
  pub conversation_id : ℕ
  pub role : Role
  pub content : Text
  pub status : TurnStatus
  pub request_id : Option Text
  pub prompt_tokens : Option ℕ
  pub completion_tokens : Option ℕ
  pub created_at : ℕ

pub record Database : Type 0 where
  pub conversations : List Conversation
  pub messages : List Message

-- What the database draws for a statement: `gen_random_uuid()` and `now()`.
pub record Drawn : Type 0 where
  pub id : ℕ
  pub now : ℕ

abbrev pub is_conversation : ℕ → Conversation → Bool
is_conversation id c = c.id == id

abbrev pub is_of : ℕ → Message → Bool
is_of conversation_id m = m.conversation_id == conversation_id

-- `SELECT * FROM conversations WHERE id = $1`
unfoldable pub get_conversation : ℕ → Database → Option Conversation
get_conversation id db = find? (is_conversation id) db.conversations

abbrev pub created : Drawn → Text → Text → Option Text → Option Text → Conversation
created drawn provider model title system_prompt = record {
  id = drawn.id;
  title = title;
  provider = provider;
  model = model;
  system_prompt = system_prompt;
  created_at = drawn.now;
  updated_at = drawn.now;
}

unfoldable pub create_conversation :
    Drawn → Text → Text → Option Text → Option Text → Database → Option (Database × Conversation)
create_conversation drawn provider model title system_prompt db =
    let c = created drawn provider model title system_prompt in
    elim (get_conversation drawn.id db) [
      | some taken ↦ none
      | none ↦ some (record db { conversations = db.conversations ++ (c ∷ []) }, c)
    ]

unfoldable pub update_conversation : ℕ → (Conversation → Conversation) → Database → Database
update_conversation id change db = record db {
  conversations = map (λ c. if is_conversation id c then change c else c) db.conversations;
}

abbrev pub titled : Text → Conversation → Conversation
titled title c = record c { title = elim c.title [ none ↦ some title | some old ↦ some old ] }

unfoldable pub set_title_if_empty : ℕ → Text → Database → Database
unfolding update_conversation
set_title_if_empty id title = update_conversation id (titled title)

unfoldable pub touch_conversation : ℕ → ℕ → Database → Database
unfolding update_conversation
touch_conversation id now = update_conversation id (λ c. record c { updated_at = now })

-- `ON DELETE CASCADE`. The command tag is "DELETE n", and the test is whether it ends with "1".
unfoldable pub delete_conversation : ℕ → Database → Database × Bool
delete_conversation id db = (
  record {
    conversations = filter (λ c. not (is_conversation id c)) db.conversations;
    messages = filter (λ m. not (is_of id m)) db.messages;
  },
  count_if (is_conversation id) db.conversations % 10 == 1,
)

-- The columns that a caller of `add_message` gives.
pub record Turn : Type 0 where
  pub role : Role
  pub content : Text
  pub status : TurnStatus
  pub request_id : Option Text
  pub prompt_tokens : Option ℕ
  pub completion_tokens : Option ℕ

abbrev pub message_of : Drawn → ℕ → Turn → Message
message_of drawn conversation_id turn = record {
  id = drawn.id;
  conversation_id = conversation_id;
  role = turn.role;
  content = turn.content;
  status = turn.status;
  request_id = turn.request_id;
  prompt_tokens = turn.prompt_tokens;
  completion_tokens = turn.completion_tokens;
  created_at = drawn.now;
}

unfoldable pub get_message : ℕ → Database → Option Message
get_message id db = find? (λ m. m.id == id) db.messages

unfoldable pub add_message : Drawn → ℕ → Turn → Database → Option Database
add_message drawn conversation_id turn db = elim (get_conversation conversation_id db) [
  | none ↦ none
  | some c ↦ elim (get_message drawn.id db) [
    | some taken ↦ none
    | none ↦
        some (record db { messages = db.messages ++ (message_of drawn conversation_id turn ∷ []) })
  ]
]

-- An insert of a message for a conversation that is there, under a fresh identifier.
pub add_message-added :
    (drawn : Drawn) (conversation_id : ℕ) (turn : Turn) (db : Database)
    → is_some (get_conversation conversation_id db) ≡ true
    → get_message drawn.id db ≡ none
    → add_message drawn conversation_id turn db
      ≡ some (record db { messages = db.messages ++ (message_of drawn conversation_id turn ∷ []) })
unfolding add_message
add_message-added drawn conversation_id turn db h e = ground arith

-- What an insert that succeeds adds.
pub add_message-messages :
    (drawn : Drawn) (id : ℕ) (turn : Turn) (db added : Database)
    → add_message drawn id turn db ≡ some added
    → added.messages ≡ db.messages ++ (message_of drawn id turn ∷ [])
unfolding add_message
add_message-messages drawn id turn db added e =
    ground (arith, Option-cases (get_conversation id db), Option-cases (get_message drawn.id db))

unfoldable pub get_messages : ℕ → Database → List Message
get_messages conversation_id db = filter (is_of conversation_id) db.messages

-- `status <> 'error'`
abbrev pub is_usable : Message → Bool
is_usable m = elim m.status [ TurnStatus.error ↦ false | _ ↦ true ]

-- The last `limit` usable messages, the oldest first.
unfoldable pub recent_messages : ℕ → ℕ → Database → List (Role × Text)
unfolding get_messages
recent_messages conversation_id limit db =
    map (λ m. (m.role, m.content))
      (take_last limit (filter is_usable (get_messages conversation_id db)))

pub record Summary : Type 0 where
  pub conversation : Conversation
  pub message_count : ℕ
  pub last_message : Option Text

-- The content of the last message of a list.
unfoldable pub last_content : List Message → Option Text
last_content [] = none
last_content (m ∷ []) = some m.content
last_content (m ∷ n ∷ rest) = last_content (n ∷ rest)

unfoldable pub summary_of : Database → Conversation → Summary
unfolding last_content get_messages
summary_of db c = record {
  conversation = c;
  message_count = length (get_messages c.id db);
  last_message = last_content (get_messages c.id db);
}

unfoldable pub list_conversations : Database → List Summary
unfolding summary_of
list_conversations db = map (summary_of db) (order_by (desc (λ c. c.updated_at)) db.conversations)
