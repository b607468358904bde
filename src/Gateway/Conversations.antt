-- ===== src/Gateway/Conversations.antt =====
-- gateway/app/conversations.py: the endpoints that create, read, list and delete conversations.
use inferlog.Prelude.{
  ℕ, ◌<◌, ◌≡◌, refl, sym, ◌∙◌, Bool, true, false, not, Option, none, some, List, [], ◌∷◌, ◌++◌,
  ◌==◌, if◌then◌else◌, find?, filter, All, arith, Bool-cases, Option-cases, inl, inr,
}
use inferlog.Prelude.Text.{Text}
use inferlog.Gateway.Store.{
  Conversation, Message, Database, Drawn, Summary, is_conversation, is_of, created,
}
use inferlog.Gateway.Store
use inferlog.Gateway.Store.Consistent.{IsConsistent, rows, no_rows-get_conversation}
use inferlog.Gateway.Llm.{ModelOption, resolve, dispatches, resolve-dispatches}

-- `ConversationDetail`
pub record Detail : Type 0 where
  pub conversation : Conversation
  pub messages : List Message

-- `CreateConversationRequest`
pub record CreateRequest : Type 0 where
  pub model : Text
  pub title : Option Text
  pub system_prompt : Option Text

-- A reply with its content, or an error with its HTTP status: 500 for an exception of the database.
pub data Reply (A : Type 0) : Type 0 where
  ok : A → Reply A
  refused : ℕ → Reply A

unfoldable pub create_conversation :
    Drawn → CreateRequest → List Text → Database → Database × Reply Detail
create_conversation drawn body providers db = elim (resolve body.model providers) [
  | none ↦ (db, refused 400)
  | some option ↦
      elim (Store.create_conversation drawn option.provider option.model body.title
        body.system_prompt db) [
          | none ↦ (db, refused 500)
          | some (db', c) ↦ (db', ok (record { conversation = c; messages = [] }))
        ]
]

unfoldable pub list_conversations : Database → List Summary
list_conversations db = Store.list_conversations db

unfoldable pub get_conversation : ℕ → Database → Reply Detail
get_conversation id db = elim (Store.get_conversation id db) [
  | none ↦ refused 404
  | some c ↦ ok (record { conversation = c; messages = Store.get_messages id db })
]

unfoldable pub delete_conversation : ℕ → Database → Database × Reply Unit
delete_conversation id db =
    let result = Store.delete_conversation id db in
    (result.0, if result.1 then ok tt else refused 404)

find?-append {ℓ} :
    {A : Type ℓ} (p : A → Bool) (xs : List A) (y : A)
    → find? p xs ≡ none
    → p y ≡ true
    → find? p (xs ++ (y ∷ [])) ≡ some y
unfolding find?
find?-append p [] y e h = ground arith
find?-append p (x ∷ xs) y e h = ground (arith, find?-append p xs y, Bool-cases (p x))

no_messages :
    (id : ℕ) (cs : List Conversation) (ms : List Message)
    → All (λ m. 0 < rows m.conversation_id cs) ms
    → rows id cs ≡ 0
    → filter (is_of id) ms ≡ []
unfolding filter
no_messages id cs [] h e = refl
no_messages id cs (m ∷ ms) h e = elim (Bool-cases (m.conversation_id == id)) [
  | inl f ↦ ground (arith, h.0, e)
  | inr f ↦ rw f (no_messages id cs ms h.1 e)
]

-- A read of a conversation that is there.
get_conversation-found :
    (id : ℕ) (db : Database) (c : Conversation) (ms : List Message)
    → Store.get_conversation id db ≡ some c
    → Store.get_messages id db ≡ ms
    → get_conversation id db ≡ ok (record { conversation = c; messages = ms })
unfolding get_conversation
get_conversation-found id db c ms e f = ground arith

abbrev with_row : Database → Conversation → Database
with_row db c = record db { conversations = db.conversations ++ (c ∷ []) }

found-created :
    (c : Conversation) (db : Database)
    → Store.get_conversation c.id db ≡ none
    → Store.get_conversation c.id (with_row db c) ≡ some c
unfolding Store.get_conversation
found-created c db e = find?-append (is_conversation c.id) db.conversations c e (ground arith)

unused-get_messages :
    (id : ℕ) (db : Database) (c : Conversation)
    → IsConsistent db
    → Store.get_conversation id db ≡ none
    → Store.get_messages id (with_row db c) ≡ []
unfolding Store.get_messages
unused-get_messages id db c h e =
    no_messages id db.conversations db.messages h.linked (no_rows-get_conversation id db e)

get-created :
    (c : Conversation) (db : Database)
    → IsConsistent db
    → Store.get_conversation c.id db ≡ none
    → get_conversation c.id (with_row db c) ≡ ok (record { conversation = c; messages = [] })
get-created c db h e =
    get_conversation-found c.id (with_row db c) c [] (found-created c db e)
      (unused-get_messages c.id db c h e)

-- The three ends of the endpoint that creates a conversation.
create-cases :
    (drawn : Drawn) (body : CreateRequest) (providers : List Text) (db : Database)
    (option : ModelOption)
    → resolve body.model providers ≡ some option
    → Store.get_conversation drawn.id db ≡ none
    → create_conversation drawn body providers db ≡ (
      record db {
        conversations =
            db.conversations
            ++ (created drawn option.provider option.model body.title body.system_prompt ∷ []);
      },
      ok (record {
        conversation = created drawn option.provider option.model body.title body.system_prompt;
        messages = [];
      }),
    )
unfolding create_conversation Store.create_conversation
create-cases drawn body providers db option e f = ground arith

-- The keys of the tables are consistent, the model is available and the drawn identifier is fresh:
-- then the request is answered by a conversation without messages, a later read of its identifier
-- gives the same answer, and a stream of its provider is dispatched.
pub create_conversation-get_conversation :
    (drawn : Drawn) (body : CreateRequest) (providers : List Text) (db : Database)
    (option : ModelOption)
    → IsConsistent db
    → resolve body.model providers ≡ some option
    → Store.get_conversation drawn.id db ≡ none
    → (db' : Database) × (d : Detail) × (create_conversation drawn body providers db ≡ (db', ok d))
      × (get_conversation drawn.id db' ≡ ok d)
      × (d.messages ≡ [])
      × (dispatches d.conversation.provider providers ≡ true)
create_conversation-get_conversation drawn body providers db option h e f =
    let c = created drawn option.provider option.model body.title body.system_prompt in
    (
      record db { conversations = db.conversations ++ (c ∷ []) },
      record { conversation = c; messages = [] },
      create-cases drawn body providers db option e f,
      get-created c db h f,
      refl,
      (resolve-dispatches body.model providers option e).0,
    )

find?-filter-not :
    (id key : ℕ) (cs : List Conversation)
    → find? (is_conversation key) (filter (λ c. not (is_conversation id c)) cs)
      ≡ (if key == id then none else find? (is_conversation key) cs)
unfolding find? filter
find?-filter-not id key [] = ground arith
find?-filter-not id key (c ∷ cs) =
    ground (arith, find?-filter-not id key cs, Bool-cases (key == id), Bool-cases (c.id == id))

filter-filter-not :
    (id key : ℕ) (ms : List Message)
    → (key == id) ≡ false
    → filter (is_of key) (filter (λ m. not (is_of id m)) ms) ≡ filter (is_of key) ms
unfolding filter
filter-filter-not id key [] h = refl
filter-filter-not id key (m ∷ ms) h = ground (
  arith,
  filter-filter-not id key ms h,
  Bool-cases (m.conversation_id == id),
  Bool-cases (m.conversation_id == key),
)

abbrev deleted : ℕ → Database → Database
deleted id db = (delete_conversation id db).0

get-deleted :
    (id key : ℕ) (db : Database)
    → Store.get_conversation key (deleted id db)
      ≡ (if key == id then none else Store.get_conversation key db)
unfolding delete_conversation Store.delete_conversation Store.get_conversation
get-deleted id key db = find?-filter-not id key db.conversations

messages-deleted :
    (id key : ℕ) (db : Database)
    → (key == id) ≡ false
    → Store.get_messages key (deleted id db) ≡ Store.get_messages key db
unfolding delete_conversation Store.delete_conversation Store.get_messages
messages-deleted id key db h = filter-filter-not id key db.messages h

get_conversation-missing :
    (id : ℕ) (db : Database)
    → Store.get_conversation id db ≡ none
    → get_conversation id db ≡ refused 404
unfolding get_conversation
get_conversation-missing id db e = ground arith

get_conversation-same :
    (id : ℕ) (db db' : Database)
    → Store.get_conversation id db ≡ Store.get_conversation id db'
    → Store.get_messages id db ≡ Store.get_messages id db'
    → get_conversation id db ≡ get_conversation id db'
get_conversation-same id db db' e f = elim (Option-cases (Store.get_conversation id db')) [
  | inl g ↦ get_conversation-missing id db (e ∙ g) ∙ sym (get_conversation-missing id db' g)
  | inr (c, g) ↦
      get_conversation-found id db c _ (e ∙ g) f ∙ sym (get_conversation-found id db' c _ g refl)
]

-- After a deletion, a read of that conversation is a 404, and a read of any other one, its messages
-- included, is answered as before.
pub get_conversation-delete_conversation :
    (id key : ℕ) (db : Database)
    → get_conversation key (delete_conversation id db).0
      ≡ (if key == id then refused 404 else get_conversation key db)
get_conversation-delete_conversation id key db = elim (Bool-cases (key == id)) [
  | inl e ↦ rw e (get_conversation-missing key (deleted id db) (rw (get-deleted id key db, e) refl))
  | inr e ↦ rw e (
      get_conversation-same key (deleted id db) db (rw (get-deleted id key db, e) refl)
        (messages-deleted id key db e))
]
