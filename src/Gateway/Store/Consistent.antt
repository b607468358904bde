-- ===== src/Gateway/Store/Consistent.antt =====
-- The keys of the two tables, under every sequence of the statements of gateway/app/db.py.
use inferlog.Prelude.{
  All-imp, All-last, ℕ, suc, ◌≤◌, ◌<◌, ◌≡◌, refl, Bool, true, not, Option, none, some, List, [],
  ◌∷◌, ◌++◌, map, ◌==◌, if◌then◌else◌, find?, filter, count_if, All, arith, Bool-cases,
  Option-cases, is_some, inl, inr, ◌⊎◌, ◌≢◌,
}
use inferlog.Prelude.Text.{Text}
use inferlog.Gateway.Store.{
  Conversation, Message, Database, Drawn, Turn, is_conversation, is_of, get_conversation,
  create_conversation, update_conversation, titled, set_title_if_empty, touch_conversation,
  delete_conversation, add_message, get_message, created, message_of,
}

-- The statements that change the tables.
pub data Statement : Type 0 where
  create : Drawn → Text → Text → Option Text → Option Text → Statement
  set_title : ℕ → Text → Statement
  touch : ℕ → ℕ → Statement
  delete : ℕ → Statement
  add : Drawn → ℕ → Turn → Statement

-- A statement that raises changes nothing.
abbrev pub or_unchanged : Option Database → Database → Database
or_unchanged none db = db
or_unchanged (some db') db = db'

abbrev pub first_of : Option (Database × Conversation) → Option Database
first_of none = none
first_of (some (db, c)) = some db

unfoldable pub execute : Statement → Database → Database
execute (create drawn provider model title prompt) db =
    or_unchanged (first_of (create_conversation drawn provider model title prompt db)) db
execute (set_title id title) db = set_title_if_empty id title db
execute (touch id now) db = touch_conversation id now db
execute (delete id) db = (delete_conversation id db).0
execute (add drawn id turn) db = or_unchanged (add_message drawn id turn db) db

unfoldable pub execute_all : List Statement → Database → Database
execute_all [] db = db
execute_all (s ∷ rest) db = execute_all rest (execute s db)

-- How many rows have the identifier.
abbrev pub rows : ℕ → List Conversation → ℕ
rows id cs = count_if (is_conversation id) cs

-- The primary key of `conversations` is unique, and the foreign key of `messages` leads to a row.
pub record IsConsistent (db : Database) : Type 0 where
  pub keyed : (id : ℕ) → rows id db.conversations ≤ 1
  pub linked : All (λ m. 0 < rows m.conversation_id db.conversations) db.messages

count_if-append {ℓ} :
    {A : Type ℓ} (p : A → Bool) (xs : List A) (y : A)
    → count_if p (xs ++ (y ∷ [])) ≡ (if p y then suc (count_if p xs) else count_if p xs)
unfolding count_if
count_if-append p [] y = ground arith
count_if-append p (x ∷ xs) y = ground (arith, count_if-append p xs y, Bool-cases (p y))

rows-find? :
    (id : ℕ) (cs : List Conversation)
    → is_some (find? (is_conversation id) cs) ≡ true
    → 0 < rows id cs
unfolding find? count_if
rows-find? id [] h = ground arith
rows-find? id (c ∷ cs) h = ground (arith, rows-find? id cs)

no_rows-find? :
    (id : ℕ) (cs : List Conversation) → find? (is_conversation id) cs ≡ none → rows id cs ≡ 0
unfolding find? count_if
no_rows-find? id [] h = refl
no_rows-find? id (c ∷ cs) h = ground (arith, no_rows-find? id cs)

pub no_rows-get_conversation :
    (id : ℕ) (db : Database) → get_conversation id db ≡ none → rows id db.conversations ≡ 0
unfolding get_conversation
no_rows-get_conversation id db e = no_rows-find? id db.conversations e

rows-update :
    (id : ℕ) (change : Conversation → Conversation) (key : ℕ) (cs : List Conversation)
    → ((c : Conversation) → (change c).id ≡ c.id)
    → rows key (map (λ c. if is_conversation id c then change c else c) cs) ≡ rows key cs
unfolding count_if
rows-update id change key [] same = refl
rows-update id change key (c ∷ cs) same =
    ground (arith, rows-update id change key cs same, same c, Bool-cases (c.id == id))

update-IsConsistent :
    (id : ℕ) (change : Conversation → Conversation) (db : Database)
    → ((c : Conversation) → (change c).id ≡ c.id)
    → IsConsistent db
    → IsConsistent (update_conversation id change db)
unfolding update_conversation
update-IsConsistent id change db same h = record {
  keyed = λ key. rw (rows-update id change key db.conversations same) (h.keyed key);
  linked =
      All-imp _ _ db.messages
        (λ m k. rw (rows-update id change m.conversation_id db.conversations same) k) h.linked;
}

execute-create :
    (drawn : Drawn) (provider model : Text) (title prompt : Option Text) (db : Database)
    → get_conversation drawn.id db ≡ none
    → execute (create drawn provider model title prompt) db ≡ record db {
      conversations = db.conversations ++ (created drawn provider model title prompt ∷ []);
    }
unfolding execute create_conversation
execute-create drawn provider model title prompt db e = ground arith

execute-create_taken :
    (drawn : Drawn) (provider model : Text) (title prompt : Option Text) (db : Database)
    → get_conversation drawn.id db ≢ none
    → execute (create drawn provider model title prompt) db ≡ db
unfolding execute create_conversation
execute-create_taken drawn provider model title prompt db e = ground arith

rows_of_append :
    (id : ℕ) (cs : List Conversation) (c : Conversation)
    → 0 < rows id cs
    → 0 < rows id (cs ++ (c ∷ []))
rows_of_append id cs c h =
    rw (count_if-append (is_conversation id) cs c)
      (ground (arith, Bool-cases (is_conversation id c)))

create-IsConsistent :
    (drawn : Drawn) (provider model : Text) (title prompt : Option Text) (db : Database)
    → IsConsistent db
    → IsConsistent (execute (create drawn provider model title prompt) db)
create-IsConsistent drawn provider model title prompt db h =
    elim (Option-cases (get_conversation drawn.id db)) [
      | inr (c, e) ↦ rw (execute-create_taken drawn provider model title prompt db (ground arith)) h
      | inl e ↦
          let c = created drawn provider model title prompt in
          let fresh = no_rows-get_conversation drawn.id db e in
          rw (execute-create drawn provider model title prompt db e) (record {
            keyed = λ key.
                rw (count_if-append (is_conversation key) db.conversations c)
                  (ground (arith, h.keyed key));
            linked =
                All-imp _ _ db.messages (λ m. rows_of_append m.conversation_id db.conversations c)
                  h.linked;
          })
    ]

rows-filter-le :
    (id key : ℕ) (cs : List Conversation)
    → rows key (filter (λ c. not (is_conversation id c)) cs)
      ≡ (if key == id then 0 else rows key cs)
unfolding filter count_if
rows-filter-le id key [] = ground arith
rows-filter-le id key (c ∷ cs) = ground (arith, rows-filter-le id key cs)

All-filter :
    (id : ℕ) (cs : List Conversation) (ms : List Message)
    → All (λ m. 0 < rows m.conversation_id cs) ms
    → All
        (λ m. 0 < rows m.conversation_id (filter (λ c. not (is_conversation id c)) cs))
        (filter (λ m. not (is_of id m)) ms)
unfolding filter
All-filter id cs [] h = tt
All-filter id cs (m ∷ ms) h = elim (Bool-cases (m.conversation_id == id)) [
  | inl e ↦ rw e (All-filter id cs ms h.1)
  | inr e ↦
      rw (e, filter)
        (rw (rows-filter-le id m.conversation_id cs) (rw e h.0), All-filter id cs ms h.1)
]

delete-IsConsistent :
    (id : ℕ) (db : Database) → IsConsistent db → IsConsistent (delete_conversation id db).0
unfolding delete_conversation
delete-IsConsistent id db h = record {
  keyed = λ key. grind (arith, rows-filter-le id key db.conversations, h.keyed key);
  linked = All-filter id db.conversations db.messages h.linked;
}

pub rows-get_conversation :
    (id : ℕ) (db : Database)
    → is_some (get_conversation id db) ≡ true
    → 0 < rows id db.conversations
unfolding get_conversation
rows-get_conversation id db e = rows-find? id db.conversations e

execute-add :
    (drawn : Drawn) (id : ℕ) (turn : Turn) (db : Database)
    → (execute (add drawn id turn) db ≡ db)
      ⊎ ((is_some (get_conversation id db) ≡ true)
          × (execute (add drawn id turn) db
              ≡ record db { messages = db.messages ++ (message_of drawn id turn ∷ []) }))
unfolding execute add_message
execute-add drawn id turn db = elim (Option-cases (get_conversation id db)) [
  | inl e ↦ inl (ground arith)
  | inr (c, e) ↦ elim (Option-cases (get_message drawn.id db)) [
    | inl f ↦ inr (ground arith, ground arith)
    | inr (m, f) ↦ inl (ground arith)
  ]
]

add-IsConsistent :
    (drawn : Drawn) (id : ℕ) (turn : Turn) (db : Database)
    → IsConsistent db
    → IsConsistent (execute (add drawn id turn) db)
add-IsConsistent drawn id turn db h = elim (execute-add drawn id turn db) [
  | inl e ↦ rw e h
  | inr (found, e) ↦ rw e (record {
    keyed = h.keyed;
    linked =
        All-last _ db.messages (message_of drawn id turn) h.linked
          (rows-get_conversation id db found);
  })
]

-- Whatever statements are executed in whatever order, those that raise among them, no two
-- conversations have one identifier and every message belongs to a conversation that is there.
pub execute_all-IsConsistent :
    (statements : List Statement) (db : Database)
    → IsConsistent db
    → IsConsistent (execute_all statements db)
unfolding execute_all execute set_title_if_empty touch_conversation
execute_all-IsConsistent [] db h = h
execute_all-IsConsistent (create drawn provider model title prompt ∷ rest) db h =
    execute_all-IsConsistent rest _ (create-IsConsistent drawn provider model title prompt db h)
execute_all-IsConsistent (set_title id title ∷ rest) db h =
    execute_all-IsConsistent rest _ (update-IsConsistent id (titled title) db (λ c. refl) h)
execute_all-IsConsistent (touch id now ∷ rest) db h =
    execute_all-IsConsistent rest _
      (update-IsConsistent id (λ c. record c { updated_at = now }) db (λ c. refl) h)
execute_all-IsConsistent (delete id ∷ rest) db h =
    execute_all-IsConsistent rest _ (delete-IsConsistent id db h)
execute_all-IsConsistent (add drawn id turn ∷ rest) db h =
    execute_all-IsConsistent rest _ (add-IsConsistent drawn id turn db h)
