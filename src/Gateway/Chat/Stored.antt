-- ===== src/Gateway/Chat/Stored.antt =====
-- What `_persist_assistant_turn` of gateway/app/chat.py adds to the messages, however its calls go.
use inferlog.Prelude.{
  All-append, ℕ, ◌≤◌, ◌≡◌, refl, sym, ap, ◌∙◌, true, false, not, ◌&&◌, Option, none, some, List, [],
  ◌∷◌, ◌++◌, length, length-append, append_assoc, append-nil, is_empty, All, arith, Bool-cases,
  Option-cases, ◌⊎◌, inl, inr,
}
use inferlog.Prelude.Text.{Text, join}
use inferlog.Gateway.Llm.{Usage}
use inferlog.Gateway.Store.{
  add_message-messages, Database, Message, Role, Turn, TurnStatus, add_message, message_of,
  touch_conversation, update_conversation,
}
use inferlog.Gateway.Chat.{
  Fate, works, fails, cut_off, Attempt, touch_by, assistant_turn, is_complete, store_turn,
  persist_assistant_turn, Progress, spawn_persist,
}

-- A message that answers a request of a conversation with a text.
pub record IsAnswer (id : ℕ) (request_id text : Text) (m : Message) : Type 0 where
  pub of_conversation : m.conversation_id ≡ id
  pub by_assistant : m.role ≡ Role.assistant
  pub with_text : m.content ≡ text
  pub for_request : m.request_id ≡ some request_id

-- At most `bound` messages are added behind the old ones, and all of them are such answers.
pub record Stores (id : ℕ) (request_id text : Text) (bound : ℕ) (old new : Database) : Type 0 where
  pub rows : List Message
  pub added : new.messages ≡ old.messages ++ rows
  pub answers : All (IsAnswer id request_id text) rows
  pub few : length rows ≤ bound

pub Stores-none :
    (id : ℕ) (request_id text : Text) (bound : ℕ) (old new : Database)
    → new.messages ≡ old.messages
    → Stores id request_id text bound old new
Stores-none id request_id text bound old new e = record {
  rows = [];
  added = rw e (sym (append-nil old.messages));
  answers = tt;
  few = ground arith;
}

pub Stores-then :
    (id : ℕ) (request_id text : Text) (old mid new : Database)
    → Stores id request_id text 1 old mid
    → Stores id request_id text 1 mid new
    → Stores id request_id text 2 old new
Stores-then id request_id text old mid new h k = record {
  rows = h.rows ++ k.rows;
  added = rw (k.added, h.added) (append_assoc old.messages h.rows k.rows);
  answers = All-append _ h.rows k.rows h.answers k.answers;
  few = rw (length-append h.rows k.rows) (ground (arith, h.few, k.few));
}

touch_by-messages :
    (fate : Fate) (id now : ℕ) (db : Database) → (touch_by fate id now db).0.messages ≡ db.messages
unfolding touch_by touch_conversation update_conversation
touch_by-messages works id now db = refl
touch_by-messages fails id now db = refl
touch_by-messages (cut_off true) id now db = refl
touch_by-messages (cut_off false) id now db = refl

pub store_turn-refused :
    (attempt : Attempt) (id : ℕ) (turn : Turn) (db : Database)
    → add_message attempt.row id turn db ≡ none
    → store_turn works attempt id turn db ≡ (db, false)
unfolding store_turn
store_turn-refused attempt id turn db e = ground arith

pub store_turn-added :
    (attempt : Attempt) (id : ℕ) (turn : Turn) (db added : Database)
    → add_message attempt.row id turn db ≡ some added
    → store_turn works attempt id turn db ≡ touch_by attempt.touch_fate id attempt.touched_at added
unfolding store_turn
store_turn-added attempt id turn db added e = ground arith

store_turn-cut_off :
    (attempt : Attempt) (id : ℕ) (turn : Turn) (db kept : Database)
    → elim (add_message attempt.row id turn db) [ none ↦ db | some added ↦ added ] ≡ kept
    → (store_turn (cut_off true) attempt id turn db).0 ≡ kept
unfolding store_turn
store_turn-cut_off attempt id turn db kept e =
    ground (arith, Option-cases (add_message attempt.row id turn db))

store_turn-messages :
    (fate : Fate) (attempt : Attempt) (id : ℕ) (turn : Turn) (db : Database)
    → ((store_turn fate attempt id turn db).0.messages ≡ db.messages)
      ⊎ ((store_turn fate attempt id turn db).0.messages
          ≡ db.messages ++ (message_of attempt.row id turn ∷ []))
unfolding store_turn
store_turn-messages fails attempt id turn db = inl refl
store_turn-messages (cut_off false) attempt id turn db = inl refl
store_turn-messages (cut_off true) attempt id turn db =
    elim (Option-cases (add_message attempt.row id turn db)) [
      | inl e ↦ inl (ap (λ d. d.messages) (store_turn-cut_off attempt id turn db db (rw e refl)))
      | inr (added, e) ↦ inr (
          ap (λ d. d.messages) (store_turn-cut_off attempt id turn db added (rw e refl))
          ∙ add_message-messages attempt.row id turn db added e)
    ]
store_turn-messages works attempt id turn db =
    elim (Option-cases (add_message attempt.row id turn db)) [
      | inl e ↦ inl (ap (λ r. r.0.messages) (store_turn-refused attempt id turn db e))
      | inr (added, e) ↦ inr (
          ap (λ r. r.0.messages) (store_turn-added attempt id turn db added e)
          ∙ touch_by-messages attempt.touch_fate id attempt.touched_at added
          ∙ add_message-messages attempt.row id turn db added e)
    ]

-- However its calls go, the storing of a turn adds it once or not at all.
pub persist_assistant_turn-Stores :
    (attempt : Attempt) (id : ℕ) (request_id text : Text) (usage : Option Usage)
    (outcome : TurnStatus) (db : Database)
    → Stores id request_id text 1 db
        (persist_assistant_turn attempt id request_id text usage outcome db).0
unfolding persist_assistant_turn
persist_assistant_turn-Stores attempt id request_id text usage outcome db =
    elim (Bool-cases (is_empty text && not (is_complete outcome))) [
      | inl e ↦
          rw e (
            Stores-none _ _ _ _ _ _ (touch_by-messages attempt.touch_fate id attempt.touched_at db))
      | inr e ↦
          rw e
            (elim (store_turn-messages attempt.add_fate attempt id
              (assistant_turn request_id text usage outcome) db) [
                | inl f ↦ Stores-none _ _ _ _ _ _ f
                | inr f ↦ record {
                  rows =
                      message_of attempt.row id (assistant_turn request_id text usage outcome) ∷ [];
                  added = f;
                  answers = (
                    record {
                      of_conversation = refl;
                      by_assistant = refl;
                      with_text = refl;
                      for_request = refl;
                    },
                    tt,
                  );
                  few = ground arith;
                }
              ])
    ]

pub spawn_persist-Stores :
    (attempt : Attempt) (id : ℕ) (request_id : Text) (p : Progress) (outcome : TurnStatus)
    (db : Database)
    → Stores id request_id
        (join [] p.collected)
        1
        db
        (spawn_persist attempt id request_id p outcome db)
unfolding spawn_persist
spawn_persist-Stores attempt id request_id p outcome db =
    persist_assistant_turn-Stores attempt id request_id (join [] p.collected) p.usage outcome db

pub Stores-wider :
    (id : ℕ) (request_id text : Text) (old new : Database)
    → Stores id request_id text 1 old new
    → Stores id request_id text 2 old new
Stores-wider id request_id text old new h = record {
  rows = h.rows;
  added = h.added;
  answers = h.answers;
  few = ground (arith, h.few);
}
