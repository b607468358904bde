-- ===== src/Gateway/Store/Listed.antt =====
-- The list of the conversations.
use mathlib.Core.List.{Perm}
use inferlog.Prelude.{
  ℕ, suc, ◌+◌, ◌≡◌, refl, ap, ◌∙◌, Bool, true, false, Option, none, some, List, [], ◌∷◌, ◌++◌, map,
  ◌==◌, if◌then◌else◌, filter, filter-append, length, length-append, append-nil, arith, Bool-cases,
  inl, inr,
}
use inferlog.Prelude.Queries.{IsOrdered, desc, order_by, order_by-Perm, order_by-desc}
use inferlog.Gateway.Store.{
  Conversation, Database, Drawn, Message, Turn, message_of, is_of, get_messages, last_content,
  summary_of, list_conversations, add_message, add_message-messages,
}

last_content-append :
    (ms : List Message) (m : Message) → last_content (ms ++ (m ∷ [])) ≡ some m.content
unfolding last_content
last_content-append [] m = refl
last_content-append (n ∷ []) m = refl
last_content-append (n ∷ k ∷ ms) m = last_content-append (k ∷ ms) m

get_messages-add_message :
    (drawn : Drawn) (id : ℕ) (turn : Turn) (db added : Database) (c : ℕ)
    → add_message drawn id turn db ≡ some added
    → get_messages c added
      ≡ get_messages c db ++ (if id == c then message_of drawn id turn ∷ [] else [])
unfolding get_messages inferlog.Prelude.filter
get_messages-add_message drawn id turn db added c e =
    ap (filter (is_of c)) (add_message-messages drawn id turn db added e)
    ∙ filter-append (is_of c) db.messages (message_of drawn id turn ∷ [])

summary_of-add_message :
    (drawn : Drawn) (id : ℕ) (turn : Turn) (db added : Database) (c : Conversation)
    → add_message drawn id turn db ≡ some added
    → summary_of added c ≡ (
        if id == c.id
        then record {
          conversation = c;
          message_count = suc (summary_of db c).message_count;
          last_message = some turn.content;
        }
        else summary_of db c)
unfolding summary_of
summary_of-add_message drawn id turn db added c e =
    let messages = get_messages-add_message drawn id turn db added c.id e in
    let old = get_messages c.id db in
    let m = message_of drawn id turn in
    elim (Bool-cases (id == c.id)) [
      | inl h ↦
          rw (messages, h, last_content-append old m, length-append old (m ∷ []))
            (ap
              (λ n. record {
                conversation = c;
                message_count = n;
                last_message = some turn.content;
              })
              (omega arith))
      | inr h ↦ rw (messages, h, append-nil old) refl
    ]

-- The list has a summary of each conversation, once, the latest change first, and a message that is
-- added for a conversation is the last one in its summary and counts there once more, whereas the
-- summaries of the others stay as they are.
pub list_conversations-add_message :
    (drawn : Drawn) (id : ℕ) (turn : Turn) (db added : Database)
    → add_message drawn id turn db ≡ some added
    → ((cs : List Conversation) × Perm cs added.conversations
        × IsOrdered (desc (λ c. c.updated_at)) cs
        × (list_conversations added ≡ map (summary_of added) cs))
      × ((c : Conversation)
          → summary_of added c ≡ (
              if id == c.id
              then record {
                conversation = c;
                message_count = suc (summary_of db c).message_count;
                last_message = some turn.content;
              }
              else summary_of db c))
unfolding list_conversations
list_conversations-add_message drawn id turn db added e = (
  (
    order_by (desc (λ c. c.updated_at)) added.conversations,
    order_by-Perm (desc (λ c. c.updated_at)) added.conversations,
    order_by-desc (λ c. c.updated_at) added.conversations,
    refl,
  ),
  λ c. summary_of-add_message drawn id turn db added c e,
)
