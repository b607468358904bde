-- ===== src/Gateway/Store/Tests.antt =====
-- The list of the conversations, after a message is added to the first of two.
use mathlib.Core.List.{Perm}
use inferlog.Prelude.{
  ℕ, suc, ◌==◌, ◌≡◌, refl, Option, none, some, List, [], ◌∷◌, map, if◌then◌else◌, filter, find?,
}
use inferlog.Prelude.Queries.{IsOrdered, desc}
use inferlog.Prelude.Text.{codes}
use inferlog.Gateway.Store.{
  Conversation, Database, Drawn, Role, Turn, TurnStatus, created, message_of, summary_of,
  list_conversations, add_message, get_conversation, get_message,
}
use inferlog.Gateway.Store.Listed.{list_conversations-add_message}

abbrev drawn : ℕ → Drawn
drawn id = record { id = id; now = id }

abbrev turn : Turn
turn = record {
  role = Role.user;
  content = codes "hi";
  status = TurnStatus.complete;
  request_id = none;
  prompt_tokens = none;
  completion_tokens = none;
}

abbrev two_conversations : Database
two_conversations = record {
  conversations =
      created (drawn 1) (codes "mock") (codes "mock-1") none none
      ∷ created (drawn 2) (codes "mock") (codes "mock-1") none none
      ∷ [];
  messages = [];
}

abbrev with_message : Database
with_message = record two_conversations { messages = message_of (drawn 3) 1 turn ∷ [] }

list_conversations-add_message_example :
    ((cs : List Conversation) × Perm cs with_message.conversations
      × IsOrdered (desc (λ c. c.updated_at)) cs
      × (list_conversations with_message ≡ map (summary_of with_message) cs))
    × ((c : Conversation)
        → summary_of with_message c ≡ (
            if 1 == c.id
            then record {
              conversation = c;
              message_count = suc (summary_of two_conversations c).message_count;
              last_message = some turn.content;
            }
            else summary_of two_conversations c))
unfolding add_message get_conversation get_message inferlog.Prelude.find?
list_conversations-add_message_example =
    list_conversations-add_message (drawn 3) 1 turn two_conversations with_message refl
