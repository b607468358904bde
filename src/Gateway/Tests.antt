-- ===== src/Gateway/Tests.antt =====
-- The theorems on the gateway, applied to a conversation with two turns.
use inferlog.Prelude.{
  drop, ℕ, suc, ◌+◌, ◌≡◌, refl, ◌==◌, Bool, true, false, ◌&&◌, Option, none, some, List, [], ◌∷◌,
  ◌++◌, map, take, is_empty, is_some, if◌then◌else◌, arith, Bool-cases, length, ◌⊎◌,
}
use inferlog.Prelude.Text.{Text, codes, text_eq, strip, join, strip_by, strip_left}
use inferlog.Gateway.Store.{
  Conversation, Database, Drawn, Message, Role, Turn, TurnStatus, created, message_of,
  recent_messages,
}
use inferlog.Gateway.Store
use inferlog.Gateway.Store.Consistent.{
  Statement, create, delete, add, execute_all, IsConsistent, execute_all-IsConsistent,
}
use inferlog.Gateway.Conversations.{
  CreateRequest, Detail, ok, refused, create_conversation, get_conversation, delete_conversation,
  create_conversation-get_conversation, get_conversation-delete_conversation,
}
use inferlog.Gateway.Llm.{
  ModelOption, Settings, StreamChunk, Usage, IsDefault, build, dispatches, resolve, default_model,
  mock, model_option, build-IsDefault,
}
use inferlog.Gateway.Chat.{
  Frame, start, token, done, works, fails, Attempt, Answer, streaming, Prepared, chat_message,
  system_prompt_of, send_message, user_turn, assistant_turn, stream, Ending, ended, raised,
  cancelled, Query, Queries,
}
use inferlog.Gateway.Chat
use inferlog.Gateway.Llm
use inferlog.Gateway.Chat.Context.{accepted, working, send_message-context}
use inferlog.Gateway.Chat.Refused.{IsAnswered, send_message-refused}
use inferlog.Gateway.Chat.Chunks.{texts_of, last_usage}
use inferlog.Sdk.Client
use inferlog.Prelude.Json.{Fields}
use inferlog.Gateway.Chat.Sse.{encoded, event_of, receive, sse, frame_text}
use inferlog.Gateway.Chat.Received.{
  dispatch_frame, is_plain, trim, is_js_space, written, receive-encoded,
}
use inferlog.Gateway.Chat.Turns.{StoresSent, stream-StoresSent}
use inferlog.Gateway.Chat.Completed.{
  IsReady, with_turn, stream-completed, stream-stopped, stream-stored_twice,
}

abbrev drawn : ℕ → Drawn
drawn id = record { id = id; now = 100 + id }

abbrev conversation : Conversation
conversation = created (drawn 1) mock (codes "mock-1") none none

abbrev answer_turn : Turn
answer_turn = assistant_turn (codes "r-0") (codes "hi") none TurnStatus.complete

abbrev db : Database
db = record {
  conversations = conversation ∷ [];
  messages =
      message_of (drawn 2) 1 (user_turn (codes "hello")) ∷ message_of (drawn 3) 1 answer_turn ∷ [];
}

db-IsConsistent : IsConsistent db
unfolding inferlog.Prelude.count_if
db-IsConsistent = record {
  keyed = λ id. ground (arith, Bool-cases (1 == id));
  linked = (ground arith, (ground arith, tt));
}

abbrev statements : List Statement
statements =
    create (drawn 4) mock (codes "mock-1") none none
    ∷ create (drawn 4) mock (codes "mock-1") none none
    ∷ add (drawn 5) 4 (user_turn (codes "hey"))
    ∷ add (drawn 6) 9 (user_turn (codes "hey"))
    ∷ delete 1
    ∷ []

execute_all-IsConsistent_example : IsConsistent (execute_all statements db)
execute_all-IsConsistent_example = execute_all-IsConsistent statements db db-IsConsistent

abbrev settings : Settings
settings = record {
  openai_api_key = [];
  anthropic_api_key = codes "key";
  context_window = 2;
  default_system_prompt = codes "Be concise.";
}

abbrev request : CreateRequest
request = record { model = codes "mock-1"; title = none; system_prompt = none }

abbrev providers : List Text
providers = mock ∷ []

create_conversation-get_conversation_example :
    (db' : Database) × (d : Detail) × (create_conversation (drawn 4) request providers db
      ≡ (db', ok d))
    × (get_conversation 4 db' ≡ ok d)
    × (d.messages ≡ [])
    × (dispatches d.conversation.provider providers ≡ true)
unfolding resolve Llm.available_models Llm.catalog Llm.registered Store.get_conversation text_eq
    inferlog.Prelude.find? inferlog.Prelude.filter
create_conversation-get_conversation_example =
    create_conversation-get_conversation (drawn 4) request providers db
      (model_option mock (codes "mock-1") (codes "Mock model (offline)")) db-IsConsistent refl refl

get_conversation-delete_conversation_example :
    get_conversation 1 (delete_conversation 1 db).0 ≡ refused 404
get_conversation-delete_conversation_example = get_conversation-delete_conversation 1 1 db

send_message-context_example :
    (prepared : Prepared) × (send_message settings working (drawn 4) 1 (codes " more ") db
      ≡ (accepted (drawn 4) 1 (codes "more") db, streaming prepared))
    × (prepared.provider ≡ mock)
    × (prepared.context
        ≡ record { role = Role.system; content = codes "Be concise." }
          ∷ record { role = Role.assistant; content = codes "hi" }
          ∷ record { role = Role.user; content = codes "more" }
          ∷ [])
unfolding strip Chat.is_valid_content Store.get_conversation inferlog.Prelude.find?
    Store.get_message system_prompt_of recent_messages inferlog.Prelude.take_last
    inferlog.Prelude.filter
send_message-context_example =
    send_message-context settings (drawn 4) 1 1 (codes " more ") db conversation refl refl refl refl
      refl

-- The title is set, and the answer to that call is lost.
abbrev interrupted : Queries
interrupted = record working { titling = Query.unanswered }

send_message-refused_example :
    IsAnswered settings interrupted
      (drawn 4)
      1
      (codes " more ")
      db
      (send_message settings interrupted (drawn 4) 1 (codes " more ") db)
send_message-refused_example =
    send_message-refused settings interrupted (drawn 4) 1 (codes " more ") db

abbrev attempt : ℕ → Attempt
attempt id = record { row = drawn id; touched_at = 200; add_fate = works; touch_fate = works }

abbrev usage : Usage
usage = record { prompt_tokens = some 3; completion_tokens = some 2; total_tokens = some 5 }

-- Two texts, and the usage.
abbrev chunks : List StreamChunk
chunks =
    record { text = codes "Hel"; usage = none }
    ∷ record { text = []; usage = none }
    ∷ record { text = codes "lo"; usage = none }
    ∷ record { text = []; usage = some usage }
    ∷ []

abbrev request_id : Text
request_id = codes "r-1"

stream-StoresSent_example :
    StoresSent 1 request_id db
      (stream (attempt 4) (attempt 5) 1 request_id mock providers chunks ended (some 3) db)
stream-StoresSent_example =
    stream-StoresSent (attempt 4) (attempt 5) 1 request_id mock providers chunks ended (some 3) db

mock-dispatches : dispatches mock providers ≡ true
unfolding dispatches Llm.registered text_eq
mock-dispatches = refl

attempt-IsReady : IsReady (attempt 4) 1 db
unfolding Store.get_conversation Store.get_message inferlog.Prelude.find?
attempt-IsReady = record { adds = refl; touches = refl; there = refl; fresh = refl }

abbrev answered : TurnStatus → Turn
answered status = assistant_turn request_id (codes "Hello") (some usage) status

stream-completed_example :
    stream (attempt 4) (attempt 5) 1 request_id mock providers chunks ended none db ≡ (
      with_turn (attempt 4) 1 (answered TurnStatus.complete) db,
      start request_id
          ∷ token (codes "Hel")
          ∷ token (codes "lo")
          ∷ done request_id (some usage)
          ∷ [],
    )
unfolding texts_of last_usage join
stream-completed_example =
    stream-completed (attempt 4) (attempt 5) 1 request_id mock providers chunks db mock-dispatches
      attempt-IsReady

stream-stopped_example :
    (used : Option Usage) × (stream
        (attempt 5)
        (attempt 4)
        1
        request_id
        mock
        providers
        chunks
        ended
        (some 1)
        db
      ≡ (
        with_turn
            (attempt 4)
            1
            (assistant_turn request_id (codes "Hel") used TurnStatus.cancelled)
            db,
        start request_id ∷ token (codes "Hel") ∷ [],
      ))
unfolding texts_of join
stream-stopped_example =
    stream-stopped (attempt 5) (attempt 4) 1 request_id mock providers chunks db mock-dispatches 0
      (ground arith) ended attempt-IsReady refl

second-IsReady : IsReady (attempt 5) 1 (with_turn (attempt 4) 1 (answered TurnStatus.complete) db)
unfolding with_turn Store.touch_conversation Store.update_conversation Store.get_conversation
    Store.get_message inferlog.Prelude.find?
second-IsReady = record { adds = refl; touches = refl; there = refl; fresh = refl }

stream-stored_twice_example :
    stream (attempt 4) (attempt 5) 1 request_id mock providers chunks ended (some 3) db ≡ (
      with_turn
          (attempt 5)
          1
          (answered TurnStatus.cancelled)
          (with_turn (attempt 4) 1 (answered TurnStatus.complete) db),
      start request_id
          ∷ token (codes "Hel")
          ∷ token (codes "lo")
          ∷ done request_id (some usage)
          ∷ [],
    )
unfolding texts_of last_usage join
stream-stored_twice_example =
    stream-stored_twice (attempt 4) (attempt 5) 1 request_id mock providers chunks db
      mock-dispatches attempt-IsReady second-IsReady refl

abbrev sdk_messages : List Client.ChatMessage
sdk_messages = record { role = codes "user"; content = codes "hello" } ∷ []

-- The JSON of a frame, reduced to its braces.
abbrev braces : Fields → Text
braces data_fields = codes "{}"

abbrev sent_frames : List Frame
sent_frames = start request_id ∷ token (codes "Hel") ∷ []

-- The body, cut inside of the first blank line.
abbrev pieces : List Text
pieces =
    take 23 (written (map (encoded braces) sent_frames))
    ∷ drop 23 (written (map (encoded braces) sent_frames))
    ∷ []

receive-encoded_example :
    (map dispatch_frame (receive pieces []).0 ≡ map some (map (encoded braces) sent_frames))
    × ((receive pieces []).1 ≡ [])
unfolding is_plain trim strip_by strip_left is_js_space event_of join written sse frame_text
receive-encoded_example =
    receive-encoded braces sent_frames pieces
      (
        record {
          plain_event = refl;
          plain_json = refl;
          trimmed_event = refl;
          trimmed_json = refl;
          some_json = refl;
        },
        (
          record {
            plain_event = refl;
            plain_json = refl;
            trimmed_event = refl;
            trimmed_json = refl;
            some_json = refl;
          },
          tt,
        ),
      )
      refl
