-- ===== src/Gateway/Chat.antt =====
-- gateway/app/chat.py: the endpoint that takes a message, and the stream that answers it.
--
-- The stream is one run of the generator `stream`: the chunks that the provider yields, how the
-- provider's stream ends, and the client's patience, the number of frames after which the
-- generator is closed. A call of the database works, raises, or is cut off by a cancellation.
pub mod Context
pub mod Refused
pub mod Chunks
pub mod Completed
pub mod Mocked
pub mod Sse
pub mod Received
pub mod Stored
pub mod Turns
pub mod Frames
use inferlog.Prelude.{
  ℕ, zero, suc, ◌≡◌, Bool, true, false, not, ◌&&◌, Option, none, some, List, [], ◌∷◌, ◌++◌, map,
  leb, length, take, if◌then◌else◌, is_empty,
}
use mathlib.Core.Option
use inferlog.Prelude.Text.{Text, codes, strip, join, split}
use inferlog.Gateway.Llm.{ChatMessage, Usage, StreamChunk, Settings, dispatches}
use inferlog.Gateway.Store.{
  Conversation, Database, Drawn, Role, user, assistant, Turn, TurnStatus, complete,
  get_conversation, add_message, set_title_if_empty, touch_conversation, recent_messages,
}

-- The frames of the reply, before they are written down.
pub data Frame : Type 0 where
  start : Text → Frame
  token : Text → Frame
  done : Text → Option Usage → Frame
  failure : Text → Frame

-- What the handler hands to the stream.
pub record Prepared : Type 0 where
  pub provider : Text
  pub model : Text
  pub context : List ChatMessage

-- An HTTP error, 500 for an exception of the database, or the start of the stream.
pub data Answer : Type 0 where
  refused : ℕ → Answer
  streaming : Prepared → Answer

abbrev pub chat_message : Role × Text → ChatMessage
chat_message (role, content) = record { role = role; content = content }

unfoldable pub build_context : Text → List (Role × Text) → List ChatMessage
build_context system_prompt history =
    record { role = Role.system; content = system_prompt } ∷ map chat_message history

-- `conv["system_prompt"] or settings.default_system_prompt`
unfoldable pub system_prompt_of : Settings → Conversation → Text
system_prompt_of settings conv = elim conv.system_prompt [
  | none ↦ settings.default_system_prompt
  | some [] ↦ settings.default_system_prompt
  | some (c ∷ text) ↦ c ∷ text
]

abbrev pub user_turn : Text → Turn
user_turn content = record {
  role = Role.user;
  content = content;
  status = TurnStatus.complete;
  request_id = none;
  prompt_tokens = none;
  completion_tokens = none;
}

-- `Field(..., min_length=1, max_length=8000)`
unfoldable pub is_valid_content : Text → Bool
is_valid_content content = leb 1 (length content) && leb (length content) 8000

abbrev pub title_chars : ℕ
title_chars = 60

unfoldable pub prepare : Settings → Conversation → ℕ → Database → Prepared
unfolding build_context system_prompt_of recent_messages
prepare settings conv id db = record {
  provider = conv.provider;
  model = conv.model;
  context =
      build_context (system_prompt_of settings conv)
        (recent_messages id settings.context_window db);
}

-- How a call of the database ends for the handler; it raises in the last two cases, and in the last
-- one it has taken effect.
pub data Query : Type 0 where
  answers fails unanswered : Query

-- The four calls of `send_message`, in order.
pub record Queries : Type 0 where
  pub reading : Query
  pub adding : Query
  pub titling : Query
  pub listing : Query

abbrev pub is_answered : Query → Bool
is_answered Query.answers = true
is_answered Query.fails = false
is_answered Query.unanswered = false

-- A change of the store by a call, and whether the handler goes on.
unfoldable pub changed_by : Query → Database → Database → Database × Bool
changed_by Query.answers before after = (after, true)
changed_by Query.fails before after = (before, false)
changed_by Query.unanswered before after = (after, false)

-- `add_message`, then `set_title_if_empty`
unfoldable pub store_message : Queries → Drawn → ℕ → Text → Database → Database × Bool
unfolding changed_by
store_message queries drawn id text db = elim (add_message drawn id (user_turn text) db) [
  | none ↦ (db, false)
  | some added ↦
      let stored = changed_by queries.adding db added in
      if stored.1
      then changed_by queries.titling added (set_title_if_empty id (take title_chars text) added)
      else stored
]

unfoldable pub send_message : Settings → Queries → Drawn → ℕ → Text → Database → Database × Answer
unfolding store_message
send_message settings queries drawn id content db =
    if is_valid_content content
    then if is_answered queries.reading
      then elim (get_conversation id db) [
        | none ↦ (db, refused 404)
        | some conv ↦ elim (strip content) [
          | [] ↦ (db, refused 422)
          | c ∷ text ↦
              let stored = store_message queries drawn id (c ∷ text) db in
              if stored.1 && is_answered queries.listing
              then (stored.0, streaming (prepare settings conv id stored.0))
              else (stored.0, refused 500)
        ]
      ]
      else (db, refused 500)
    else (db, refused 422)

-- How a call of the database goes, and whether a call that is cut off has taken effect.
pub data Fate : Type 0 where
  works fails : Fate
  cut_off : Bool → Fate

-- The two calls of a `_persist_assistant_turn`.
pub record Attempt : Type 0 where
  pub row : Drawn
  pub touched_at : ℕ
  pub add_fate : Fate
  pub touch_fate : Fate

-- `touch_conversation`, and whether the cancellation goes on to the caller.
unfoldable pub touch_by : Fate → ℕ → ℕ → Database → Database × Bool
touch_by works id now db = (touch_conversation id now db, false)
touch_by fails id now db = (db, false)
touch_by (cut_off effect) id now db = (if effect then touch_conversation id now db else db, true)

abbrev pub assistant_turn : Text → Text → Option Usage → TurnStatus → Turn
assistant_turn request_id text usage outcome = record {
  role = Role.assistant;
  content = text;
  status = outcome;
  request_id = some request_id;
  prompt_tokens = elim usage [ none ↦ none | some u ↦ u.prompt_tokens ];
  completion_tokens = elim usage [ none ↦ none | some u ↦ u.completion_tokens ];
}

abbrev pub is_complete : TurnStatus → Bool
is_complete status = elim status [ TurnStatus.complete ↦ true | _ ↦ false ]

-- `add_message` of the turn, then `touch_conversation`.
unfoldable pub store_turn : Fate → Attempt → ℕ → Turn → Database → Database × Bool
unfolding touch_by
store_turn fails attempt id turn db = (db, false)
store_turn (cut_off false) attempt id turn db = (db, true)
store_turn (cut_off true) attempt id turn db = elim (add_message attempt.row id turn db) [
  | none ↦ (db, true)
  | some added ↦ (added, true)
]
store_turn works attempt id turn db = elim (add_message attempt.row id turn db) [
  | none ↦ (db, false)
  | some added ↦ touch_by attempt.touch_fate id attempt.touched_at added
]

-- `_persist_assistant_turn`: it swallows what the database raises, but no cancellation.
unfoldable pub persist_assistant_turn :
    Attempt → ℕ → Text → Text → Option Usage → TurnStatus → Database → Database × Bool
unfolding touch_by store_turn
persist_assistant_turn attempt id request_id text usage outcome db =
    if is_empty text && not (is_complete outcome)
    then touch_by attempt.touch_fate id attempt.touched_at db
    else store_turn attempt.add_fate attempt id (assistant_turn request_id text usage outcome) db

-- The local variables of `stream`, and the frames that it has yielded.
pub record Progress : Type 0 where
  pub sent : List Frame
  pub collected : List Text
  pub usage : Option Usage

abbrev pub add_token : Text → Progress → Progress
add_token text p = record p {
  sent = p.sent ++ (token text ∷ []);
  collected = p.collected ++ (text ∷ []);
}

abbrev pub note_usage : StreamChunk → Progress → Progress
note_usage chunk p = record p { usage = elim chunk.usage [ none ↦ p.usage | some u ↦ some u ] }

-- A `yield`: `none` if the generator is closed there, and else the patience left.
unfoldable pub resume : Option ℕ → Option (Option ℕ)
resume none = some none
resume (some zero) = none
resume (some (suc k)) = some (some k)

-- How the loop over the chunks is left.
pub data Stop : Type 0 where
  exhausted : Option ℕ → Stop
  closed : Stop

unfoldable pub collect : List StreamChunk → Option ℕ → Progress → Progress × Stop
unfolding resume
collect [] patience p = (p, exhausted patience)
collect (chunk ∷ rest) patience p = elim chunk.text [
  | [] ↦ collect rest patience (note_usage chunk p)
  | c ∷ text ↦ elim (resume patience) [
    | none ↦ (add_token (c ∷ text) p, closed)
    | some left ↦ collect rest left (note_usage chunk (add_token (c ∷ text) p))
  ]
]

-- What the provider's stream does after its chunks: it ends, raises an exception with a text, or is
-- cancelled while the next chunk is awaited.
pub data Ending : Type 0 where
  ended : Ending
  raised : Text → Ending
  cancelled : Ending

-- `" ".join(str(exc).split())[:240] or "unknown error"`, with what stands before it.
unfoldable pub reason_of : Text → Text
unfolding split join
reason_of text =
    codes "Model request failed — " ++ elim (take 240 (join (codes " ") (split text))) [
      | [] ↦ codes "unknown error"
      | c ∷ reason ↦ c ∷ reason
    ]

-- `_spawn_persist`: the task runs by itself, so its cancellation reaches no one.
unfoldable pub spawn_persist : Attempt → ℕ → Text → Progress → TurnStatus → Database → Database
spawn_persist attempt id request_id p outcome db =
    (persist_assistant_turn attempt id request_id (join [] p.collected) p.usage outcome db).0

-- After the last chunk: the awaited store, and the `done` frame. Both stand inside the `try`.
unfoldable pub conclude :
    Attempt → Attempt → ℕ → Text → Option ℕ → Progress → Database → Database × List Frame
unfolding resume spawn_persist
conclude awaited spawned id request_id patience p db =
    let stored =
      persist_assistant_turn awaited id request_id (join [] p.collected) p.usage TurnStatus.complete
        db in
    let finished = p.sent ++ (done request_id p.usage ∷ []) in
    if stored.1
    then (spawn_persist spawned id request_id p TurnStatus.cancelled stored.0, p.sent)
    else elim (resume patience) [
      | none ↦ (spawn_persist spawned id request_id p TurnStatus.cancelled stored.0, finished)
      | some left ↦ (stored.0, finished)
    ]

-- What follows the loop over the chunks.
unfoldable pub settle :
    Attempt → Attempt → ℕ → Text → Ending → Progress × Stop → Database → Database × List Frame
unfolding spawn_persist conclude reason_of
settle awaited spawned id request_id ending (p, closed) db =
    (spawn_persist spawned id request_id p TurnStatus.cancelled db, p.sent)
settle awaited spawned id request_id cancelled (p, exhausted patience) db =
    (spawn_persist spawned id request_id p TurnStatus.cancelled db, p.sent)
settle awaited spawned id request_id (raised text) (p, exhausted patience) db = (
  spawn_persist spawned id request_id p TurnStatus.error db,
  p.sent ++ (failure (reason_of text) ∷ []),
)
settle awaited spawned id request_id ended (p, exhausted patience) db =
    conclude awaited spawned id request_id patience p db

abbrev pub begun : Text → Progress
begun request_id = record { sent = start request_id ∷ []; collected = []; usage = none }

-- `stream`: the store after it, and the frames that it yields. A generator that is closed at the
-- `start` frame stands before the `try`, and so does the call that raises for an unknown provider.
unfoldable pub stream :
    Attempt
    → Attempt
    → ℕ
    → Text
    → Text
    → List Text
    → List StreamChunk
    → Ending
    → Option ℕ
    → Database
    → Database × List Frame
unfolding resume collect settle dispatches
stream awaited spawned id request_id provider providers chunks ending patience db =
    elim (resume patience) [
      | none ↦ (db, start request_id ∷ [])
      | some left ↦
          if dispatches provider providers
          then settle awaited spawned id request_id ending (collect chunks left (begun request_id))
              db
          else (db, start request_id ∷ [])
    ]
