-- ===== src/Gateway/Chat/Turns.antt =====
-- The turns that a run of the stream of gateway/app/chat.py stores.
use inferlog.Prelude.{
  ℕ, ◌≡◌, refl, true, false, Option, none, some, List, [], ◌∷◌, arith, Bool-cases, Option-cases,
  inl, inr,
}
use inferlog.Prelude.Text.{Text, join}
use inferlog.Gateway.Llm.{StreamChunk, dispatches}
use inferlog.Gateway.Store.{Database, TurnStatus}
use inferlog.Gateway.Chat.{
  Frame, start, failure, Attempt, persist_assistant_turn, Progress, resume, Stop, exhausted, closed,
  collect, Ending, ended, raised, cancelled, conclude, settle, begun, stream, reason_of,
}
use inferlog.Gateway.Chat.Frames.{
  sent_text, IsHonest, collect-IsHonest, sent_text-tokenless, sent_text-done, begun-IsHonest,
}
use inferlog.Gateway.Chat.Stored.{
  Stores, Stores-none, Stores-then, Stores-wider, persist_assistant_turn-Stores,
  spawn_persist-Stores,
}

-- A run of which every stored turn holds the text that was sent.
pub StoresSent : ℕ → Text → Database → Database × List Frame → Type 0
StoresSent id request_id db result = Stores id request_id (sent_text result.1) 2 db result.0

-- The three ways out of the end of the stream.
conclude-StoresSent :
    (awaited spawned : Attempt) (id : ℕ) (request_id : Text) (patience : Option ℕ) (p : Progress)
    (db : Database)
    → IsHonest p
    → StoresSent id request_id db (conclude awaited spawned id request_id patience p db)
unfolding StoresSent conclude IsHonest
conclude-StoresSent awaited spawned id request_id patience p db h =
    let text = join [] p.collected in
    let stored = persist_assistant_turn awaited id request_id text p.usage TurnStatus.complete db in
    let first =
      persist_assistant_turn-Stores awaited id request_id text p.usage TurnStatus.complete db in
    let second = spawn_persist-Stores spawned id request_id p TurnStatus.cancelled stored.0 in
    let both = Stores-then id request_id text db stored.0 _ first second in
    elim (Bool-cases stored.1) [
      | inl e ↦ rw (e, h) both
      | inr e ↦ elim (Option-cases (resume patience)) [
        | inl f ↦ rw (e, f, sent_text-done p request_id h) both
        | inr (left, f) ↦
            rw (e, f, sent_text-done p request_id h)
              (Stores-wider id request_id text db stored.0 first)
      ]
    ]

settle-StoresSent :
    (awaited spawned : Attempt) (id : ℕ) (request_id : Text) (ending : Ending) (p : Progress)
    (stop : Stop) (db : Database)
    → IsHonest p
    → StoresSent id request_id db (settle awaited spawned id request_id ending (p, stop) db)
unfolding StoresSent settle IsHonest sent_text
settle-StoresSent awaited spawned id request_id ending p closed db h =
    rw h (
      Stores-wider _ _ _ _ _ (spawn_persist-Stores spawned id request_id p TurnStatus.cancelled db))
settle-StoresSent awaited spawned id request_id cancelled p (exhausted patience) db h =
    rw h (
      Stores-wider _ _ _ _ _ (spawn_persist-Stores spawned id request_id p TurnStatus.cancelled db))
settle-StoresSent awaited spawned id request_id (raised text) p (exhausted patience) db h =
    rw (sent_text-tokenless p (failure (reason_of text)) h refl)
      (Stores-wider _ _ _ _ _ (spawn_persist-Stores spawned id request_id p TurnStatus.error db))
settle-StoresSent awaited spawned id request_id ended p (exhausted patience) db h =
    conclude-StoresSent awaited spawned id request_id patience p db h

settle-collected :
    (awaited spawned : Attempt) (id : ℕ) (request_id : Text) (ending : Ending) (r : Progress × Stop)
    (db : Database)
    → IsHonest r.0
    → StoresSent id request_id db (settle awaited spawned id request_id ending r db)
settle-collected awaited spawned id request_id ending (p, stop) db h =
    settle-StoresSent awaited spawned id request_id ending p stop db h

unanswered-StoresSent :
    (id : ℕ) (request_id : Text) (db : Database)
    → StoresSent id request_id db (db, start request_id ∷ [])
unfolding StoresSent
unanswered-StoresSent id request_id db = Stores-none _ _ _ _ _ _ refl

module _ (awaited spawned : Attempt) (id : ℕ) (request_id provider : Text) (providers : List Text)
    (chunks : List StreamChunk) (ending : Ending) (patience : Option ℕ) (db : Database) where
  abbrev run : Database × List Frame
  run = stream awaited spawned id request_id provider providers chunks ending patience db

  stream-closed : resume patience ≡ none → run ≡ (db, start request_id ∷ [])
  unfolding stream
  stream-closed e = ground arith

  stream-unknown :
      (left : Option ℕ)
      → resume patience ≡ some left
      → dispatches provider providers ≡ false
      → run ≡ (db, start request_id ∷ [])
  unfolding stream
  stream-unknown left e f = ground arith

  pub stream-settled :
      (left : Option ℕ)
      → resume patience ≡ some left
      → dispatches provider providers ≡ true
      → run
        ≡ settle awaited spawned id request_id ending (collect chunks left (begun request_id)) db
  unfolding stream
  stream-settled left e f = ground arith

  -- Whatever the provider yields and however its stream ends, wherever the client stops, and however
  -- the calls of the database go, a run of the stream only adds messages, at most two, behind the old
  -- ones; each is an answer of the assistant to this request in this conversation, and its content is
  -- exactly the text that the client was sent.
  pub stream-StoresSent :
      StoresSent id request_id db
        (stream awaited spawned id request_id provider providers chunks ending patience db)
  stream-StoresSent = elim (Option-cases (resume patience)) [
    | inl e ↦ rw (stream-closed e) (unanswered-StoresSent id request_id db)
    | inr (left, e) ↦ elim (Bool-cases (dispatches provider providers)) [
      | inl f ↦ rw (stream-settled left e f) (
          settle-collected awaited spawned id request_id ending _ db
            (collect-IsHonest chunks left (begun request_id) (begun-IsHonest request_id)))
      | inr f ↦ rw (stream-unknown left e f) (unanswered-StoresSent id request_id db)
    ]
  ]
