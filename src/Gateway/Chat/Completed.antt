-- ===== src/Gateway/Chat/Completed.antt =====
-- What a run of the stream of gateway/app/chat.py sends and stores, where the database works.
use inferlog.Prelude.{
  ℕ, suc, ◌<◌, ◌≡◌, refl, ap, ◌∙◌, true, false, not, ◌&&◌, Option, none, some, List, [], ◌∷◌, ◌++◌,
  map, take, length, is_empty, is_some, arith,
}
use inferlog.Prelude.Text.{Text, join}
use inferlog.Gateway.Llm.{StreamChunk, Usage, dispatches}
use inferlog.Gateway.Store.{
  Database, Turn, TurnStatus, add_message-added, message_of, touch_conversation, get_conversation,
  get_message,
}
use inferlog.Gateway.Chat.{
  start, token, done, failure, works, Attempt, touch_by, assistant_turn, is_complete,
  persist_assistant_turn, Progress, resume, Ending, ended, raised, spawn_persist, conclude, settle,
  begun, stream, store_turn, reason_of,
}
use inferlog.Gateway.Chat.Chunks.{
  texts_of, last_usage, grown, collect-all, collect-exactly, collect-IsStopped,
}
use inferlog.Gateway.Chat.Stored.{store_turn-added}
use inferlog.Gateway.Chat.Turns.{stream-settled}

-- Both calls of the attempt work, the conversation is there, and the identifier of the row is fresh.
pub record IsReady (attempt : Attempt) (id : ℕ) (db : Database) : Type 0 where
  pub adds : attempt.add_fate ≡ works
  pub touches : attempt.touch_fate ≡ works
  pub there : is_some (get_conversation id db) ≡ true
  pub fresh : get_message attempt.row.id db ≡ none

-- The store with one more turn at the end of the messages, and the conversation touched.
unfoldable pub with_turn : Attempt → ℕ → Turn → Database → Database
with_turn attempt id turn db =
    touch_conversation id attempt.touched_at
      (record db { messages = db.messages ++ (message_of attempt.row id turn ∷ []) })

touch_by-works :
    (id now : ℕ) (db : Database) → touch_by works id now db ≡ (touch_conversation id now db, false)
unfolding touch_by
touch_by-works id now db = refl

store_turn-with_turn :
    (attempt : Attempt) (id : ℕ) (turn : Turn) (db : Database)
    → IsReady attempt id db
    → store_turn attempt.add_fate attempt id turn db ≡ (with_turn attempt id turn db, false)
unfolding with_turn
store_turn-with_turn attempt id turn db h =
    let added = record db { messages = db.messages ++ (message_of attempt.row id turn ∷ []) } in
    ap (λ f. store_turn f attempt id turn db) h.adds
    ∙ store_turn-added attempt id turn db added
        (add_message-added attempt.row id turn db h.there h.fresh)
    ∙ ap (λ f. touch_by f id attempt.touched_at added) h.touches
    ∙ touch_by-works id attempt.touched_at added

persist-with_turn :
    (attempt : Attempt) (id : ℕ) (request_id text : Text) (usage : Option Usage)
    (outcome : TurnStatus) (db : Database)
    → IsReady attempt id db
    → (is_empty text && not (is_complete outcome)) ≡ false
    → persist_assistant_turn attempt id request_id text usage outcome db
      ≡ (with_turn attempt id (assistant_turn request_id text usage outcome) db, false)
unfolding persist_assistant_turn
persist-with_turn attempt id request_id text usage outcome db h e =
    rw e (store_turn-with_turn attempt id (assistant_turn request_id text usage outcome) db h)

spawn-with_turn :
    (attempt : Attempt) (id : ℕ) (request_id : Text) (p : Progress) (outcome : TurnStatus)
    (db : Database)
    → IsReady attempt id db
    → (is_empty (join [] p.collected) && not (is_complete outcome)) ≡ false
    → spawn_persist attempt id request_id p outcome db
      ≡ with_turn attempt id (assistant_turn request_id (join [] p.collected) p.usage outcome) db
unfolding spawn_persist
spawn-with_turn attempt id request_id p outcome db h e =
    ap (λ r. r.0)
      (persist-with_turn attempt id request_id (join [] p.collected) p.usage outcome db h e)

module _ (awaited spawned : Attempt) (id : ℕ) (request_id provider : Text) (providers : List Text)
    (chunks : List StreamChunk) (db : Database) (known : dispatches provider providers ≡ true) where
  abbrev reply : Text
  reply = join [] (texts_of chunks)

  abbrev final_usage : Option Usage
  final_usage = last_usage none chunks

  abbrev finished : Progress
  finished = grown (texts_of chunks) final_usage (begun request_id)

  -- With a known provider, a client that stays, and a database that works, a stream that ends sends
  -- the start, every text in order, and the end with the last usage, and stores the texts joined as
  -- one complete turn.
  pub stream-completed :
      IsReady awaited id db
      → stream awaited spawned id request_id provider providers chunks ended none db ≡ (
        with_turn awaited id
            (assistant_turn request_id
              (join [] (texts_of chunks))
              (last_usage none chunks)
              TurnStatus.complete)
            db,
        (start request_id ∷ map token (texts_of chunks))
            ++ (done request_id (last_usage none chunks) ∷ []),
      )
  unfolding resume conclude settle
  stream-completed h =
      stream-settled awaited spawned id request_id provider providers chunks ended none db none refl
        known
      ∙ rw
          (
            collect-all chunks (begun request_id),
            persist-with_turn awaited id request_id reply final_usage TurnStatus.complete db h
                (ground arith),
          )
          refl

  -- With a known provider and a database that works, a client that stops at the frame of text k + 1
  -- was sent the first k + 1 texts, and they are stored, joined, as one cancelled turn.
  pub stream-stopped :
      (k : ℕ)
      → k < length (texts_of chunks)
      → (ending : Ending) → IsReady spawned id db
      → is_empty (join [] (take (suc k) (texts_of chunks))) ≡ false
      → (usage : Option Usage) × (stream awaited spawned id request_id provider providers chunks
            ending
            (some (suc k))
            db
          ≡ (
            with_turn spawned id
                (assistant_turn request_id
                  (join [] (take (suc k) (texts_of chunks)))
                  usage
                  TurnStatus.cancelled)
                db,
            start request_id ∷ map token (take (suc k) (texts_of chunks)),
          ))
  unfolding resume settle
  stream-stopped k h ending ready text =
      let (usage, e) = collect-IsStopped k chunks (begun request_id) h in
      (
        usage,
        stream-settled awaited spawned id request_id provider providers chunks ending (some (suc k))
              db (some k) refl known
            ∙ rw
                (
                  e,
                  spawn-with_turn spawned id request_id
                      (grown (take (suc k) (texts_of chunks)) usage (begun request_id))
                      TurnStatus.cancelled db ready (rw text refl),
                )
                refl,
      )

  -- With a known provider and a database that works, a stream that fails after its chunks sends its
  -- texts and then the reason, and stores the texts, joined, as one turn in error.
  pub stream-failed :
      (text : Text)
      → IsReady spawned id db
      → is_empty (join [] (texts_of chunks)) ≡ false
      → stream awaited spawned id request_id provider providers chunks (raised text) none db ≡ (
        with_turn spawned id
            (assistant_turn request_id
              (join [] (texts_of chunks))
              (last_usage none chunks)
              TurnStatus.error)
            db,
        (start request_id ∷ map token (texts_of chunks)) ++ (failure (reason_of text) ∷ []),
      )
  unfolding resume settle
  stream-failed text ready e =
      stream-settled awaited spawned id request_id provider providers chunks (raised text) none db
        none refl known
      ∙ rw
          (
            collect-all chunks (begun request_id),
            spawn-with_turn spawned id request_id finished TurnStatus.error db ready (rw e refl),
          )
          refl

  -- With a known provider and a database that works, a client that stops at the last frame has its
  -- answer stored twice: as a complete turn, and after it as a cancelled one.
  pub stream-stored_twice :
      IsReady awaited id db
      → IsReady spawned id (
          with_turn awaited id
            (assistant_turn request_id
              (join [] (texts_of chunks))
              (last_usage none chunks)
              TurnStatus.complete)
            db)
      → is_empty (join [] (texts_of chunks)) ≡ false
      → stream awaited spawned id request_id provider providers chunks ended
          (some (suc (length (texts_of chunks))))
          db
        ≡ (
          with_turn spawned id
              (assistant_turn request_id
                (join [] (texts_of chunks))
                (last_usage none chunks)
                TurnStatus.cancelled)
              (with_turn awaited id
                (assistant_turn request_id
                  (join [] (texts_of chunks))
                  (last_usage none chunks)
                  TurnStatus.complete)
                db),
          (start request_id ∷ map token (texts_of chunks))
              ++ (done request_id (last_usage none chunks) ∷ []),
        )
  unfolding resume settle conclude
  stream-stored_twice first second e =
      let patience = length (texts_of chunks) in
      stream-settled awaited spawned id request_id provider providers chunks ended
        (some (suc patience)) db (some patience) refl known
      ∙ rw
          (
            collect-exactly chunks (begun request_id),
            persist-with_turn awaited id request_id reply final_usage TurnStatus.complete db first
                (ground arith),
            spawn-with_turn spawned id request_id finished TurnStatus.cancelled _ second
                (rw e refl),
          )
          refl
