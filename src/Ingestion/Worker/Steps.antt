-- ===== src/Ingestion/Worker/Steps.antt =====
-- Rules for the calls of the worker, and what a run of `_handle` keeps of the table.
use inferlog.Prelude.{
  ℕ, ◌≡◌, refl, Bool, true, false, Option, none, some, List, [], ◌∷◌, All, arith,
}
use inferlog.Prelude.Json.{Json}
use inferlog.Prelude.Python.{Python}
use inferlog.Prelude.Text.{Text}
use inferlog.Sdk.Redaction.{Subn}
use inferlog.Ingestion.Enrich.{Floats}
use inferlog.Ingestion.Events.{RawEvent, IngestEvent, validate}
use inferlog.Ingestion.Processing.{LogRow, process_event}
use inferlog.Ingestion.Table.{upsert_log}
use inferlog.Ingestion.Worker.{
  Call, Run, State, call, then_call, on_raise, decode, ack, to_dlq, store, park_message,
  store_event, handle_valid, handle_one, handle,
}

-- The calls whose effect takes place.
abbrev pub takes_effect : Call → Bool
takes_effect Call.failed = false
takes_effect _ = true

module _ {S : Type 0} (P : S → Type 0) where
  pub call-keeps : (c : Call) (effect : S → S) (s : S) → P s → P (effect s) → P (call c effect s).0
  unfolding call
  call-keeps Call.answered effect s h k = k
  call-keeps Call.failed effect s h k = h
  call-keeps Call.unanswered effect s h k = k

  pub then_call-call :
      (c : Call) (effect : S → S) (next : S → S × Bool) (s : S)
      → P s
      → P (effect s)
      → P (next (effect s)).0
      → P (then_call (call c effect s) next).0
  unfolding call then_call
  then_call-call Call.answered effect next s h k l = l
  then_call-call Call.failed effect next s h k l = h
  then_call-call Call.unanswered effect next s h k l = k

  pub then_call-effect :
      (c : Call) (effect : S → S) (next : S → S × Bool) (s : S)
      → takes_effect c ≡ true
      → P (effect s)
      → P (next (effect s)).0
      → P (then_call (call c effect s) next).0
  unfolding call then_call
  then_call-effect Call.answered effect next s e k l = l
  then_call-effect Call.failed effect next s e k l = ground arith
  then_call-effect Call.unanswered effect next s e k l = k

  pub then_call-keeps :
      (x : S × Bool) (next : S → S × Bool)
      → P x.0
      → ((t : S) → P t → P (next t).0)
      → P (then_call x next).0
  unfolding then_call
  then_call-keeps (s, true) next h k = k s h
  then_call-keeps (s, false) next h k = h

  pub on_raise-keeps :
      (x : S × Bool) (handler : S → S × Bool)
      → P x.0
      → ((t : S) → P t → P (handler t).0)
      → P (on_raise x handler).0
  unfolding on_raise
  on_raise-keeps (s, true) handler h k = h
  on_raise-keeps (s, false) handler h k = k s h

module _ (py : Python) (dumps : Json → Text) (typed : Json → Option RawEvent) where
  module _ (subn : Subn) (fl : Floats) (defense : Bool) where
    -- The row that a run makes of an event.
    abbrev pub row_of : Run → IngestEvent → LogRow fl.Float
    row_of run event = process_event subn fl defense run.now event

    module _ (P : List (LogRow fl.Float) → Type 0) where
      -- Storing the row of a message keeps `P`.
      abbrev pub Keeps : Run × (ℕ × Text) → Type 0
      Keeps (run, (msg_id, raw)) =
          (event : IngestEvent)
          → validate py typed (decode py raw) ≡ some event
          → (t : List (LogRow fl.Float)) → P t
          → P (upsert_log (row_of run event) t).0

      pub park_message-keeps :
          (run : Run) (msg_id : ℕ) (raw : Json) (error : Text) (s : State fl.Float)
          → P s.table
          → P (park_message py dumps typed subn fl defense run msg_id raw error s).0.table
      unfolding park_message ack to_dlq
      park_message-keeps run msg_id raw error s h =
          then_call-call (λ t. P t.table) run.park (to_dlq py dumps typed subn fl defense raw error)
            (call run.last_ack (ack py dumps typed subn fl defense msg_id)) s h h
            (call-keeps (λ t. P t.table) run.last_ack (ack py dumps typed subn fl defense msg_id)
              (to_dlq py dumps typed subn fl defense raw error s) h h)

      pub handle_valid-keeps :
          (run : Run) (msg_id : ℕ) (raw : Json) (event : Option IngestEvent) (s : State fl.Float)
          → ((e : IngestEvent)
              → event ≡ some e
              → (t : List (LogRow fl.Float)) → P t
              → P (upsert_log (row_of run e) t).0)
          → P s.table
          → P (handle_valid py dumps typed subn fl defense run msg_id raw event s).0.table
      unfolding handle_valid store_event store ack
      handle_valid-keeps run msg_id raw none s k h = park_message-keeps run msg_id raw _ s h
      handle_valid-keeps run msg_id raw (some e) s k h =
          on_raise-keeps (λ t. P t.table) _
            (park_message py dumps typed subn fl defense run msg_id raw _)
            (then_call-call (λ t. P t.table) run.upsert
              (store py dumps typed subn fl defense (row_of run e))
              (call run.first_ack (ack py dumps typed subn fl defense msg_id)) s h
              (k e refl s.table h)
              (call-keeps (λ t. P t.table) run.first_ack (ack py dumps typed subn fl defense msg_id)
                (store py dumps typed subn fl defense (row_of run e) s) (k e refl s.table h)
                (k e refl s.table h)))
            (λ t l. park_message-keeps run msg_id raw _ t l)

      pub handle-keeps :
          (messages : List (Run × (ℕ × Text))) (s : State fl.Float)
          → All Keeps messages
          → P s.table
          → P (handle py dumps typed subn fl defense messages s).0.table
      unfolding handle handle_one
      handle-keeps [] s k h = h
      handle-keeps ((run, (msg_id, raw)) ∷ rest) s k h =
          then_call-keeps (λ t. P t.table) _ (handle py dumps typed subn fl defense rest)
            (handle_valid-keeps run msg_id (decode py raw) (validate py typed (decode py raw)) s k.0
              h)
            (λ t l. handle-keeps rest t k.1 l)
