-- ===== src/Ingestion/Worker.antt =====
-- ingestion/app/worker.py and the message side of ingestion/app/stream.py.
pub mod Steps
pub mod Stored
pub mod Settled
pub mod Loop
pub mod Acked
pub mod Served
pub mod Safe
use inferlog.Prelude.{
  ℕ, ◌≡◌, Bool, true, false, Option, none, some, List, [], ◌∷◌, ◌++◌, if◌then◌else◌, take,
}
use inferlog.Prelude.Json.{Json, Fields}
use inferlog.Prelude.Python.{Python}
use inferlog.Prelude.Text.{Text, codes}
use inferlog.Sdk.Redaction.{Subn}
use inferlog.Ingestion.Enrich.{Floats}
use inferlog.Ingestion.Events.{RawEvent, IngestEvent, validate}
use inferlog.Ingestion.Processing.{LogRow, process_event}
use inferlog.Ingestion.Table.{upsert_log}

abbrev pub max_dlq_error_chars : ℕ
max_dlq_error_chars = 1000

-- A call of Redis or of the database: it answers, it fails without an effect, or its effect takes
-- place and the answer is lost.
pub data Call : Type 0 where
  answered : Call
  failed : Call
  unanswered : Call

-- What happens to one message: the clock, the calls for it and the texts of the exceptions.
pub record Run : Type 0 where
  pub now : ℕ
  pub upsert : Call
  pub first_ack : Call
  pub park : Call
  pub last_ack : Call
  pub validation_error : Text
  pub processing_error : Text

-- An entry of the dead-letter stream.
pub record Parked : Type 0 where
  pub error : Text
  pub data_text : Text

-- The table, the dead-letter stream and the acknowledged messages.
pub record State (F : Type 0) : Type 0 where
  pub table : List (LogRow F)
  pub dlq : List Parked
  pub acked : List ℕ

-- The outcome of a call on a state: the new state, and whether the call returned.
unfoldable pub call : {S : Type 0} → Call → (S → S) → S → S × Bool
call Call.answered effect s = (effect s, true)
call Call.failed effect s = (s, false)
call Call.unanswered effect s = (effect s, false)

-- A further call, if the first one returned.
unfoldable pub then_call : {S : Type 0} → S × Bool → (S → S × Bool) → S × Bool
then_call (s, true) next = next s
then_call (s, false) next = (s, false)

-- A handler, if the call before it raised.
unfoldable pub on_raise : {S : Type 0} → S × Bool → (S → S × Bool) → S × Bool
on_raise (s, true) handler = (s, true)
on_raise (s, false) handler = handler s

-- `EventStream._decode` of one entry
unfoldable pub decode : Python → Text → Json
decode py raw = elim (py.loads raw) [
  | some value ↦ value
  | none ↦ Json.obj (Fields.field (codes "__unparseable__") (Json.str raw) Fields.end)
]

module _ (py : Python) (dumps : Json → Text) (typed : Json → Option RawEvent) where
  module _ (subn : Subn) (fl : Floats) (defense : Bool) where
    unfoldable pub ack : ℕ → State fl.Float → State fl.Float
    ack msg_id s = record { table = s.table; dlq = s.dlq; acked = s.acked ++ (msg_id ∷ []) }

    unfoldable pub to_dlq : Json → Text → State fl.Float → State fl.Float
    to_dlq raw error s = record {
      table = s.table;
      dlq =
          s.dlq ++ (record { error = take max_dlq_error_chars error; data_text = dumps raw } ∷ []);
      acked = s.acked;
    }

    unfoldable pub store : LogRow fl.Float → State fl.Float → State fl.Float
    store row s = record { table = (upsert_log row s.table).0; dlq = s.dlq; acked = s.acked }

    -- The dead-letter entry and the acknowledgement after it, in both error branches.
    unfoldable pub park_message : Run → ℕ → Json → Text → State fl.Float → State fl.Float × Bool
    unfolding call then_call
    park_message run msg_id raw error s =
        then_call (call run.park (to_dlq raw error) s) (call run.last_ack (ack msg_id))

    -- The second `try` of the loop.
    unfoldable pub store_event :
        Run → ℕ → Json → IngestEvent → State fl.Float → State fl.Float × Bool
    unfolding call then_call on_raise
    store_event run msg_id raw event s =
        on_raise
          (then_call (call run.upsert (store (process_event subn fl defense run.now event)) s)
            (call run.first_ack (ack msg_id)))
          (park_message run msg_id raw (codes "processing error: " ++ run.processing_error))

    unfoldable pub handle_valid :
        Run → ℕ → Json → Option IngestEvent → State fl.Float → State fl.Float × Bool
    handle_valid run msg_id raw none =
        park_message run msg_id raw (codes "validation error: " ++ run.validation_error)
    handle_valid run msg_id raw (some event) = store_event run msg_id raw event

    -- The body of the loop of `_handle` for one message; the Boolean is false if it raises.
    unfoldable pub handle_one : Run → ℕ × Text → State fl.Float → State fl.Float × Bool
    handle_one run (msg_id, raw) =
        handle_valid run msg_id (decode py raw) (validate py typed (decode py raw))

    -- `_handle`: an exception ends the loop.
    unfoldable pub handle : List (Run × (ℕ × Text)) → State fl.Float → State fl.Float × Bool
    unfolding then_call
    handle [] s = (s, true)
    handle ((run, message) ∷ rest) s = then_call (handle_one run message s) (handle rest)
