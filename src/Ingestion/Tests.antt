-- ===== src/Ingestion/Tests.antt =====
-- The theorems on the ingestion service, applied to a message and its event.
use inferlog.Prelude.{
  Bool, inr, if◌then◌else◌, ◌↔◌, ℕ, ◌+◌, ◌≡◌, refl, true, false, ◌&&◌, Option, none, some, List, [],
  ◌∷◌, All,
}
use inferlog.Prelude.Int.{pos}
use inferlog.Prelude.Json.{Json, Fields}
use inferlog.Prelude.Text.{strip_left, strip, text_eq, Text, codes}
use inferlog.Samples.{python, subn, team, inference_event}
use inferlog.Sdk.Events.{success, to_payload}
use inferlog.Sdk.Redaction as Sdk
use inferlog.Sdk.Redaction.{make_redactor}
use inferlog.Sdk.Dispatcher.Sink.{auth_header}
use inferlog.Ingestion.Api.{
  Access, is_ascii, sent_headers, require_api_key, require_api_key-auth_header,
}
use inferlog.Ingestion.Events.{
  RawEvent, EventOf, validate, bounded_dict, optional, max_length, max_error_chars, capped-accepted,
}
use inferlog.Ingestion.Redaction.{redact, redact-eq-sdk}
use inferlog.Ingestion.Enrich.{Floats}
use inferlog.Ingestion.Table.{IsKeyed, Extends}
use inferlog.Ingestion.Batch.{
  stamped, events_of, is_batch, publish, publish_all, ingest, IsReadable, IsIngested,
  ingest-IsIngested,
}
use inferlog.Prelude.Python.{Python}
use inferlog.Ingestion.Worker.Acked.{Answers, AllDone}
use inferlog.Ingestion.Worker.Loop.{Round, run, replies, taken_by}
use inferlog.Ingestion.Worker.Served.{Serves, handed_out, run-AllDone}
use inferlog.Ingestion.Worker.{
  Call, Run, State, handle, handle_one, handle_valid, store_event, park_message,
}
use inferlog.Ingestion.Worker.Stored.{redelivered, handle-IsKeyed, handle-redelivered}
use inferlog.Ingestion.Worker.Settled.{IsSettled}
use inferlog.Ingestion.Worker.Safe.{run-IsSettled}
use inferlog.Ingestion.Arrival.{Arrived, is_handed_out, ingest-Arrived}

abbrev hundredth_floats : Floats
hundredth_floats = record {
  Float = ℕ;
  of_nat = λ n. n;
  hundredths = λ n. n;
  add = λ a b. a + b;
  mul = λ a b. a;
  div = λ a b. a;
  round = λ a digits. a;
}

-- The event of every message.
abbrev event_of : {N : Type 0} → N → EventOf N
event_of latency = record {
  request_id = 17;
  service = codes "checkout";
  provider = codes "openai";
  model = codes "gpt-4.1";
  status = success;
  streamed = false;
  started_at = 1000;
  completed_at = 3000;
  latency_ms = latency;
  conversation_id = none;
  ttft_ms = none;
  prompt_tokens = none;
  completion_tokens = none;
  total_tokens = none;
  input_preview = none;
  output_preview = none;
  error_type = none;
  error_message = none;
  pii_redaction_count = latency;
  tags = team;
  client_metadata = Fields.end;
  sdk_version = none;
  schema_version = pos 1;
  received_at = none;
}

abbrev typed : Json → Option RawEvent
typed raw = some (event_of (pos 2))

abbrev dumps : Json → Text
dumps raw = codes "data"

abbrev sample_run : Call → Run
sample_run first_ack = record {
  now = 5000;
  upsert = Call.answered;
  first_ack = first_ack;
  park = Call.answered;
  last_ack = Call.answered;
  validation_error = codes "bad";
  processing_error = codes "down";
}

abbrev empty_state : State ℕ
empty_state = record { table = []; dlq = []; acked = [] }

-- The second message is a redelivery; the acknowledgement of the first one fails.
abbrev sample_messages : List (Run × (ℕ × Text))
sample_messages =
    (sample_run Call.failed, (1, codes "one")) ∷ (sample_run Call.answered, (2, codes "one")) ∷ []

abbrev second_runs : ℕ × Text → Run
second_runs m = sample_run Call.unanswered

handle-redelivered_example :
    let s' =
      (handle python dumps typed subn hundredth_floats false sample_messages empty_state).0 in
    (handle python dumps typed subn hundredth_floats false
      (redelivered second_runs sample_messages)
      s').0.table
    ≡ s'.table
unfolding handle handle_one handle_valid validate store_event park_message
handle-redelivered_example =
    handle-redelivered python dumps typed subn hundredth_floats false second_runs sample_messages
      empty_state (refl, (refl, tt)) refl

handle-IsKeyed_example :
    let s' =
      (handle python dumps typed subn hundredth_floats false sample_messages empty_state).0 in
    Extends [] s'.table × IsKeyed s'.table
handle-IsKeyed_example =
    handle-IsKeyed python dumps typed subn hundredth_floats false sample_messages empty_state tt

abbrev content : ℕ → Text
content msg_id = codes "one"

abbrev two_runs : List (Run × ℕ)
two_runs = (sample_run Call.failed, 1) ∷ (sample_run Call.answered, 2) ∷ []

capped-accepted_example :
    let payload = to_payload python inference_event in
    (bounded_dict python payload.tags ≡ some payload.tags)
    × (bounded_dict python payload.client_metadata ≡ some payload.client_metadata)
    × (optional (max_length max_error_chars) payload.error_message ≡ some payload.error_message)
capped-accepted_example = capped-accepted python inference_event

redact-eq-sdk_example :
    Sdk.redact subn (make_redactor true [] none) (some (codes "mail"))
    ≡ some (redact subn (some (codes "mail")))
redact-eq-sdk_example = redact-eq-sdk subn (some (codes "mail"))

-- The comparison, as Python documents it.
abbrev compare_ascii : Text → Text → Option Bool
compare_ascii a b = if is_ascii a && is_ascii b then some (text_eq a b) else none

compare_ascii-eq :
    (a b : Text) → is_ascii a ≡ true → is_ascii b ≡ true → compare_ascii a b ≡ some (text_eq a b)
compare_ascii-eq a b h k = rw (h, k) refl

abbrev key_tail : Text
key_tail = 45 ∷ 49 ∷ []

require_api_key-auth_header_example :
    let (x, authorization) = sent_headers (auth_header (some (107 ∷ key_tail)) (codes "bearer")) in
    (require_api_key compare_ascii (codes "k-1") x authorization ≡ Access.granted)
    ↔ (107 ∷ key_tail ≡ codes "k-1")
unfolding strip_left strip
require_api_key-auth_header_example =
    require_api_key-auth_header compare_ascii compare_ascii-eq 107 key_tail (codes "bearer")
      (codes "k-1") refl refl refl refl (inr refl)

-- A round that reads the two messages, and one in which the worker is stopped.
abbrev sample_rounds : List Round
sample_rounds =
    record { stopping = false; fresh = some sample_messages; stale = none }
    ∷ record { stopping = true; fresh = none; stale = none }
    ∷ []

run-AllDone_example :
    AllDone python dumps typed subn hundredth_floats false
      (handed_out (some [] ∷ replies sample_rounds))
      (run python dumps typed subn hundredth_floats false (some []) sample_rounds empty_state)
unfolding Serves Answers replies taken_by
run-AllDone_example =
    run-AllDone python dumps typed subn hundredth_floats false (some []) sample_rounds empty_state
      (([], refl, tt), ((sample_messages, refl, ((refl, refl), ((refl, refl), tt))), tt))

-- A run with one round after the start, in which each message carries the text "one".
run-IsSettled_example :
    IsSettled python dumps typed subn hundredth_floats false content
      (run python dumps typed subn hundredth_floats false (some []) sample_rounds empty_state).0
unfolding replies taken_by
run-IsSettled_example =
    run-IsSettled python dumps typed subn hundredth_floats false content (some []) sample_rounds
      empty_state (refl, (refl, tt)) tt

abbrev payload : Fields
payload = Fields.field (codes "request_id") (Json.str (codes "r-1")) Fields.end

-- Every text is read as the payload with its time of arrival.
abbrev reading : Python
reading = record python { loads = λ text. some (stamped (codes "now") payload) }

abbrev batch : List (Call × Fields)
batch = (Call.answered, payload) ∷ (Call.unanswered, payload) ∷ []

ingest-IsIngested_example :
    IsIngested dumps
      (codes "now")
      reading
      batch
      (codes "old" ∷ [])
      (ingest dumps (codes "now") batch (codes "old" ∷ []))
unfolding IsReadable
ingest-IsIngested_example =
    ingest-IsIngested dumps (codes "now") reading batch (codes "old" ∷ []) (refl, (refl, tt))

abbrev arriving : List (Call × Fields)
arriving = (Call.answered, payload) ∷ []

-- The stream holds "old" and then the entry of the event, and a round hands out the latter.
abbrev arrived_rounds : List Round
arrived_rounds =
    record {
      stopping = false;
      fresh = some ((sample_run Call.failed, (2, codes "data")) ∷ []);
      stale = none;
    }
    ∷ []

abbrev data_content : ℕ → Text
data_content msg_id = codes "data"

ingest-Arrived_example :
    All
      (Arrived reading dumps typed subn hundredth_floats false data_content
        (codes "now")
        (run reading dumps typed subn hundredth_floats false
          (some [])
          arrived_rounds
          empty_state).0)
      (events_of dumps (codes "now") arriving)
unfolding IsReadable ingest publish_all publish is_batch Serves Answers replies taken_by
    is_handed_out text_eq
ingest-Arrived_example =
    ingest-Arrived reading dumps typed subn hundredth_floats false data_content (codes "now")
      arriving (codes "old" ∷ []) 1 (some []) arrived_rounds empty_state (refl, tt) refl (refl, tt)
      (refl, tt)
      (
        ([], refl, tt),
        ((((sample_run Call.failed, (2, codes "data")) ∷ []), refl, ((refl, refl), tt)), tt),
      )
      tt
