-- ===== src/Ingestion/Processing.antt =====
-- ingestion/app/processing.py: the row of `inference_logs` that an accepted event becomes.
use inferlog.Prelude.{ℕ, ◌+◌, ◌≡◌, Bool, true, false, Option, none, some}
use inferlog.Prelude.Int.{ℤ}
use inferlog.Prelude.Json.{Fields, merge, lookup, lookup-merge, or_else, IsDistinct}
use inferlog.Prelude.Text.{Text}
use inferlog.Sdk.Events.{Status}
use inferlog.Sdk.Redaction.{Subn}
use inferlog.Ingestion.Events.{IngestEvent}
use inferlog.Ingestion.Redaction.{redact}
use inferlog.Ingestion.Enrich.{Floats, total_tokens, tokens_per_second, estimate_cost}

-- The columns, `_INSERT_COLUMNS` of ingestion/app/db.py.
pub record LogRow (F : Type 0) : Type 0 where
  pub request_id : ℕ
  pub conversation_id : Option ℕ
  pub service : Text
  pub provider : Text
  pub model : Text
  pub status : Status
  pub streamed : Bool
  pub started_at : ℕ
  pub completed_at : ℕ
  pub latency_ms : ℕ
  pub ttft_ms : Option ℕ
  pub prompt_tokens : Option ℕ
  pub completion_tokens : Option ℕ
  pub total_tokens : Option ℕ
  pub tokens_per_second : Option F
  pub estimated_cost_usd : Option F
  pub error_type : Option Text
  pub error_message : Option Text
  pub input_preview : Option Text
  pub output_preview : Option Text
  pub pii_redaction_count : ℕ
  pub sdk_version : Option Text
  pub schema_version : ℤ
  pub client_metadata : Fields
  pub received_at : ℕ

-- The three texts of an event and the count of the replacements in them.
pub record Texts : Type 0 where
  pub input_preview : Option Text
  pub output_preview : Option Text
  pub error_message : Option Text
  pub extra_redactions : ℕ

-- `value or default` for a time
unfoldable pub or_now : Option ℕ → ℕ → ℕ
or_now none now = now
or_now (some time) now = time

module _ (subn : Subn) (fl : Floats) where
  unfoldable pub texts_of : Bool → IngestEvent → Texts
  texts_of false event = record {
    input_preview = event.input_preview;
    output_preview = event.output_preview;
    error_message = event.error_message;
    extra_redactions = 0;
  }
  texts_of true event =
      let (input_preview, n1) = redact subn event.input_preview in
      let (output_preview, n2) = redact subn event.output_preview in
      let (error_message, n3) = redact subn event.error_message in
      record {
        input_preview = input_preview;
        output_preview = output_preview;
        error_message = error_message;
        extra_redactions = n1 + n2 + n3;
      }

  -- `now` is the clock, for an event without a time of receipt.
  unfoldable pub process_event : Bool → ℕ → IngestEvent → LogRow fl.Float
  unfolding or_now
  process_event defense now event =
      let texts = texts_of defense event in
      record {
        request_id = event.request_id;
        conversation_id = event.conversation_id;
        service = event.service;
        provider = event.provider;
        model = event.model;
        status = event.status;
        streamed = event.streamed;
        started_at = event.started_at;
        completed_at = event.completed_at;
        latency_ms = event.latency_ms;
        ttft_ms = event.ttft_ms;
        prompt_tokens = event.prompt_tokens;
        completion_tokens = event.completion_tokens;
        total_tokens = total_tokens event.prompt_tokens event.completion_tokens event.total_tokens;
        tokens_per_second = tokens_per_second fl event.completion_tokens event.latency_ms;
        estimated_cost_usd =
            estimate_cost fl event.model event.prompt_tokens event.completion_tokens;
        error_type = event.error_type;
        error_message = texts.error_message;
        input_preview = texts.input_preview;
        output_preview = texts.output_preview;
        pii_redaction_count = event.pii_redaction_count + texts.extra_redactions;
        sdk_version = event.sdk_version;
        schema_version = event.schema_version;
        client_metadata = merge event.client_metadata event.tags;
        received_at = or_now event.received_at now;
      }

  -- A key of the stored metadata has the value of the event's tag, and without such a tag that of
  -- the event's metadata.
  pub lookup-process_event :
      (defense : Bool) (now : ℕ) (event : IngestEvent) (key : Text)
      → IsDistinct event.tags
      → lookup key (process_event defense now event).client_metadata
        ≡ or_else (lookup key event.tags) (lookup key event.client_metadata)
  unfolding process_event
  lookup-process_event defense now event key h = lookup-merge key event.client_metadata event.tags h
