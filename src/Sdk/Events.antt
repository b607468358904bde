-- ===== src/Sdk/Events.antt =====
-- sdk/inferlog/events.py: the inference event, its payload and the caps on its free-form fields.
pub mod Caps
pub mod Dicts
use inferlog.Prelude.{ℕ, Bool, Option, none, some}
use inferlog.Prelude.Json.{Json, Fields}
use inferlog.Prelude.Python.{Python}
use inferlog.Prelude.Text.{Text, codes}
use Caps.{max_error_chars, cap_str}
use Dicts.{cap_dict}

pub data Status : Type 0 where
  success error cancelled : Status

abbrev pub sdk_version : Text
sdk_version = codes "0.4.0"

abbrev pub schema_version : ℕ
schema_version = 1

-- Times are microseconds. A token count is whatever the provider reported; None is `null`.
pub record InferenceEvent : Type 0 where
  pub request_id : Text
  pub service : Text
  pub provider : Text
  pub model : Text
  pub status : Status
  pub streamed : Bool
  pub started_at : ℕ
  pub completed_at : ℕ
  pub latency_ms : ℕ
  pub conversation_id : Option Text
  pub ttft_ms : Option ℕ
  pub prompt_tokens : Json
  pub completion_tokens : Json
  pub total_tokens : Json
  pub input_preview : Option Text
  pub output_preview : Option Text
  pub error_type : Option Text
  pub error_message : Option Text
  pub pii_redaction_count : ℕ
  pub tags : Fields
  pub client_metadata : Fields
  pub sdk_version : Text
  pub schema_version : ℕ

-- The JSON-ready dictionary, as a record: times as texts, and the free-form fields capped.
pub record Payload : Type 0 where
  pub event : InferenceEvent
  pub started_at : Text
  pub completed_at : Text
  pub error_message : Option Text
  pub tags : Fields
  pub client_metadata : Fields

unfoldable pub to_payload : Python → InferenceEvent → Payload
unfolding cap_str cap_dict
to_payload py event = record {
  event = event;
  started_at = py.isoformat event.started_at;
  completed_at = py.isoformat event.completed_at;
  error_message = cap_str event.error_message max_error_chars;
  tags = cap_dict py event.tags;
  client_metadata = cap_dict py event.client_metadata;
}
