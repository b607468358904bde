-- ===== src/Ingestion/Events.antt =====
-- ingestion/app/events.py: what the service accepts of an event.
--
-- Pydantic is a parameter: it reads a decoded message into the field types of `IngestEvent`, with
-- the defaults filled in. The limits that the source puts on the fields are checked here.
use inferlog.Prelude.{
  ℕ, ◌≤◌, ◌≡◌, refl, Bool, Option, none, some, leb, le→leb, if◌then◌else◌, length, arith, ◌⊎◌,
}
use inferlog.Prelude.Int.{ℤ, pos, negsuc}
use inferlog.Prelude.Json.{Json, Fields}
use inferlog.Prelude.Python.{Python}
use inferlog.Prelude.Text.{Text}
use inferlog.Sdk.Events.{Status, InferenceEvent, to_payload}
use inferlog.Sdk.Events.Caps.{cap_text, cap_str, length-cap_text-le}
use inferlog.Sdk.Events.Caps as SdkCaps
use inferlog.Sdk.Events.Dicts.{cap_dict, cap_dict-IsCappedDict}
use inferlog.Sdk.Parsers.Values.{◌>>=◌}

abbrev pub max_preview_chars : ℕ
max_preview_chars = 4000

abbrev pub max_error_chars : ℕ
max_error_chars = 2000

abbrev pub max_error_type_chars : ℕ
max_error_type_chars = 64

abbrev pub max_name_chars : ℕ
max_name_chars = 128

abbrev pub max_dict_bytes : ℕ
max_dict_bytes = 8192

-- The fields, with numbers of the type `N`: integers before the checks, natural numbers after them.
pub record EventOf (N : Type 0) : Type 0 where
  pub request_id : ℕ
  pub service : Text
  pub provider : Text
  pub model : Text
  pub status : Status
  pub streamed : Bool
  pub started_at : ℕ
  pub completed_at : ℕ
  pub latency_ms : N
  pub conversation_id : Option ℕ
  pub ttft_ms : Option N
  pub prompt_tokens : Option N
  pub completion_tokens : Option N
  pub total_tokens : Option N
  pub input_preview : Option Text
  pub output_preview : Option Text
  pub error_type : Option Text
  pub error_message : Option Text
  pub pii_redaction_count : N
  pub tags : Fields
  pub client_metadata : Fields
  pub sdk_version : Option Text
  pub schema_version : ℤ
  pub received_at : Option ℕ

abbrev pub RawEvent : Type 0
RawEvent = EventOf ℤ

abbrev pub IngestEvent : Type 0
IngestEvent = EventOf ℕ

-- `_bounded_dict`; `none` is the `ValueError`.
unfoldable pub bounded_dict : Python → Fields → Option Fields
bounded_dict py Fields.end = some Fields.end
bounded_dict py (Fields.field k v d) =
    if leb (py.dumps_size (Fields.field k v d)) max_dict_bytes
    then some (Fields.field k v d)
    else none

-- `Field(max_length=limit)`
unfoldable pub max_length : ℕ → Text → Option Text
max_length limit t = if leb (length t) limit then some t else none

-- `Field(ge=0)`
unfoldable pub natural : ℤ → Option ℕ
natural (pos n) = some n
natural (negsuc n) = none

-- A check of a field that may be None.
unfoldable pub optional : {A B : Type 0} → (A → Option B) → Option A → Option (Option B)
optional check none = some none
optional check (some a) = check a >>= λ b. some (some b)

unfoldable pub check_event : Python → RawEvent → Option IngestEvent
unfolding bounded_dict max_length natural optional
check_event py e = do
  service ← max_length max_name_chars e.service
  provider ← max_length max_name_chars e.provider
  model ← max_length max_name_chars e.model
  latency_ms ← natural e.latency_ms
  ttft_ms ← optional natural e.ttft_ms
  prompt_tokens ← optional natural e.prompt_tokens
  completion_tokens ← optional natural e.completion_tokens
  total_tokens ← optional natural e.total_tokens
  input_preview ← optional (max_length max_preview_chars) e.input_preview
  output_preview ← optional (max_length max_preview_chars) e.output_preview
  error_type ← optional (max_length max_error_type_chars) e.error_type
  error_message ← optional (max_length max_error_chars) e.error_message
  pii_redaction_count ← natural e.pii_redaction_count
  tags ← bounded_dict py e.tags
  client_metadata ← bounded_dict py e.client_metadata
  sdk_version ← optional (max_length max_name_chars) e.sdk_version
  some (record {
    request_id = e.request_id;
    service = service;
    provider = provider;
    model = model;
    status = e.status;
    streamed = e.streamed;
    started_at = e.started_at;
    completed_at = e.completed_at;
    latency_ms = latency_ms;
    conversation_id = e.conversation_id;
    ttft_ms = ttft_ms;
    prompt_tokens = prompt_tokens;
    completion_tokens = completion_tokens;
    total_tokens = total_tokens;
    input_preview = input_preview;
    output_preview = output_preview;
    error_type = error_type;
    error_message = error_message;
    pii_redaction_count = pii_redaction_count;
    tags = tags;
    client_metadata = client_metadata;
    sdk_version = sdk_version;
    schema_version = e.schema_version;
    received_at = e.received_at;
  })

-- `IngestEvent.model_validate`; `none` is the `ValidationError`.
unfoldable pub validate : Python → (Json → Option RawEvent) → Json → Option IngestEvent
unfolding check_event
validate py typed raw = typed raw >>= check_event py

max_length-accepts : (limit : ℕ) (t : Text) → length t ≤ limit → max_length limit t ≡ some t
unfolding max_length
max_length-accepts limit t h = rw (le→leb (length t) limit h)

bounded_dict-accepts :
    (py : Python) (d : Fields)
    → (d ≡ Fields.end) ⊎ (py.dumps_size d ≤ SdkCaps.max_dict_bytes)
    → bounded_dict py d ≡ some d
unfolding bounded_dict
bounded_dict-accepts py Fields.end h = refl
bounded_dict-accepts py (Fields.field k v d) h = ground arith

cap_str-accepted :
    (message : Option Text)
    → optional (max_length max_error_chars) (cap_str message SdkCaps.max_error_chars)
      ≡ some (cap_str message SdkCaps.max_error_chars)
unfolding optional cap_str
cap_str-accepted none = refl
cap_str-accepted (some t) =
    let capped = cap_text t SdkCaps.max_error_chars in
    let fits = length-cap_text-le t SdkCaps.max_error_chars (omega arith) in
    rw (max_length-accepts max_error_chars capped fits)

-- Whatever the host puts into an event, the tags, the metadata and the error message that the SDK
-- sends pass the checks of the service, and pass them unchanged.
pub capped-accepted :
    (py : Python) (event : InferenceEvent)
    → let payload = to_payload py event in
      (bounded_dict py payload.tags ≡ some payload.tags)
      × (bounded_dict py payload.client_metadata ≡ some payload.client_metadata)
      × (optional (max_length max_error_chars) payload.error_message ≡ some payload.error_message)
unfolding to_payload
capped-accepted py event = (
  bounded_dict-accepts py (cap_dict py event.tags) (cap_dict-IsCappedDict py event.tags).bytes,
  bounded_dict-accepts py (cap_dict py event.client_metadata)
      (cap_dict-IsCappedDict py event.client_metadata).bytes,
  cap_str-accepted event.error_message,
)
