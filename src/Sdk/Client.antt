-- ===== src/Sdk/Client.antt =====
-- sdk/inferlog/client.py: the explicit client, over the vocabulary of sdk/inferlog/providers/base.py.
pub mod Completions
pub mod Streams
pub mod Mock
mod Tests
use inferlog.Prelude.{
  ℕ, ◌+◌, ◌≡◌, refl, Bool, true, false, not, ◌||◌, Option, none, some, List, [], ◌∷◌, ◌++◌,
  if◌then◌else◌, arith, take, find?, reverse, is_some, is_empty, Option-cases, inl, inr,
}
use mathlib.Core.Option
use inferlog.Prelude.Json.{Json, null, Fields, lookup}
use inferlog.Prelude.Python.{Python}
use inferlog.Prelude.Text.{Text, codes, text_eq, strip, contains, lower}
use inferlog.Sdk.Dispatcher.Queue.{Dispatcher}
use inferlog.Sdk.Events.{
  InferenceEvent, Payload, Status, success, error, cancelled, sdk_version, schema_version,
}
use inferlog.Sdk.Parsers.Values.{◌>>=◌, to_str}
use inferlog.Sdk.Redaction.{Redactor, Subn, redact, redact_total}
use inferlog.Sdk.Runtime.{Exc, Moment, hand_over, taken, taken-hand_over}
use inferlog.Sdk.Sampling.{Sampler, keep_all}
use inferlog.Sdk.Auto.Classify.{ErrorType, label}

pub record ChatMessage : Type 0 where
  pub role : Text
  pub content : Text

-- None is `null`.
pub record Usage : Type 0 where
  pub prompt_tokens : Json
  pub completion_tokens : Json
  pub total_tokens : Json

abbrev pub no_usage : Usage
no_usage = record { prompt_tokens = null; completion_tokens = null; total_tokens = null }

pub record StreamChunk : Type 0 where
  pub text : Text
  pub usage : Option Usage

pub record Completion : Type 0 where
  pub text : Text
  pub usage : Usage

-- How an awaited call ends.
pub data Ending {ℓ} (A : Type ℓ) : Type ℓ where
  returned : A → Ending A
  interrupted : Ending A
  raised : Exc → Ending A

-- What the consumer of a provider's stream meets next: a chunk, with the time since the start; the
-- end; a cancellation or the closing of the generator; an exception.
pub data Piece : Type 0 where
  chunk : StreamChunk → ℕ → Piece
  finish : Piece
  stop : Piece
  failure : Exc → Piece

-- The flag tells a provider's HTTP client that an explicit call is under way.
pub record Provider : Type 0 where
  pub complete : Bool → Text → List ChatMessage → Ending Completion
  pub stream : Bool → Text → List ChatMessage → List Piece

pub record Client : Type 0 where
  pub service : Text
  pub providers : List (Text × Provider)
  pub preview_chars : ℕ
  pub redactor : Redactor

-- What a call draws on besides the client: its arguments, the tags in scope, whether the call is made
-- inside an explicit one, and the sampler of the runtime, if there is one.
pub record Call : Type 0 where
  pub request_id : Option Text
  pub conversation_id : Option Text
  pub provider : Text
  pub model : Text
  pub messages : List ChatMessage
  pub metadata : Fields
  pub tags : Fields
  pub inside_explicit : Bool
  pub sampler : Option Sampler
  pub moment : Moment

-- The exceptions that the client itself lets out: of a custom redactor, and of an unknown provider.
pub record Errors : Type 0 where
  pub redactor_error : Exc
  pub unknown_provider : Text → Exc

-- `text or ""`
unfoldable pub text_or_blank : Option Text → Text
text_or_blank none = []
text_or_blank (some t) = t

unfoldable pub client_preview : Option Text → ℕ → Option Text
unfolding text_or_blank
client_preview text limit = elim (strip (text_or_blank text)) [
  | [] ↦ none
  | c ∷ t ↦ some (take limit (c ∷ t))
]

unfoldable pub last_user : List ChatMessage → Option Text
last_user messages =
    Option.map (λ m. m.content) (find? (λ m. text_eq m.role (codes "user")) (reverse messages))

unfoldable pub classify_exception : Exc → ErrorType
classify_exception exc =
    let name = lower exc.type_name in
    if contains (codes "ratelimit") name
    then ErrorType.rate_limit
    else if contains (codes "timeout") name
    then ErrorType.timeout
    else if contains (codes "authentication") name || contains (codes "permission") name
    then ErrorType.auth
    else if contains (codes "connection") name
    then ErrorType.connection
    else if contains (codes "badrequest") name
        || (contains (codes "invalidrequest") name || contains (codes "notfound") name)
    then ErrorType.invalid_request
    else ErrorType.provider_error

-- `_provider`; `none` is the `ValueError`.
unfoldable pub find_provider : Text → List (Text × Provider) → Option Provider
find_provider name [] = none
find_provider name ((key, provider) ∷ providers) =
    if text_eq key name then some provider else find_provider name providers

-- `request_id or str(uuid4())`
unfoldable pub or_new_id : Option Text → Text → Text
or_new_id none new_id = new_id
or_new_id (some []) new_id = new_id
or_new_id (some (c ∷ t)) new_id = c ∷ t

-- A conversation that is not given is taken from the tags.
unfoldable pub or_tagged : Python → Option Text → Fields → Option Text
or_tagged py none tags = Option.map (to_str py) (lookup (codes "conversation_id") tags)
or_tagged py (some id) tags = some id

-- What one call has found out by its end.
pub record Report : Type 0 where
  pub status : Status
  pub streamed : Bool
  pub ttft_ms : Option ℕ
  pub usage : Usage
  pub output_text : Option Text
  pub exc : Option Exc

module _ (py : Python) (subn : Subn) where
  unfoldable pub client_event :
      Client → Call → Report → Option Text × ℕ → Option Text × ℕ → Option Text × ℕ → InferenceEvent
  client_event c call report input output problem = record {
    request_id = or_new_id call.request_id call.moment.request_id;
    service = c.service;
    provider = call.provider;
    model = call.model;
    status = report.status;
    streamed = report.streamed;
    started_at = call.moment.started_at;
    completed_at = call.moment.completed_at;
    latency_ms = call.moment.latency_ms;
    conversation_id = or_tagged py call.conversation_id call.tags;
    ttft_ms = report.ttft_ms;
    prompt_tokens = report.usage.prompt_tokens;
    completion_tokens = report.usage.completion_tokens;
    total_tokens = report.usage.total_tokens;
    input_preview = input.0;
    output_preview = output.0;
    error_type = Option.map (λ e. label (classify_exception e)) report.exc;
    error_message = problem.0;
    pii_redaction_count = input.1 + output.1 + problem.1;
    tags = call.tags;
    client_metadata = call.metadata;
    sdk_version = sdk_version;
    schema_version = schema_version;
  }

  -- The event of a call; `none` is an exception of a custom redactor.
  unfoldable pub report_event : Client → Call → Report → Option InferenceEvent
  report_event c call report = do
    input ← redact subn c.redactor (client_preview (last_user call.messages) c.preview_chars)
    output ← redact subn c.redactor (client_preview report.output_text c.preview_chars)
    problem ← redact subn c.redactor (Option.map (λ e. take 500 e.message) report.exc)
    some (client_event c call report input output problem)

  -- The sampler of the runtime, or none.
  unfoldable pub sampler_of : Option Sampler → Sampler
  sampler_of none = keep_all
  sampler_of (some sampler) = sampler

  -- `_emit`: the dispatcher afterwards, and whether it returned.
  unfoldable pub emit_report :
      Call → Option InferenceEvent → Dispatcher Payload → Dispatcher Payload × Bool
  emit_report call none d = (d, false)
  emit_report call (some event) d =
      (hand_over py (sampler_of call.sampler) call.moment event d, true)

  -- With no custom redactor an event is built, with the status of the report.
  pub report_event_total :
      (c : Client) (call : Call) (report : Report)
      → c.redactor.custom ≡ none
      → (event : InferenceEvent) × (report_event c call report ≡ some event)
        × (event.status ≡ report.status)
  unfolding report_event client_event
  report_event_total c call report h =
      let (a, ea) =
        redact_total subn c.redactor (client_preview (last_user call.messages) c.preview_chars) h in
      let (b, eb) =
        redact_total subn c.redactor (client_preview report.output_text c.preview_chars) h in
      let (d, ed) =
        redact_total subn c.redactor (Option.map (λ e. take 500 e.message) report.exc) h in
      (client_event c call report a b d, rw (ea, eb, ed), refl)

  -- A report of an open dispatcher's client is taken once, and `_emit` returns.
  pub emit_report-taken :
      (c : Client) (call : Call) (report : Report) (d : Dispatcher Payload)
      → c.redactor.custom ≡ none
      → d.closed ≡ false
      → let (d', ok) = emit_report call (report_event c call report) d in
        (taken d' ≡ taken d + 1) × (ok ≡ true)
  unfolding emit_report
  emit_report-taken c call report d h o =
      let (event, e, _) = report_event_total c call report h in
      rw e (taken-hand_over py (sampler_of call.sampler) call.moment event d o, refl)
