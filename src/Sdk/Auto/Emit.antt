-- ===== src/Sdk/Auto/Emit.antt =====
-- `_emit_safe`: an event is built, redacted, sampled and submitted, and no exception gets out.
use inferlog.Prelude.{
  ℕ, ◌+◌, ◌≡◌, ◌≢◌, refl, true, false, Option, none, some, [], if◌then◌else◌, Option-cases, inl,
  inr,
}
use inferlog.Prelude.Json.{Json, bool, str, Fields, truthy, get, is_none}
use inferlog.Prelude.Python.{Python}
use inferlog.Prelude.Text.{Text, codes}
use inferlog.Sdk.Events.{InferenceEvent, Status, sdk_version, schema_version}
use inferlog.Sdk.Parsers.Requests.{RequestMeta}
use inferlog.Sdk.Parsers.Responses.{ResponseMeta}
use inferlog.Sdk.Parsers.Values.{◌>>=◌, to_str}
use inferlog.Sdk.Redaction.{Subn, redact, redact_total}
use inferlog.Sdk.Runtime.{
  Runtime, Moment, preview, preview_chars, hand_over, taken, taken-hand_over,
}

-- `response_meta.output_text or ""`, where `.strip()` follows: only a string has it.
abbrev pub output_str : Json → Option Text
output_str (str t) = some t
output_str v = if truthy v then none else some []

-- `text or ""`
abbrev pub or_blank : Option Text → Text
or_blank none = []
or_blank (some t) = t

-- `tags.get("conversation_id")`, as a text if it is there.
unfoldable pub conversation_of : Python → Fields → Option Text
unfolding get to_str
conversation_of py tags =
    let v = get (codes "conversation_id") tags in if is_none v then none else some (to_str py v)

abbrev pub capture_metadata : Fields
capture_metadata =
    Fields.field (codes "auto_instrumented") (bool true)
      (Fields.field (codes "transport") (str (codes "httpx")) Fields.end)

module _ (py : Python) (subn : Subn) where
  -- The event, given the redacted texts with their counts.
  unfoldable pub make_event :
      Runtime
      → Fields
      → Moment
      → Text
      → RequestMeta
      → Status
      → Option ℕ
      → ResponseMeta
      → Option Text
      → Option Text × ℕ
      → Option Text × ℕ
      → Option Text × ℕ
      → InferenceEvent
  unfolding conversation_of
  make_event rt tags m provider meta status ttft_ms response error_type input output error =
      record {
        request_id = m.request_id;
        service = rt.service;
        provider = provider;
        model = meta.model;
        status = status;
        streamed = meta.streaming;
        started_at = m.started_at;
        completed_at = m.completed_at;
        latency_ms = m.latency_ms;
        conversation_id = conversation_of py tags;
        ttft_ms = ttft_ms;
        prompt_tokens = response.prompt_tokens;
        completion_tokens = response.completion_tokens;
        total_tokens = response.total_tokens;
        input_preview = input.0;
        output_preview = output.0;
        error_type = error_type;
        error_message = error.0;
        pii_redaction_count = input.1 + output.1 + error.1;
        tags = tags;
        client_metadata = capture_metadata;
        sdk_version = sdk_version;
        schema_version = schema_version;
      }

  -- The event of one call; `none` is an exception on the way.
  unfoldable pub build_event :
      Runtime
      → Fields
      → Moment
      → Text
      → RequestMeta
      → Status
      → Option ℕ
      → ResponseMeta
      → Option Text
      → Option Text
      → Option InferenceEvent
  unfolding make_event
  build_event rt tags m provider meta status ttft_ms response error_type error_message = do
    output_text ← output_str response.output_text
    input ← redact subn rt.redactor (preview (or_blank meta.input_text) preview_chars)
    output ← redact subn rt.redactor (preview output_text preview_chars)
    error ← redact subn rt.redactor error_message
    some (make_event rt tags m provider meta status ttft_ms response error_type input output error)

  -- What becomes of a built event.
  unfoldable pub emit_built : Moment → Option InferenceEvent → Runtime → Runtime
  unfolding hand_over
  emit_built m none rt = rt
  emit_built m (some event) rt = record rt {
    dispatcher = hand_over py rt.sampler m event rt.dispatcher;
  }

  unfoldable pub emit_safe :
      Fields
      → Moment
      → Text
      → RequestMeta
      → Status
      → Option ℕ
      → ResponseMeta
      → Option Text
      → Option Text
      → Runtime
      → Runtime
  unfolding build_event emit_built
  emit_safe tags m provider meta status ttft_ms response error_type error_message rt =
      emit_built m
        (build_event rt tags m provider meta status ttft_ms response error_type error_message) rt

  -- An event that is built reaches an open dispatcher exactly once.
  pub taken-emit_built :
      (m : Moment) (event : InferenceEvent) (rt : Runtime)
      → rt.dispatcher.closed ≡ false
      → taken (emit_built m (some event) rt).dispatcher ≡ taken rt.dispatcher + 1
  unfolding emit_built
  taken-emit_built m event rt h = taken-hand_over py rt.sampler m event rt.dispatcher h

  -- With no custom redactor, and an output that is a text or nothing, an event is built.
  pub build_event_total :
      (rt : Runtime) (tags : Fields) (m : Moment) (provider : Text) (meta : RequestMeta)
      (status : Status) (ttft_ms : Option ℕ) (response : ResponseMeta)
      (error_type error_message : Option Text)
      → rt.redactor.custom ≡ none
      → output_str response.output_text ≢ none
      → (event : InferenceEvent) × (build_event rt tags m provider meta status ttft_ms response
            error_type error_message
          ≡ some event)
        × (event.status ≡ status)
        × (event.error_type ≡ error_type)
  unfolding build_event
  build_event_total rt tags m provider meta status ttft_ms response error_type error_message c o =
      elim (Option-cases (output_str response.output_text)) [
        | inl e ↦ absurd (o e)
        | inr (output, e) ↦
            let (a, ea) =
              redact_total subn rt.redactor (preview (or_blank meta.input_text) preview_chars) c in
            let (b, eb) = redact_total subn rt.redactor (preview output preview_chars) c in
            let (d, ed) = redact_total subn rt.redactor error_message c in
            (
              make_event rt tags m provider meta status ttft_ms response error_type a b d,
              rw (e, ea, eb, ed),
              refl,
              refl,
            )
      ]
