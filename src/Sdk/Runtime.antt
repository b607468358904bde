-- ===== src/Sdk/Runtime.antt =====
-- sdk/inferlog/runtime.py, and what the two logging paths share: handing an event over.
use inferlog.Prelude.{
  ℕ, ◌+◌, ◌≡◌, Bool, false, Option, none, some, [], ◌∷◌, if◌then◌else◌, arith, take, length,
  length-append,
}
use inferlog.Prelude.Python.{Python}
use inferlog.Prelude.Text.{Text, strip}
use inferlog.Sdk.Dispatcher.Queue.{Dispatcher, submit, drop_events, sampled}
use inferlog.Sdk.Dispatcher.Sink.{AuthHeader, auth_header}
use inferlog.Sdk.Events.{InferenceEvent, Payload, to_payload}
use inferlog.Sdk.Redaction.{Redactor}
use inferlog.Sdk.Sampling.{Sampler, should_sample}

pub record Runtime : Type 0 where
  pub service : Text
  pub dispatcher : Dispatcher Payload
  pub redactor : Redactor
  pub sampler : Sampler
  pub enabled : Bool

-- An exception: the name of its class, and its text.
pub record Exc : Type 0 where
  pub type_name : Text
  pub message : Text

-- What one call draws from the clock, the random number generator and `uuid4`, and whether an event
-- loop is running.
pub record Moment : Type 0 where
  pub request_id : Text
  pub started_at : ℕ
  pub completed_at : ℕ
  pub latency_ms : ℕ
  pub draw : ℕ
  pub loop : Bool

abbrev pub preview_chars : ℕ
preview_chars = 280

-- `text.strip()[:limit] or None`
unfoldable pub preview : Text → ℕ → Option Text
unfolding strip
preview text limit = elim (take limit (strip text)) [ [] ↦ none | c ∷ t ↦ some (c ∷ t) ]

-- Where the events of `build_default_runtime` go.
pub data SinkChoice : Type 0 where
  given : SinkChoice
  http : Text → AuthHeader → SinkChoice
  discard : SinkChoice

unfoldable pub choose_sink : Bool → Option Text → Option Text → Text → Bool → SinkChoice
unfolding auth_header
choose_sink sink_given endpoint api_key auth_scheme enabled =
    if sink_given then given else elim endpoint [
      | none ↦ discard
      | some [] ↦ discard
      | some (c ∷ url) ↦
          if enabled then http (c ∷ url) (auth_header api_key auth_scheme) else discard
    ]

-- The last lines of `_emit_safe` and of `LoggedLLMClient._emit`: the sampler, then the dispatcher.
unfoldable pub hand_over :
    Python → Sampler → Moment → InferenceEvent → Dispatcher Payload → Dispatcher Payload
unfolding should_sample submit drop_events to_payload
hand_over py sampler m event d =
    if should_sample sampler m.draw event
    then submit m.loop (to_payload py event) d
    else drop_events 1 sampled d

-- The events that a dispatcher holds or has dropped.
abbrev pub taken {ℓ} : {P : Type ℓ} → Dispatcher P → ℕ
taken d = length d.queue + d.dropped

-- An open dispatcher takes an event exactly once: it is queued, or counted as dropped.
pub taken-hand_over :
    (py : Python) (sampler : Sampler) (m : Moment) (event : InferenceEvent) (d : Dispatcher Payload)
    → d.closed ≡ false
    → taken (hand_over py sampler m event d) ≡ taken d + 1
unfolding hand_over
taken-hand_over py sampler m event d h =
    ground (arith, length-append d.queue (to_payload py event ∷ []))
