-- ===== src/Sdk/Auto/Capture.antt =====
-- `_capture_async`, `_capture_sync` and `InferLogAsyncTransport.handle_async_request`.
pub mod Host
pub mod Logged
use inferlog.Prelude.{
  ℕ, ◌+◌, ◌≤◌, ◌≡◌, ◌≢◌, ◌⊎◌, refl, ap, ◌∙◌, Bool, true, false, not, ◌&&◌, ◌||◌, Option, none, some,
  List, [], ◌∷◌, ◌++◌, if◌then◌else◌, arith, take, leb, le→leb, ◌<◌, Bool-cases, Option-cases, inl,
  inr,
}
use mathlib.Core.Option.{some-injective}
use inferlog.Prelude.Int.{pos}
use inferlog.Prelude.Json.{int, Fields, truthy}
use inferlog.Prelude.Python.{Python}
use inferlog.Prelude.Text.{Text, codes}
use inferlog.Sdk.Events.{Status, success, error}
use inferlog.Sdk.Parsers.Registry.{Handler, identify}
use inferlog.Sdk.Parsers.Requests.{Request, RequestMeta}
use inferlog.Sdk.Parsers.Responses.{ResponseMeta, empty_meta}
use inferlog.Sdk.Parsers.Values.{◌>>=◌}
use inferlog.Sdk.Redaction.{Subn}
use inferlog.Sdk.Runtime.{Runtime, Moment, Exc, taken}
use inferlog.Sdk.Auto.Classify.{label, classify_error, classify_status}
use inferlog.Sdk.Auto.Emit.{emit_safe, taken-emit_built, build_event_total, output_str}

-- A response: its status, its body as bytes (`none` if reading it raises), and as text.
pub record Response : Type 0 where
  pub status_code : ℕ
  pub content : Option Text
  pub text : Text

-- How the original `send` ends. `cancelled` is a `CancelledError`, which is no `Exception`.
pub data Outcome : Type 0 where
  returned : Response → Outcome
  raised : Exc → Outcome
  cancelled : Outcome

-- What a captured call leaves: the outcome for the host, the runtime, and, for a response that
-- streams, what the wrapper around its iterator observes with.
pub record Captured : Type 0 where
  pub outcome : Outcome
  pub runtime : Option Runtime
  pub stream : Option (Handler × RequestMeta)

-- The process-wide state that the capture reads: the runtime, the handlers, whether the call is made
-- inside the explicit wrapper, the tags, and whether httpx is patched.
pub record World : Type 0 where
  pub runtime : Option Runtime
  pub handlers : List Handler
  pub inside_explicit : Bool
  pub tags : Fields
  pub installed : Bool

-- `handler.parse_response`, or nothing known where reading or parsing raises.
unfoldable pub parsed_response : Handler → Response → ResponseMeta
parsed_response h resp = elim resp.content [
  | none ↦ empty_meta
  | some body ↦ elim (h.parse_response body) [ none ↦ empty_meta | some meta ↦ meta ]
]

module _ (py : Python) (subn : Subn) where
  -- `(response.text or "")[:500] or f"HTTP {response.status_code}"`, where reading may raise.
  unfoldable pub error_text : Response → Text
  error_text resp =
      let fallback = codes "HTTP " ++ py.str_of (int (pos resp.status_code)) in
      elim resp.content [
        | none ↦ fallback
        | some body ↦ elim (take 500 resp.text) [ [] ↦ fallback | c ∷ t ↦ c ∷ t ]
      ]

  -- The rest of a capture, once the request has been recognised and parsed. The flag tells whether
  -- a streaming response is wrapped, or, in the synchronous path, logged at once without its body.
  unfoldable pub observe :
      Bool → World → Moment → Handler → RequestMeta → Runtime → Outcome → Captured
  unfolding error_text
  observe wraps w m h meta rt (raised exc) = record {
    outcome = raised exc;
    runtime = some (
        emit_safe py subn w.tags m h.name meta error none empty_meta
          (some (label (classify_error exc))) (some (take 500 exc.message)) rt);
    stream = none;
  }
  observe wraps w m h meta rt cancelled = record {
    outcome = cancelled;
    runtime = some rt;
    stream = none;
  }
  observe wraps w m h meta rt (returned resp) =
      if leb 400 resp.status_code
      then record {
        outcome = returned resp;
        runtime = some (
            emit_safe py subn w.tags m h.name meta error none empty_meta
              (some (label (classify_status resp.status_code))) (some (error_text resp)) rt);
        stream = none;
      }
      else if not meta.streaming
      then record {
        outcome = returned resp;
        runtime = some (
            emit_safe py subn w.tags m h.name meta success none (parsed_response h resp) none none
              rt);
        stream = none;
      }
      else if wraps
      then elim h.make_stream_parser [
        | none ↦ record { outcome = returned resp; runtime = some rt; stream = some (h, meta) }
        | some exc ↦ record { outcome = raised exc; runtime = some rt; stream = none }
      ]
      else record {
        outcome = returned resp;
        runtime =
            some (emit_safe py subn w.tags m h.name meta success none empty_meta none none rt);
        stream = none;
      }

  -- The call goes straight to the original.
  abbrev pub pass_through : World → Outcome → Captured
  pass_through w o = record { outcome = o; runtime = w.runtime; stream = none }

  -- The escape hatches, `aside` being the ones of the path: the call is captured only with a runtime
  -- that is enabled, and a handler that matches and that can parse the request.
  unfoldable pub recognise : Bool → World → Request → Option (Runtime × Handler × RequestMeta)
  recognise aside w request = do
    rt ← w.runtime
    h ← if not rt.enabled || aside then none else identify w.handlers request
    meta ← h.parse_request request
    some (rt, h, meta)

  unfoldable pub proceed :
      Bool → World → Moment → Outcome → Option (Runtime × Handler × RequestMeta) → Captured
  proceed wraps w m o none = pass_through w o
  proceed wraps w m o (some (rt, h, meta)) = observe wraps w m h meta rt o

  unfoldable pub capture : Bool → Bool → World → Moment → (Request → Outcome) → Request → Captured
  unfolding recognise proceed
  capture wraps aside w m original request =
      proceed wraps w m (original request) (recognise aside w request)

  unfoldable pub capture_async : World → Moment → (Request → Outcome) → Request → Captured
  unfolding capture
  capture_async w = capture true w.inside_explicit w

  unfoldable pub capture_sync : World → Moment → (Request → Outcome) → Request → Captured
  unfolding capture
  capture_sync w = capture false w.inside_explicit w

  unfoldable pub handle_async_request : World → Moment → (Request → Outcome) → Request → Captured
  unfolding capture
  handle_async_request w = capture true (w.installed || w.inside_explicit) w
