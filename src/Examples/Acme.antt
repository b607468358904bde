-- ===== src/Examples/Acme.antt =====
-- examples/custom_http_provider.py: a host's own handler in the registry of the SDK.
--
-- A prompt that is neither a text nor null is left out: it counts as none here.
use inferlog.Prelude.{◌≡◌, ◌<◌, refl, Bool, true, false, ◌&&◌, Option, none, some, List, arith}
use inferlog.Prelude.Int.{pos}
use inferlog.Prelude.Json.{Json, str, truthy}
use inferlog.Prelude.Python.{Python}
use inferlog.Prelude.Text.{Text, codes, text_eq, ends_with}
use inferlog.Sdk.Parsers.Registry.{
  Handler, add_handler, identify, default_handlers, identify-add_handler,
}
use inferlog.Sdk.Parsers.Requests.{Request, RequestMeta, is_post}
use inferlog.Sdk.Parsers.Responses.{ResponseMeta, sum_if_known}
use inferlog.Sdk.Parsers.Values.{◌>>=◌, get_attr, get_attr_or, or_empty, safe_json, to_str}
use inferlog.Sdk.Redaction.{Subn}
use inferlog.Sdk.Runtime.{Exc, Moment, Runtime}
use inferlog.Sdk.Auto.Capture.{Outcome, Response, World, capture_async, recognise, proceed, observe}

-- `AcmeInternalHandler.matches`
unfoldable pub acme_matches : Request → Bool
acme_matches r =
    is_post r && (text_eq r.host (codes "llm.acme.corp") && ends_with (codes "/v2/generate") r.path)

abbrev text_of : Json → Option Text
text_of (str t) = some t
text_of _ = none

-- What `make_stream_parser` raises.
abbrev pub not_implemented : Exc
not_implemented = record {
  type_name = codes "NotImplementedError";
  message = codes "Acme model is non-streaming in this example";
}

module _ (py : Python) where
  unfoldable pub parse_acme_request : Request → Option RequestMeta
  unfolding get_attr get_attr_or safe_json to_str
  parse_acme_request r = do
    let body = or_empty (safe_json py r.content)
    model ← get_attr_or (codes "model") body (str (codes "unknown"))
    stream ← get_attr (codes "stream") body
    prompt ← get_attr (codes "prompt") body
    some
        (record { model = to_str py model; streaming = truthy stream; input_text = text_of prompt })

  unfoldable pub parse_acme_response : Text → Option ResponseMeta
  unfolding get_attr safe_json sum_if_known
  parse_acme_response content = do
    let body = or_empty (safe_json py content)
    prompt ← get_attr (codes "input_tokens") body
    completion ← get_attr (codes "output_tokens") body
    text ← get_attr (codes "completion") body
    total ← sum_if_known py prompt completion
    some (record {
      output_text = text;
      prompt_tokens = prompt;
      completion_tokens = completion;
      total_tokens = total;
    })

  -- There is no parser, so nothing is ever fed to one.
  unfoldable pub acme_handler : Handler
  unfolding acme_matches parse_acme_request parse_acme_response
  acme_handler = record {
    name = codes "acme-internal";
    matches = λ r. some (acme_matches r);
    parse_request = parse_acme_request;
    parse_response = parse_acme_response;
    make_stream_parser = some not_implemented;
    feed = λ body p. record { parser = p; ok = false };
  }

  -- `add_handler(AcmeInternalHandler())`
  abbrev pub acme_handlers : List Handler
  acme_handlers = add_handler acme_handler (pos 0) (default_handlers py)

  -- A request for the host's model is given to its handler, and every other request is identified as
  -- by the built-in handlers alone.
  pub identify-acme_handlers :
      (r : Request)
      → (acme_matches r ≡ true → identify acme_handlers r ≡ some acme_handler)
        × (acme_matches r ≡ false → identify acme_handlers r ≡ identify (default_handlers py) r)
  unfolding acme_handler
  identify-acme_handlers r =
      let (others, own) = identify-add_handler acme_handler (default_handlers py) r in
      (λ e. own (rw e refl), λ e. others (pos 0) (λ f. ground (arith, e, f)))

  module _ (subn : Subn) where
    -- A streaming request for the host's model, answered without an error, ends for the host with the
    -- exception of the handler and not with the response.
    pub capture_async-not_implemented :
        (w : World) (m : Moment) (original : Request → Outcome) (request : Request) (rt : Runtime)
        (meta : RequestMeta) (resp : Response)
        → recognise py subn w.inside_explicit w request ≡ some (rt, acme_handler, meta)
        → meta.streaming ≡ true
        → original request ≡ Outcome.returned resp
        → resp.status_code < 400
        → (capture_async py subn w m original request).outcome ≡ Outcome.raised not_implemented
    unfolding capture_async inferlog.Sdk.Auto.Capture.capture proceed observe acme_handler
    capture_async-not_implemented w m original request rt meta resp e s o l =
        rw (e, o, s) (ground arith)
