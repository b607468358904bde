-- ===== src/Sdk/Auto/Tests.antt =====
-- The theorems on the capture, applied to a call of OpenAI.
use inferlog.Prelude.{◌+◌, ◌≡◌, inl, refl, true, false, some, List, [], ◌∷◌, arith}
use inferlog.Prelude.Text.{codes}
use inferlog.Samples.{python, subn, runtime, moment, chat_request, chat_meta, team}
use inferlog.Sdk.Parsers.Registry.{openai_handler, default_handlers, identify}
use inferlog.Sdk.Parsers.Requests.{Request}
use inferlog.Sdk.Redaction.{make_redactor}
use inferlog.Sdk.Runtime.{Runtime, taken}
use inferlog.Sdk.Auto.Capture.{
  Outcome, Response, World, capture_async, capture_sync, handle_async_request, observe,
}
use inferlog.Sdk.Auto.Capture.Host.{IsOriginalOr, capture_outcome}
use inferlog.Sdk.Auto.Capture.Logged.{observe-taken}
use inferlog.Sdk.Auto.Stream.{
  Signal, iterate_all, new_stream, logged_stream, final_status, final_exc, fed_all,
  iterate_all-once,
}

abbrev world : World
world = record {
  runtime = some runtime;
  handlers = default_handlers python;
  inside_explicit = false;
  tags = team;
  installed = true;
}

abbrev rate_limited : Response
rate_limited = record { status_code = 429; content = some (codes "slow"); text = codes "slow" }

abbrev original : Request → Outcome
original r = Outcome.returned rate_limited

capture_outcome_example :
    ((capture_sync python subn world moment original chat_request).outcome ≡ original chat_request)
    × IsOriginalOr
        (identify world.handlers chat_request)
        (original chat_request)
        (capture_async python subn world moment original chat_request).outcome
    × IsOriginalOr
        (identify world.handlers chat_request)
        (original chat_request)
        (handle_async_request python subn world moment original chat_request).outcome
capture_outcome_example = capture_outcome python subn world moment original chat_request

observe-taken_example :
    (rt' : Runtime) × ((observe python subn true world moment
        (openai_handler python)
        chat_meta
        runtime
        (original chat_request)).runtime
      ≡ some rt')
    × (taken rt'.dispatcher ≡ taken runtime.dispatcher + 1)
unfolding make_redactor
observe-taken_example =
    observe-taken python subn true world moment (openai_handler python) chat_meta runtime
      (original chat_request) refl refl (inl (omega arith))

-- A chunk and an exception, then the body is iterated again.
abbrev broken : List Signal
broken =
    Signal.chunk (100 ∷ 10 ∷ []) 12
    ∷ Signal.failed (record { type_name = codes "ReadTimeout"; message = codes "late" })
    ∷ []

abbrev again : List (List Signal)
again = (Signal.ended ∷ []) ∷ []

iterate_all-once_example :
    (iterate_all python subn team moment
      (broken ∷ again)
      (new_stream runtime (openai_handler python) chat_meta)).runtime
    ≡ logged_stream python subn team moment
        (final_status broken (new_stream runtime (openai_handler python) chat_meta))
        (final_exc broken)
        (fed_all broken (new_stream runtime (openai_handler python) chat_meta))
        runtime
        (openai_handler python)
        chat_meta
iterate_all-once_example =
    iterate_all-once python subn team moment broken again runtime (openai_handler python) chat_meta
      refl
