-- ===== src/Samples.antt =====
-- Concrete parameters and values, for the tests.
use inferlog.Prelude.{◌+◌, true, false, Option, none, some, [], ◌∷◌}
use inferlog.Prelude.Int.{pos}
use inferlog.Prelude.Json.{Json, int, str, obj, null, Fields, size}
use inferlog.Prelude.Python.{Python}
use inferlog.Prelude.Text.{Text, codes}
use inferlog.Sdk.Dispatcher.Queue.{Dispatcher, running}
use inferlog.Sdk.Events.{Payload, InferenceEvent, success}
use inferlog.Sdk.Parsers.Requests.{Request, RequestMeta}
use inferlog.Sdk.Redaction.{Subn, make_redactor}
use inferlog.Sdk.Runtime.{Runtime, Moment}
use inferlog.Sdk.Sampling.{keep_all}

-- A line of Ollama's stream, which every text but the empty one decodes to here.
abbrev pub decoded : Json
decoded = obj (
    Fields.field (codes "response") (str (codes "hi")) (
      Fields.field (codes "prompt_eval_count") (int (pos 3))
        (Fields.field (codes "eval_count") (int (pos 4)) Fields.end)))

abbrev pub decode_sample : Text → Option Json
decode_sample [] = none
decode_sample (c ∷ text) = some decoded

abbrev pub python : Python
python = record {
  str_of = λ v. codes "value";
  dumps_size = λ d. size d + 2;
  isoformat = λ time. codes "2025-01-01T00:00:00";
  loads = decode_sample;
  float_add = λ a b. null;
}

-- Every text has one match, the whole of it.
abbrev pub subn : Subn
subn pattern replacement text = (replacement, 1)

abbrev pub dispatcher : Dispatcher Payload
dispatcher = record {
  max_queue = 4;
  batch_size = 2;
  max_retries = 3;
  on_drop = false;
  queue = [];
  task = running;
  closing = false;
  closed = false;
  dropped = 0;
  delivered = 0;
  notices = [];
}

abbrev pub runtime : Runtime
runtime = record {
  service = codes "checkout";
  dispatcher = dispatcher;
  redactor = make_redactor true [] none;
  sampler = keep_all;
  enabled = true;
}

abbrev pub moment : Moment
moment = record {
  request_id = codes "r1";
  started_at = 1000;
  completed_at = 3000;
  latency_ms = 2;
  draw = 5;
  loop = true;
}

abbrev pub chat_request : Request
chat_request = record {
  method = codes "POST";
  host = codes "api.openai.com";
  path = codes "/v1/chat/completions";
  content = codes "body";
}

abbrev pub chat_meta : RequestMeta
chat_meta = record { model = codes "gpt-4.1"; streaming = true; input_text = some (codes "hello") }

-- A tag and its value.
abbrev pub team : Fields
team = Fields.field (codes "team") (str (codes "search")) Fields.end

abbrev pub inference_event : InferenceEvent
inference_event = record {
  request_id = codes "r1";
  service = codes "checkout";
  provider = codes "openai";
  model = codes "gpt-4.1";
  status = success;
  streamed = false;
  started_at = 1000;
  completed_at = 3000;
  latency_ms = 2;
  conversation_id = none;
  ttft_ms = none;
  prompt_tokens = int (pos 3);
  completion_tokens = int (pos 4);
  total_tokens = int (pos 7);
  input_preview = some (codes "hello");
  output_preview = some (codes "hi");
  error_type = none;
  error_message = some (codes "late");
  pii_redaction_count = 0;
  tags = team;
  client_metadata = Fields.end;
  sdk_version = codes "0.4.0";
  schema_version = 1;
}
