-- ===== src/Gateway/Service.antt =====
-- gateway/app/main.py with `LLMRuntime.build`, `aclose` and `logging_stats` of gateway/app/llm.py: the
-- start and the stop of the service, over the process that the SDK patches, and the endpoints of
-- main.py. Connecting to the database and the schema are not modelled.
pub mod Served
mod Tests
use inferlog.Prelude.{
  ℕ, ◌≡◌, ◌⊎◌, inl, inr, Bool, true, false, Option, none, some, List, [], ◌∷◌, map, if◌then◌else◌,
}
use mathlib.Core.Option
use inferlog.Prelude.Text.{Text, codes}
use inferlog.Sdk.Client.{Client, Provider}
use inferlog.Sdk.Client.Mock.{mock_provider}
use inferlog.Sdk.Entry.{
  Process, Closing, UrlParse, InitArgs, InitError, WrapError, Health, init, wrap_provider,
  ashutdown, stats,
}
use inferlog.Gateway.Llm.{Settings, ModelOption, mock, available_models}
use inferlog.Gateway.Llm

-- The settings that go to the SDK.
pub record IngestSettings : Type 0 where
  pub ingest_url : Text
  pub ingest_api_key : Text

-- `inferlog.init(service=…, endpoint=…, api_key=…, capture_all_httpx=True)`
abbrev pub gateway_args : IngestSettings → InitArgs
gateway_args settings = record {
  service = codes "chat-gateway";
  endpoint = some settings.ingest_url;
  api_key = some settings.ingest_api_key;
  enabled = true;
  redactor = none;
  sampler = none;
  on_drop = false;
  auth_scheme = codes "x-api-key";
  sink_given = false;
  max_queue = 2000;
  batch_size = 25;
  max_retries = 3;
  capture_all_httpx = true;
  register_atexit = true;
  instrument = none;
}

-- `LLMRuntime`: the names of its providers, and the client inside of the mock provider.
pub record LlmRuntime : Type 0 where
  pub providers : List Text
  pub mock_client : Client

-- The exceptions of `build`.
abbrev pub BuildError : Type 0
BuildError = InitError ⊎ WrapError

-- `wrap_provider(mock=MockProvider(token_delay=0.02))`
abbrev pub mock_only : List (Text × Provider)
mock_only = (mock, mock_provider none 20) ∷ []

unfoldable pub with_mock : Settings → Process → Process × (BuildError ⊎ LlmRuntime)
unfolding wrap_provider
with_mock settings w = elim (wrap_provider mock_only w) [
  | inl e ↦ (w, inl (inr e))
  | inr client ↦ (w, inr (record { providers = Llm.build settings; mock_client = client }))
]

-- `LLMRuntime.build` after `init`.
unfoldable pub built :
    Settings → Process × (InitError ⊎ List Text) → Process × (BuildError ⊎ LlmRuntime)
unfolding with_mock
built settings (w, inl e) = (w, inl (inl e))
built settings (w, inr transports) = with_mock settings w

-- `LLMRuntime.build`, in the event loop that starts the service.
unfoldable pub build :
    UrlParse → Settings → IngestSettings → Process → Process × (BuildError ⊎ LlmRuntime)
unfolding init built
build urlparse settings ingest w = built settings (init urlparse true (gateway_args ingest) w)

-- `lifespan`: the process after the start, and after the stop that `aclose` is; a start that raises is
-- not stopped.
unfoldable pub stopped : Closing → Process × (BuildError ⊎ LlmRuntime) → Process
unfolding ashutdown
stopped closing (w, inl e) = w
stopped closing (w, inr llm) = ashutdown closing w

pub record GatewayHealth : Type 0 where
  pub status : Text
  pub db : Bool
  pub logging : Option Health

unfoldable pub healthz : Bool → Process → GatewayHealth
unfolding stats
healthz db_ok w = record {
  status = if db_ok then codes "ok" else codes "degraded";
  db = db_ok;
  logging = stats w;
}

-- `list_models`
unfoldable pub list_models : LlmRuntime → List ModelOption
unfolding available_models
list_models llm = available_models llm.providers
