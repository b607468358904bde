-- ===== src/Gateway/Service/Served.antt =====
-- What the start of the gateway leaves, and what its stop takes back.
use inferlog.Prelude.{
  ℕ, ◌≡◌, refl, sym, ap, ◌∙◌, ◌⊎◌, inl, inr, Bool, true, false, Option, none, some, List, [], ◌∷◌,
  if◌then◌else◌, is_empty, Option-cases, arith,
}
use inferlog.Prelude.Text.{Text, codes, text_eq}
use inferlog.Sdk.Entry.{
  Process, patched, ends, UrlParse, install, uninstall, wrap_provider, ashutdown, kept_by, stats,
  started, is_http, build_default_runtime, validate_init_args, validate_endpoint,
}
use inferlog.Sdk.Entry.Started.{init-captures, with_runtime, fresh}
use inferlog.Sdk.Dispatcher.Queue
use inferlog.Sdk.Dispatcher.Worker.{Input}
use inferlog.Sdk.Events.{Payload}
use inferlog.Sdk.Redaction.{make_redactor}
use inferlog.Sdk.Runtime.{preview_chars}
use inferlog.Gateway.Llm.{Settings, ModelOption}
use inferlog.Gateway.Llm
use inferlog.Gateway.Service.{
  IngestSettings, LlmRuntime, gateway_args, mock_only, with_mock, built, build, healthz, stopped,
  healthz, list_models,
}

-- What `build` returns.
abbrev pub llm_runtime : Settings → LlmRuntime
llm_runtime settings = record {
  providers = Llm.build settings;
  mock_client = record {
    service = codes "chat-gateway";
    providers = mock_only;
    preview_chars = preview_chars;
    redactor = make_redactor true [] none;
  };
}

module _ (urlparse : UrlParse) (settings : Settings) (ingest : IngestSettings) (w : Process) where
  -- The process once the service runs.
  abbrev serving : Process
  serving =
      install (started true (gateway_args ingest)).runtime
        (with_runtime true (gateway_args ingest) w)

  valid-args :
      (scheme netloc : Text)
      → urlparse ingest.ingest_url ≡ some (scheme, netloc)
      → is_http scheme ≡ true
      → is_empty netloc ≡ false
      → validate_init_args urlparse (some ingest.ingest_url) (codes "x-api-key") ≡ none
  unfolding validate_init_args validate_endpoint text_eq
  valid-args scheme netloc a b c = ground arith

  with_mock-serving : with_mock settings serving ≡ (serving, inr (llm_runtime settings))
  unfolding with_mock wrap_provider started build_default_runtime install
  with_mock-serving = elim (Option-cases w.installed) [ inl e ↦ rw e refl | inr (i, e) ↦ rw e refl ]

  build-serving :
      validate_init_args urlparse (some ingest.ingest_url) (codes "x-api-key") ≡ none
      → build urlparse settings ingest w ≡ (serving, inr (llm_runtime settings))
  unfolding build built
  build-serving e =
      ap (built settings) (init-captures urlparse true (gateway_args ingest) w e refl)
      ∙ with_mock-serving

  -- The process of a service that runs: a runtime as asked for, in a process that captures, and what
  -- the health check reports of it.
  pub record IsServing (db_ok : Bool) (w' : Process) : Type 0 where
    pub running_as_asked : w'.active ≡ some (fresh true (gateway_args ingest))
    pub installed :
        w'.installed
        ≡ some (record {
          runtime = (fresh true (gateway_args ingest)).runtime;
          async_send = w.async_send;
          sync_send = w.sync_send;
        })
    pub async_patched : w'.async_send ≡ patched
    pub sync_patched : w'.sync_send ≡ patched
    pub health : healthz db_ok w' ≡ record {
      status = if db_ok then codes "ok" else codes "degraded";
      db = db_ok;
      logging = some (record {
        service = codes "chat-gateway";
        enabled = true;
        dispatcher = record { queued = 0; delivered = 0; dropped = 0; closed = false };
      });
    }

  serving-IsServing : (db_ok : Bool) → w.installed ≡ none → IsServing db_ok serving
  unfolding healthz stats started build_default_runtime install inferlog.Sdk.Dispatcher.Queue.start
      inferlog.Sdk.Dispatcher.Queue.stats
  serving-IsServing db_ok e = rw e (record {
    running_as_asked = refl;
    installed = refl;
    async_patched = refl;
    sync_patched = refl;
    health = refl;
  })

  stopped-serving :
      (inputs : List (Input Payload))
      → w.active ≡ none
      → w.installed ≡ none
      → let w' = ashutdown (ends inputs) serving in
        (w'.active ≡ none)
        × (w'.installed ≡ none)
        × (w'.async_send ≡ w.async_send)
        × (w'.sync_send ≡ w.sync_send)
  unfolding ashutdown uninstall kept_by install
  stopped-serving inputs d e = rw e (refl, refl, refl, refl)

  -- The start of the gateway, where the ingestion service is at an http(s) URL with a host and the SDK
  -- was not active before: it succeeds, the client of the mock provider carries the service's name and
  -- the default redactor, the runtime is the one that the settings ask for, with its background task
  -- running, both send methods of httpx are patched, with the ones from before remembered, and the
  -- health check reports the state of the database and an empty, open dispatcher. And once the
  -- service has stopped, where the close does not raise, however the queue is drained, the process is
  -- as before: no runtime, no patch, and the methods of httpx.
  pub build-stopped :
      (scheme netloc : Text) (db_ok : Bool) (inputs : List (Input Payload))
      → urlparse ingest.ingest_url ≡ some (scheme, netloc)
      → is_http scheme ≡ true
      → is_empty netloc ≡ false
      → w.active ≡ none
      → w.installed ≡ none
      → let started_up = build urlparse settings ingest w in
        let w' = stopped (ends inputs) started_up in
        (started_up.1 ≡ inr (llm_runtime settings))
        × IsServing db_ok started_up.0
        × (w'.active ≡ none)
        × (w'.installed ≡ none)
        × (w'.async_send ≡ w.async_send)
        × (w'.sync_send ≡ w.sync_send)
  unfolding stopped
  build-stopped scheme netloc db_ok inputs a b c d e =
      let (gone, unpatched, async, sync) = stopped-serving inputs d e in
      rw (build-serving (valid-args scheme netloc a b c))
        (refl, serving-IsServing db_ok e, gone, unpatched, async, sync)

-- The offered models begin with this one, which is the default.
abbrev pub IsFirst : Settings → ModelOption → Type 0
IsFirst settings m =
    (rest : List ModelOption) × (list_models (llm_runtime settings) ≡ m ∷ rest)
    × (Llm.default_model (Llm.build settings) ≡ some m)

IsFirst-by_keys :
    (openai_key anthropic_key prompt : Text) (window : ℕ)
    → (m : ModelOption) × IsFirst
        (record {
          openai_api_key = openai_key;
          anthropic_api_key = anthropic_key;
          context_window = window;
          default_system_prompt = prompt;
        })
        m
unfolding list_models Llm.available_models Llm.default_model Llm.build Llm.catalog Llm.registered
    Llm.last_model inferlog.Prelude.find? inferlog.Prelude.filter text_eq
IsFirst-by_keys [] [] prompt window = (_, (_, refl, refl))
IsFirst-by_keys [] (c ∷ key) prompt window = (_, (_, refl, refl))
IsFirst-by_keys (c ∷ key) [] prompt window = (_, (_, refl, refl))
IsFirst-by_keys (c ∷ key) (d ∷ other) prompt window = (_, (_, refl, refl))

-- Whatever keys are set, the list of the models is not empty, and its first entry is the default model.
pub list_models-default_model : (settings : Settings) → (m : ModelOption) × IsFirst settings m
list_models-default_model settings =
    IsFirst-by_keys settings.openai_api_key settings.anthropic_api_key
      settings.default_system_prompt settings.context_window
