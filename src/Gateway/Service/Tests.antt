-- ===== src/Gateway/Service/Tests.antt =====
-- The start and the stop of the gateway, from a process with httpx as it comes.
use inferlog.Prelude.{◌≡◌, refl, true, false, none, some, [], inr}
use inferlog.Prelude.Text.{codes, text_eq}
use inferlog.Sdk.Entry.{Process, UrlParse, native, ends}
use inferlog.Gateway.Llm.{Settings}
use inferlog.Gateway.Service.{IngestSettings, build, stopped}
use inferlog.Gateway.Service.Served.{llm_runtime, IsServing, build-stopped}

abbrev urlparse : UrlParse
urlparse url = some (codes "http", codes "ingestion-api:8080")

abbrev settings : Settings
settings = record {
  openai_api_key = codes "key";
  anthropic_api_key = [];
  context_window = 12;
  default_system_prompt = [];
}

abbrev ingest : IngestSettings
ingest = record {
  ingest_url = codes "http://ingestion-api:8080/v1/ingest";
  ingest_api_key = codes "key";
}

abbrev idle : Process
idle = record {
  active = none;
  installed = none;
  async_send = native 1;
  sync_send = native 2;
  atexit_registered = false;
}

build-stopped_example :
    let started_up = build urlparse settings ingest idle in
    let w' = stopped (ends []) started_up in
    (started_up.1 ≡ inr (llm_runtime settings))
    × IsServing urlparse settings ingest idle true started_up.0
    × (w'.active ≡ none)
    × (w'.installed ≡ none)
    × (w'.async_send ≡ native 1)
    × (w'.sync_send ≡ native 2)
unfolding text_eq
build-stopped_example =
    build-stopped urlparse settings ingest idle (codes "http") (codes "ingestion-api:8080") true []
      refl refl refl refl refl
