-- ===== src/Sdk/Entry/Tests.antt =====
-- The theorems on the entry points, applied to a process with httpx as it comes.
use inferlog.Prelude.{◌≡◌, refl, true, false, none, some, List, [], ◌∷◌}
use inferlog.Prelude.Text.{Text, codes}
use inferlog.Sdk.Entry.{native, Process, UrlParse, InitArgs, ends, breaks, raises, shutdown}
use inferlog.Sdk.Entry.Restored.{
  IsGone, Call, initialise, flushing, shutting_down_async, calls, shutdown-restores,
}

-- Every text but the empty one is read as an http URL with a host.
abbrev urlparse : UrlParse
urlparse [] = some ([], [])
urlparse (c ∷ url) = some (codes "http", codes "ingest")

abbrev args : InitArgs
args = record {
  service = codes "chat-gateway";
  endpoint = some (codes "http://ingest/v1/ingest");
  api_key = some (codes "key");
  enabled = true;
  redactor = none;
  sampler = none;
  on_drop = false;
  auth_scheme = codes "bearer";
  sink_given = false;
  max_queue = 2000;
  batch_size = 25;
  max_retries = 3;
  capture_all_httpx = true;
  register_atexit = true;
  instrument = none;
}

abbrev idle : Process
idle = record {
  active = none;
  installed = none;
  async_send = native 1;
  sync_send = native 2;
  atexit_registered = false;
}

-- Two calls of `init`, a flush, a close that raises, and an `init` that is refused.
abbrev history : List Call
history =
    initialise true args
    ∷ initialise false args
    ∷ flushing false (ends [])
    ∷ shutting_down_async (breaks [])
    ∷ initialise true (record args { auth_scheme = codes "basic" })
    ∷ initialise true args
    ∷ []

shutdown-restores_example :
    let w' = (shutdown false (raises []) (calls urlparse history idle)).0 in
    IsGone false (raises []) w'.active
    × (w'.installed ≡ none)
    × (w'.async_send ≡ native 1)
    × (w'.sync_send ≡ native 2)
shutdown-restores_example = shutdown-restores urlparse history false (raises []) idle refl refl
