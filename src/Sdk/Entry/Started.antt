-- ===== src/Sdk/Entry/Started.antt =====
-- What a call of `init` of sdk/inferlog/__init__.py accepts, and the state that it starts.
use inferlog.Prelude.{
  ◌≡◌, Bool, true, false, ◌||◌, Option, none, some, List, [], ◌∷◌, if◌then◌else◌, arith, is_empty,
  ◌⊎◌, inl, inr,
}
use inferlog.Prelude.Text.{Text, codes}
use inferlog.Sdk.Dispatcher.Queue.{running, unstarted}
use inferlog.Sdk.Dispatcher.Worker.{waiting}
use inferlog.Sdk.Redaction.{make_redactor}
use inferlog.Sdk.Sampling.{keep_all}
use inferlog.Sdk.Dispatcher.Queue
use inferlog.Sdk.Runtime.{Runtime, choose_sink}
use inferlog.Sdk.Entry.{
  Active, Installed, patched, Process, install, UrlParse, InitArgs, captures, started, init,
  InitError, validate_init_args, is_http, stats,
}

-- The endpoint is missing, or an http(s) URL with a host.
pub IsEndpoint : UrlParse → Option Text → Type 0
IsEndpoint urlparse endpoint =
    (endpoint ≡ none)
    ⊎ ((url : Text) × (scheme : Text) × (netloc : Text) × (endpoint ≡ some url)
        × (urlparse url ≡ some (scheme, netloc))
        × (is_http scheme ≡ true)
        × (is_empty netloc ≡ false))

-- The runtime that an `init` is to start: the default redactor and sampler stand where none is given,
-- the dispatcher is empty and open, and its task runs exactly if there is an event loop.
abbrev pub fresh : Bool → InitArgs → Active
fresh loop args = record {
  runtime = record {
    service = args.service;
    dispatcher = record {
      max_queue = args.max_queue;
      batch_size = args.batch_size;
      max_retries = args.max_retries;
      on_drop = args.on_drop;
      queue = [];
      task = if loop then running else unstarted;
      closing = false;
      closed = false;
      dropped = 0;
      delivered = 0;
      notices = [];
    };
    redactor = elim args.redactor [ none ↦ make_redactor true [] none | some r ↦ r ];
    sampler = elim args.sampler [ none ↦ keep_all | some s ↦ s ];
    enabled = args.enabled;
  };
  sink = choose_sink args.sink_given args.endpoint args.api_key args.auth_scheme args.enabled;
  phase = waiting;
}

-- The patch after an `init`. Without a capture it is as before; with one, the methods of httpx are
-- replaced and remembered, or, where they are already, the patch serves the new runtime.
abbrev pub IsPatched : Bool → Runtime → Process → Process → Type 0
IsPatched capture runtime w w' =
    ((capture ≡ false)
      × (w'.installed ≡ w.installed)
      × (w'.async_send ≡ w.async_send)
      × (w'.sync_send ≡ w.sync_send))
    ⊎ ((capture ≡ true)
        × (w.installed ≡ none)
        × (w'.installed
            ≡ some
                (record { runtime = runtime; async_send = w.async_send; sync_send = w.sync_send }))
        × (w'.async_send ≡ patched)
        × (w'.sync_send ≡ patched))
    ⊎ ((capture ≡ true)
        × ((i : Installed) × (w.installed ≡ some i)
            × (w'.installed ≡ some (record i { runtime = runtime }))
            × (w'.async_send ≡ w.async_send)
            × (w'.sync_send ≡ w.sync_send)))

-- A process after an `init` that was accepted.
pub record IsStarted (loop : Bool) (args : InitArgs) (w w' : Process) (transports : List Text)
    : Type 0 where
  pub running_as_asked : w'.active ≡ some (fresh loop args)
  pub healthy :
      stats w'
      ≡ some (record {
        service = args.service;
        enabled = args.enabled;
        dispatcher = record { queued = 0; delivered = 0; dropped = 0; closed = false };
      })
  pub reported : transports ≡ (if captures args then codes "httpx" ∷ [] else [])
  pub captured : IsPatched (captures args) (fresh loop args).runtime w w'
  pub registered : w'.atexit_registered ≡ (w.atexit_registered || args.register_atexit)

-- The process with the new runtime, before the patch.
abbrev pub with_runtime : Bool → InitArgs → Process → Process
with_runtime loop args w = record w {
  active = some (started loop args);
  atexit_registered = w.atexit_registered || args.register_atexit;
}

pub init-captures :
    (urlparse : UrlParse) (loop : Bool) (args : InitArgs) (w : Process)
    → validate_init_args urlparse args.endpoint args.auth_scheme ≡ none
    → captures args ≡ true
    → init urlparse loop args w
      ≡ (install (started loop args).runtime (with_runtime loop args w), inr (codes "httpx" ∷ []))
unfolding init
init-captures urlparse loop args w f g = ground arith

pub init-quiet :
    (urlparse : UrlParse) (loop : Bool) (args : InitArgs) (w : Process)
    → validate_init_args urlparse args.endpoint args.auth_scheme ≡ none
    → captures args ≡ false
    → init urlparse loop args w ≡ (with_runtime loop args w, inr [])
unfolding init
init-quiet urlparse loop args w f g = ground arith

pub init-refused :
    (urlparse : UrlParse) (loop : Bool) (args : InitArgs) (w : Process) (e : InitError)
    → validate_init_args urlparse args.endpoint args.auth_scheme ≡ some e
    → init urlparse loop args w ≡ (w, inl e)
unfolding init
init-refused urlparse loop args w e f = ground arith
