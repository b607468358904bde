-- ===== src/Sdk/Entry.antt =====
-- sdk/inferlog/__init__.py, with `install` and `uninstall` of sdk/inferlog/auto.py: the state of the
-- process that the entry points keep.
pub mod Restored
pub mod Started
mod Tests
use inferlog.Prelude.{
  ℕ, ◌≡◌, refl, Bool, true, false, not, ◌&&◌, ◌||◌, Option, none, some, List, [], ◌∷◌, ◌++◌,
  is_some, is_empty, if◌then◌else◌, ◌⊎◌, inl, inr,
}
use mathlib.Core.Option
use inferlog.Prelude.Text.{Text, codes, text_eq}
use inferlog.Sdk.Dispatcher.Queue.{Dispatcher, Task, unstarted, Stats, start}
use inferlog.Sdk.Dispatcher.Queue
use inferlog.Sdk.Dispatcher.Worker.{Phase, waiting, System, Input, close_begins, close_ends}
use inferlog.Sdk.Dispatcher.Worker
use inferlog.Sdk.Events.{Payload}
use inferlog.Sdk.Redaction.{Redactor, make_redactor}
use inferlog.Sdk.Sampling.{Sampler, keep_all}
use inferlog.Sdk.Runtime.{Runtime, SinkChoice, choose_sink, preview_chars}
use inferlog.Sdk.Client.{Client, Provider}

-- A `send` method of httpx: one that was there before, by a name, or the patched one.
pub data Send : Type 0 where
  native : ℕ → Send
  patched : Send

-- `_state` of auto.py once the patch is installed.
pub record Installed : Type 0 where
  pub runtime : Runtime
  pub async_send : Send
  pub sync_send : Send

-- The runtime, with the sink that it was built with and where its background task is.
pub record Active : Type 0 where
  pub runtime : Runtime
  pub sink : SinkChoice
  pub phase : Phase Payload

pub record Process : Type 0 where
  pub active : Option Active
  pub installed : Option Installed
  pub async_send : Send
  pub sync_send : Send
  pub atexit_registered : Bool

-- `auto.install`
unfoldable pub install : Runtime → Process → Process
install runtime w = elim w.installed [
  | some i ↦ record w { installed = some (record i { runtime = runtime }) }
  | none ↦ record w {
    installed =
        some (record { runtime = runtime; async_send = w.async_send; sync_send = w.sync_send });
    async_send = patched;
    sync_send = patched;
  }
]

-- `auto.uninstall`
unfoldable pub uninstall : Process → Process
uninstall w = elim w.installed [
  | none ↦ w
  | some i ↦ record w { installed = none; async_send = i.async_send; sync_send = i.sync_send }
]

-- The ValueErrors of `init`.
pub data InitError : Type 0 where
  unreadable_endpoint bad_scheme missing_host bad_auth_scheme : InitError

-- `urlparse`: the scheme and the host part, or an exception.
abbrev pub UrlParse : Type 0
UrlParse = Text → Option (Text × Text)

abbrev pub is_http : Text → Bool
is_http scheme = text_eq scheme (codes "http") || text_eq scheme (codes "https")

abbrev pub is_auth_scheme : Text → Bool
is_auth_scheme scheme = text_eq scheme (codes "x-api-key") || text_eq scheme (codes "bearer")

unfoldable pub validate_endpoint : UrlParse → Option Text → Option InitError
validate_endpoint urlparse none = none
validate_endpoint urlparse (some endpoint) = elim (urlparse endpoint) [
  | none ↦ some unreadable_endpoint
  | some (scheme, netloc) ↦
      if is_http scheme
      then if is_empty netloc then some missing_host else none
      else some bad_scheme
]

unfoldable pub validate_init_args : UrlParse → Option Text → Text → Option InitError
unfolding validate_endpoint
validate_init_args urlparse endpoint auth_scheme = elim (validate_endpoint urlparse endpoint) [
  | some e ↦ some e
  | none ↦ if is_auth_scheme auth_scheme then none else some bad_auth_scheme
]

-- The arguments of `init`. `dispatcher_options` is given by its three numbers, with the defaults of
-- `LogDispatcher` filled in; of the sink it matters only whether one is given.
pub record InitArgs : Type 0 where
  pub service : Text
  pub endpoint : Option Text
  pub api_key : Option Text
  pub enabled : Bool
  pub redactor : Option Redactor
  pub sampler : Option Sampler
  pub on_drop : Bool
  pub auth_scheme : Text
  pub sink_given : Bool
  pub max_queue : ℕ
  pub batch_size : ℕ
  pub max_retries : ℕ
  pub capture_all_httpx : Bool
  pub register_atexit : Bool
  pub instrument : Option Bool

abbrev pub new_dispatcher : InitArgs → Dispatcher Payload
new_dispatcher args = record {
  max_queue = args.max_queue;
  batch_size = args.batch_size;
  max_retries = args.max_retries;
  on_drop = args.on_drop;
  queue = [];
  task = unstarted;
  closing = false;
  closed = false;
  dropped = 0;
  delivered = 0;
  notices = [];
}

abbrev pub or_default {ℓ} : {A : Type ℓ} → A → Option A → A
or_default default none = default
or_default default (some a) = a

-- `build_default_runtime` of runtime.py
unfoldable pub build_default_runtime : InitArgs → Active
unfolding choose_sink make_redactor
build_default_runtime args = record {
  runtime = record {
    service = args.service;
    dispatcher = new_dispatcher args;
    redactor = or_default (make_redactor true [] none) args.redactor;
    sampler = or_default keep_all args.sampler;
    enabled = args.enabled;
  };
  sink = choose_sink args.sink_given args.endpoint args.api_key args.auth_scheme args.enabled;
  phase = waiting;
}

-- `instrument` is the old name of `capture_all_httpx`.
abbrev pub captures : InitArgs → Bool
captures args = or_default args.capture_all_httpx args.instrument && args.enabled

-- The runtime that `init` starts; the flag says whether an event loop is running.
unfoldable pub started : Bool → InitArgs → Active
unfolding build_default_runtime start
started loop args =
    let active = build_default_runtime args in
    record active {
      runtime = record active.runtime { dispatcher = start loop active.runtime.dispatcher };
    }

-- `init`: a ValueError, or the transports that are captured.
unfoldable pub init : UrlParse → Bool → InitArgs → Process → Process × (InitError ⊎ List Text)
unfolding started install validate_init_args
init urlparse loop args w = elim (validate_init_args urlparse args.endpoint args.auth_scheme) [
  | some e ↦ (w, inl e)
  | none ↦
      let active = started loop args in
      let w' = record w {
        active = some active;
        atexit_registered = w.atexit_registered || args.register_atexit;
      } in
      if captures args then (install active.runtime w', inr (codes "httpx" ∷ [])) else (w', inr [])
]

-- The exceptions of `wrap_provider`.
pub data WrapError : Type 0 where
  not_initialised no_providers : WrapError

unfoldable pub wrap_provider : List (Text × Provider) → Process → WrapError ⊎ Client
wrap_provider providers w = elim w.active [
  | none ↦ inl not_initialised
  | some active ↦
      if is_empty providers
      then inl no_providers
      else inr (record {
        service = active.runtime.service;
        providers = providers;
        preview_chars = preview_chars;
        redactor = active.runtime.redactor;
      })
]

-- How a call of `aclose` goes: what happens in the event loop until it ends, until it raises a
-- RuntimeError, which `flush` and `shutdown` swallow, or until it raises another exception, which
-- they do not (such as the ValueError of Python 3.11 for a task of another event loop).
pub data Closing : Type 0 where
  ends breaks raises : List (Input Payload) → Closing

abbrev pub inputs_of : Closing → List (Input Payload)
inputs_of (ends inputs) = close_begins ∷ (inputs ++ (close_ends ∷ []))
inputs_of (breaks inputs) = close_begins ∷ inputs
inputs_of (raises inputs) = close_begins ∷ inputs

unfoldable pub aclose : Closing → Active → Active
unfolding Worker.run
aclose closing active =
    let s = Worker.run (inputs_of closing) (record {
      dispatcher = active.runtime.dispatcher;
      phase = active.phase;
      arrived = 0;
      lost = 0;
      discarded = 0;
    }) in
    record active { runtime = record active.runtime { dispatcher = s.dispatcher }; phase = s.phase }

-- `_atexit_flush`: what `aclose` raises is swallowed.
unfoldable pub atexit_flush : Closing → Process → Process
atexit_flush closing w = record w { active = Option.map (aclose closing) w.active }

-- `flush`: inside an event loop `aclose` is only scheduled. An exception that it does not swallow goes
-- on to the host.
unfoldable pub flush : Bool → Closing → Process → Process
flush loop closing w =
    if loop then w else record w { active = Option.map (aclose closing) w.active }

abbrev pub disabled : Active → Active
disabled active = record active { runtime = record active.runtime { enabled = false } }

-- What `shutdown` leaves as the runtime: an exception that it does not swallow passes over
-- `set_runtime(None)`.
unfoldable pub left_by : Bool → Closing → Active → Option Active
unfolding aclose
left_by true closing active = none
left_by false (ends inputs) active = none
left_by false (breaks inputs) active = none
left_by false (raises inputs) active = some (aclose (raises inputs) (disabled active))

-- `shutdown`: the process, and the runtime that it shuts down.
unfoldable pub shutdown : Bool → Closing → Process → Process × Option Active
unfolding uninstall aclose left_by
shutdown loop closing w = elim w.active [
  | none ↦ (w, none)
  | some active ↦ (
    record (uninstall w) { active = left_by loop closing active },
    some (if loop then disabled active else aclose closing (disabled active)),
  )
]

-- `ashutdown`: an exception of `aclose` leaves the disabled runtime in place.
unfoldable pub kept_by : Closing → Active → Option Active
unfolding aclose
kept_by (ends inputs) active = none
kept_by (breaks inputs) active = some (aclose (breaks inputs) (disabled active))
kept_by (raises inputs) active = some (aclose (raises inputs) (disabled active))

unfoldable pub ashutdown : Closing → Process → Process
unfolding uninstall kept_by
ashutdown closing w = elim w.active [
  | none ↦ w
  | some active ↦ record (uninstall w) { active = kept_by closing active }
]

-- `stats`
pub record Health : Type 0 where
  pub service : Text
  pub enabled : Bool
  pub dispatcher : Stats

unfoldable pub stats : Process → Option Health
stats w =
    Option.map
      (λ active. record {
        service = active.runtime.service;
        enabled = active.runtime.enabled;
        dispatcher = Queue.stats active.runtime.dispatcher;
      })
      w.active
