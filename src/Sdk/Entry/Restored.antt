-- ===== src/Sdk/Entry/Restored.antt =====
-- What the entry points of sdk/inferlog/__init__.py do to httpx, under every sequence of calls.
use inferlog.Prelude.{
  ◌≡◌, refl, Bool, true, false, Option, none, some, List, [], ◌∷◌, arith, Bool-cases, Option-cases,
  is_some, ◌⊎◌, inl, inr, ◌||◌,
}
use mathlib.Core.Option
use inferlog.Sdk.Runtime.{Runtime}
use inferlog.Sdk.Entry.{
  Send, patched, Installed, Active, Process, install, uninstall, UrlParse, InitArgs, captures,
  started, init, Closing, ends, breaks, raises, left_by, aclose, atexit_flush, flush, shutdown,
  ashutdown, kept_by, validate_init_args,
}
use inferlog.Sdk.Dispatcher.Worker.{Input}
use inferlog.Sdk.Events.{Payload}
use inferlog.Sdk.Entry.Started.{init-captures, init-quiet, init-refused}

-- A call of an entry point that changes the state of the process. The flags say whether an event
-- loop is running.
pub data Call : Type 0 where
  initialise : Bool → InitArgs → Call
  at_exit : Closing → Call
  flushing : Bool → Closing → Call
  shutting_down : Bool → Closing → Call
  shutting_down_async : Closing → Call

unfoldable pub call : UrlParse → Call → Process → Process
call urlparse (initialise loop args) w = (init urlparse loop args w).0
call urlparse (at_exit closing) w = atexit_flush closing w
call urlparse (flushing loop closing) w = flush loop closing w
call urlparse (shutting_down loop closing) w = (shutdown loop closing w).0
call urlparse (shutting_down_async closing) w = ashutdown closing w

unfoldable pub calls : UrlParse → List Call → Process → Process
calls urlparse [] w = w
calls urlparse (c ∷ rest) w = calls urlparse rest (call urlparse c w)

-- The methods of httpx are the given ones, or the patch is installed over them; and it is installed
-- only while there is a runtime.
pub IsPatchOver : Send → Send → Process → Type 0
IsPatchOver async_send sync_send w =
    ((w.installed ≡ none) × (w.async_send ≡ async_send) × (w.sync_send ≡ sync_send))
    ⊎ ((i : Installed) × (w.installed ≡ some i)
        × (i.async_send ≡ async_send)
        × (i.sync_send ≡ sync_send)
        × (w.async_send ≡ patched)
        × (w.sync_send ≡ patched)
        × (is_some w.active ≡ true))

is_some-map {ℓ κ} :
    {A : Type ℓ} {B : Type κ} (f : A → B) (o : Option A) → is_some (Option.map f o) ≡ is_some o
is_some-map f none = refl
is_some-map f (some a) = refl

shutdown-idle :
    (loop : Bool) (closing : Closing) (w : Process)
    → w.active ≡ none
    → (shutdown loop closing w).0 ≡ w
unfolding shutdown
shutdown-idle loop closing w e = ground arith

shutdown-released :
    (loop : Bool) (closing : Closing) (w : Process) (active : Active)
    → w.active ≡ some active
    → (shutdown loop closing w).0 ≡ record (uninstall w) { active = left_by loop closing active }
unfolding shutdown
shutdown-released loop closing w active e = ground arith

-- What is left as the runtime is disabled, and is left only where `aclose`, run outside of an event
-- loop, raises what is no RuntimeError.
abbrev pub IsGone : Bool → Closing → Option Active → Type 0
IsGone loop closing active =
    (active ≡ none)
    ⊎ ((left : Active) × (inputs : List (Input Payload)) × (active ≡ some left)
        × (left.runtime.enabled ≡ false)
        × (loop ≡ false)
        × (closing ≡ raises inputs))

left_by-IsGone :
    (loop : Bool) (closing : Closing) (active : Active)
    → IsGone loop closing (left_by loop closing active)
unfolding left_by aclose
left_by-IsGone true closing active = inl refl
left_by-IsGone false (ends inputs) active = inl refl
left_by-IsGone false (breaks inputs) active = inl refl
left_by-IsGone false (raises inputs) active = inr (_, inputs, refl, refl, refl, refl)

ashutdown-idle : (closing : Closing) (w : Process) → w.active ≡ none → ashutdown closing w ≡ w
unfolding ashutdown
ashutdown-idle closing w e = ground arith

ashutdown-released :
    (closing : Closing) (w : Process) (active : Active)
    → w.active ≡ some active
    → ashutdown closing w ≡ record (uninstall w) { active = kept_by closing active }
unfolding ashutdown
ashutdown-released closing w active e = ground arith

module _ (a s : Send) where
  install-IsPatchOver :
      (runtime : Runtime) (w : Process)
      → is_some w.active ≡ true
      → IsPatchOver a s w
      → IsPatchOver a s (install runtime w)
  unfolding IsPatchOver install
  install-IsPatchOver runtime w h k = ground arith

  uninstall-restores :
      (w : Process)
      → IsPatchOver a s w
      → ((uninstall w).installed ≡ none)
        × ((uninstall w).async_send ≡ a)
        × ((uninstall w).sync_send ≡ s)
  unfolding IsPatchOver uninstall
  uninstall-restores w k = ground arith

  -- `init` may put its runtime in place before it installs the patch.
  with_runtime-IsPatchOver :
      (active : Active) (registered : Bool) (w : Process)
      → IsPatchOver a s w
      → IsPatchOver a s (record w { active = some active; atexit_registered = registered })
  unfolding IsPatchOver
  with_runtime-IsPatchOver active registered w k = ground arith

  init-IsPatchOver :
      (urlparse : UrlParse) (loop : Bool) (args : InitArgs) (w : Process)
      → IsPatchOver a s w
      → IsPatchOver a s (init urlparse loop args w).0
  init-IsPatchOver urlparse loop args w k =
      let active = started loop args in
      let registered = w.atexit_registered || args.register_atexit in
      let h = with_runtime-IsPatchOver active registered w k in
      elim (Option-cases (validate_init_args urlparse args.endpoint args.auth_scheme)) [
        | inr (e, f) ↦ rw (init-refused urlparse loop args w e f) k
        | inl f ↦ elim (Bool-cases (captures args)) [
          | inl g ↦
              rw (init-captures urlparse loop args w f g)
                (install-IsPatchOver active.runtime _ refl h)
          | inr g ↦ rw (init-quiet urlparse loop args w f g) h
        ]
      ]

  kept-IsPatchOver :
      (active : Option Active) (w : Process)
      → is_some active ≡ is_some w.active
      → IsPatchOver a s w
      → IsPatchOver a s (record w { active = active })
  unfolding IsPatchOver
  kept-IsPatchOver active w e k = ground arith

  released-IsPatchOver :
      (active : Option Active) (w : Process)
      → IsPatchOver a s w
      → IsPatchOver a s (record (uninstall w) { active = active })
  unfolding IsPatchOver
  released-IsPatchOver active w k = inl (uninstall-restores w k)

  shutdown-IsPatchOver :
      (loop : Bool) (closing : Closing) (w : Process)
      → IsPatchOver a s w
      → IsPatchOver a s (shutdown loop closing w).0
  shutdown-IsPatchOver loop closing w k = elim (Option-cases w.active) [
    | inl e ↦ rw (shutdown-idle loop closing w e) k
    | inr (active, e) ↦
        rw (shutdown-released loop closing w active e)
          (released-IsPatchOver (left_by loop closing active) w k)
  ]

  ashutdown-IsPatchOver :
      (closing : Closing) (w : Process) → IsPatchOver a s w → IsPatchOver a s (ashutdown closing w)
  ashutdown-IsPatchOver closing w k = elim (Option-cases w.active) [
    | inl e ↦ rw (ashutdown-idle closing w e) k
    | inr (active, e) ↦
        rw (ashutdown-released closing w active e)
          (released-IsPatchOver (kept_by closing active) w k)
  ]

  closed-IsPatchOver :
      (closing : Closing) (w : Process)
      → IsPatchOver a s w
      → IsPatchOver a s (record w { active = Option.map (aclose closing) w.active })
  closed-IsPatchOver closing w k =
      kept-IsPatchOver (Option.map (aclose closing) w.active) w
        (is_some-map (aclose closing) w.active) k

  call-IsPatchOver :
      (urlparse : UrlParse) (c : Call) (w : Process)
      → IsPatchOver a s w
      → IsPatchOver a s (call urlparse c w)
  unfolding call atexit_flush flush
  call-IsPatchOver urlparse (initialise loop args) w k = init-IsPatchOver urlparse loop args w k
  call-IsPatchOver urlparse (at_exit closing) w k = closed-IsPatchOver closing w k
  call-IsPatchOver urlparse (flushing true closing) w k = k
  call-IsPatchOver urlparse (flushing false closing) w k = closed-IsPatchOver closing w k
  call-IsPatchOver urlparse (shutting_down loop closing) w k = shutdown-IsPatchOver loop closing w k
  call-IsPatchOver urlparse (shutting_down_async closing) w k = ashutdown-IsPatchOver closing w k

  calls-IsPatchOver :
      (urlparse : UrlParse) (cs : List Call) (w : Process)
      → IsPatchOver a s w
      → IsPatchOver a s (calls urlparse cs w)
  unfolding calls
  calls-IsPatchOver urlparse [] w k = k
  calls-IsPatchOver urlparse (c ∷ cs) w k =
      calls-IsPatchOver urlparse cs _ (call-IsPatchOver urlparse c w k)

  idle-restored :
      (w : Process)
      → w.active ≡ none
      → IsPatchOver a s w
      → (w.installed ≡ none) × (w.async_send ≡ a) × (w.sync_send ≡ s)
  unfolding IsPatchOver
  idle-restored w e k = ground arith

  shutdown-IsRestored :
      (loop : Bool) (closing : Closing) (w : Process)
      → IsPatchOver a s w
      → let w' = (shutdown loop closing w).0 in
        IsGone loop closing w'.active
        × (w'.installed ≡ none)
        × (w'.async_send ≡ a)
        × (w'.sync_send ≡ s)
  shutdown-IsRestored loop closing w k = elim (Option-cases w.active) [
    | inl e ↦
        let (unpatched, async, sync) = idle-restored w e k in
        rw (shutdown-idle loop closing w e) (inl e, unpatched, async, sync)
    | inr (active, e) ↦
        let (unpatched, async, sync) = uninstall-restores w k in
        rw (shutdown-released loop closing w active e)
          (left_by-IsGone loop closing active, unpatched, async, sync)
  ]

-- Start from a process in which the SDK is not active. Whatever sequence of entry points is called,
-- refused ones and repeated ones among them, and however their closes go: after one more shutdown no
-- patch is installed, the two methods of httpx are the ones from before, and there is no runtime,
-- unless the shutdown, outside of an event loop, lets out an exception of `aclose` that is no
-- RuntimeError: then the runtime may stay, and is disabled.
pub shutdown-restores :
    (urlparse : UrlParse) (cs : List Call) (loop : Bool) (closing : Closing) (w : Process)
    → w.active ≡ none
    → w.installed ≡ none
    → let w' = (shutdown loop closing (calls urlparse cs w)).0 in
      IsGone loop closing w'.active
      × (w'.installed ≡ none)
      × (w'.async_send ≡ w.async_send)
      × (w'.sync_send ≡ w.sync_send)
unfolding IsPatchOver
shutdown-restores urlparse cs loop closing w e f =
    shutdown-IsRestored w.async_send w.sync_send loop closing (calls urlparse cs w)
      (calls-IsPatchOver w.async_send w.sync_send urlparse cs w (inl (f, refl, refl)))
