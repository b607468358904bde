-- ===== src/Sdk/Auto/Capture/Logged.antt =====
-- What a captured call of sdk/inferlog/auto.py logs.
use inferlog.Prelude.{
  ◌+◌, ◌≤◌, ◌≡◌, ◌≢◌, ◌⊎◌, refl, Bool, false, Option, none, some, arith, leb, le→leb, Bool-cases,
  inl, inr,
}
use inferlog.Prelude.Json.{truthy}
use inferlog.Prelude.Python.{Python}
use inferlog.Prelude.Text.{Text}
use inferlog.Sdk.Events.{Status, success, error}
use inferlog.Sdk.Parsers.Registry.{Handler}
use inferlog.Sdk.Parsers.Requests.{RequestMeta}
use inferlog.Sdk.Parsers.Responses.{ResponseMeta, empty_meta}
use inferlog.Sdk.Redaction.{Subn}
use inferlog.Sdk.Runtime.{Runtime, Moment, taken}
use inferlog.Sdk.Auto.Emit.{emit_safe, taken-emit_built, build_event_total, output_str}
use inferlog.Sdk.Auto.Capture.{
  Outcome, World, returned, raised, cancelled, parsed_response, observe,
}

-- What is logged when the call ends: every exception, every response with an error status, and every
-- other response that does not stream and whose text, if any, is a string.
abbrev pub IsLoggedAtOnce : Handler → RequestMeta → Outcome → Type 0
IsLoggedAtOnce h meta (raised exc) = Unit
IsLoggedAtOnce h meta cancelled = ⊥
IsLoggedAtOnce h meta (returned resp) =
    (400 ≤ resp.status_code)
    ⊎ ((meta.streaming ≡ false) × (output_str (parsed_response h resp).output_text ≢ none))

module _ (py : Python) (subn : Subn) where
  no_output : output_str empty_meta.output_text ≢ none
  unfolding truthy
  no_output = ground arith

  taken-emit_safe :
      (w : World) (m : Moment) (h : Handler) (meta : RequestMeta) (rt : Runtime) (status : Status)
      (response : ResponseMeta) (error_type error_message : Option Text)
      → rt.redactor.custom ≡ none
      → rt.dispatcher.closed ≡ false
      → output_str response.output_text ≢ none
      → taken
          (emit_safe py subn w.tags m h.name meta status none response error_type error_message
            rt).dispatcher
        ≡ taken rt.dispatcher + 1
  unfolding emit_safe
  taken-emit_safe w m h meta rt status response error_type error_message c open_ o =
      let (event, e, _, _) =
        build_event_total py subn rt w.tags m h.name meta status none response error_type
          error_message c o in
      rw e (taken-emit_built py subn m event rt open_)

  -- With no custom redactor and an open dispatcher, a call that is recognised and that is logged at
  -- once, such as every failed one, reaches the dispatcher exactly once: as an event that is queued
  -- or as one that is counted as dropped.
  pub observe-taken :
      (wraps : Bool) (w : World) (m : Moment) (h : Handler) (meta : RequestMeta) (rt : Runtime)
      (o : Outcome)
      → rt.redactor.custom ≡ none
      → rt.dispatcher.closed ≡ false
      → IsLoggedAtOnce h meta o
      → (rt' : Runtime) × ((observe py subn wraps w m h meta rt o).runtime ≡ some rt')
        × (taken rt'.dispatcher ≡ taken rt.dispatcher + 1)
  unfolding observe
  observe-taken wraps w m h meta rt (raised exc) c d l =
      (_, refl, taken-emit_safe w m h meta rt error empty_meta _ _ c d no_output)
  observe-taken wraps w m h meta rt cancelled c d l = absurd l
  observe-taken wraps w m h meta rt (returned resp) c d (inl l) =
      rw (le→leb 400 resp.status_code l)
        (_, refl, taken-emit_safe w m h meta rt error empty_meta _ _ c d no_output)
  observe-taken wraps w m h meta rt (returned resp) c d (inr l) =
      elim (Bool-cases (leb 400 resp.status_code)) [
        | inl e ↦ rw e (_, refl, taken-emit_safe w m h meta rt error empty_meta _ _ c d no_output)
        | inr e ↦
            let streams : meta.streaming ≡ false = l.0 in
            (
              emit_safe py subn w.tags m h.name meta success none (parsed_response h resp) none none
                  rt,
              ground arith,
              taken-emit_safe w m h meta rt success (parsed_response h resp) none none c d l.1,
            )
      ]
