-- ===== src/Sdk/Auto/Capture/Host.antt =====
-- What the host sees of a captured call of sdk/inferlog/auto.py.
use inferlog.Prelude.{
  ◌≡◌, ◌⊎◌, refl, ap, ◌∙◌, Bool, true, false, not, ◌&&◌, ◌||◌, Option, none, some, if◌then◌else◌,
  arith, leb, ◌<◌, Bool-cases, Option-cases, inl, inr,
}
use mathlib.Core.Option.{some-injective}
use inferlog.Prelude.Python.{Python}
use inferlog.Sdk.Parsers.Registry.{Handler, identify}
use inferlog.Sdk.Parsers.Requests.{Request, RequestMeta}
use inferlog.Sdk.Parsers.Values.{◌>>=◌}
use inferlog.Sdk.Redaction.{Subn}
use inferlog.Sdk.Runtime.{Runtime, Moment, Exc}
use inferlog.Sdk.Auto.Capture.{
  Response, Outcome, World, returned, raised, cancelled, observe, recognise, proceed, capture,
  capture_async, capture_sync, handle_async_request,
}

-- What a result of a chain of options rests on.
bind-some :
    {A B : Type 0} (o : Option A) (f : A → Option B) (b : B)
    → (o >>= f) ≡ some b
    → (a : A) × (o ≡ some a) × (f a ≡ some b)
bind-some none f b e = ground arith
bind-some (some a) f b e = (a, refl, e)

if-some :
    {A : Type 0} (b : Bool) (o : Option A) (a : A) → (if b then none else o) ≡ some a → o ≡ some a
if-some true o a e = ground arith
if-some false o a e = e

-- The outcome for the host is that of the original, unless the handler of the request makes no
-- parser for a response that streams: then it is the exception of the handler.
abbrev pub IsOriginalOr : Option Handler → Outcome → Outcome → Type 0
IsOriginalOr found o seen =
    (seen ≡ o)
    ⊎ ((h : Handler) × (exc : Exc) × (resp : Response) × (found ≡ some h)
        × (h.make_stream_parser ≡ some exc)
        × (o ≡ returned resp)
        × (resp.status_code < 400)
        × (seen ≡ raised exc))

module _ (py : Python) (subn : Subn) where
  observe_outcome :
      (wraps : Bool) (w : World) (m : Moment) (h : Handler) (meta : RequestMeta) (rt : Runtime)
      (o : Outcome)
      → IsOriginalOr (some h) o (observe py subn wraps w m h meta rt o).outcome
  unfolding observe
  observe_outcome wraps w m h meta rt (raised exc) = inl refl
  observe_outcome wraps w m h meta rt cancelled = inl refl
  observe_outcome wraps w m h meta rt (returned resp) =
      elim (Bool-cases (leb 400 resp.status_code)) [
        | inl e ↦ inl (ground arith)
        | inr e ↦ elim (Bool-cases (meta.streaming && wraps)) [
          | inr f ↦ inl (ground arith)
          | inl f ↦ elim (Option-cases h.make_stream_parser) [
            | inl g ↦ inl (ground arith)
            | inr (exc, g) ↦ inr (h, exc, resp, refl, g, refl, ground arith, ground arith)
          ]
        ]
      ]

  observe_sync_outcome :
      (w : World) (m : Moment) (h : Handler) (meta : RequestMeta) (rt : Runtime) (o : Outcome)
      → (observe py subn false w m h meta rt o).outcome ≡ o
  unfolding observe
  observe_sync_outcome w m h meta rt (raised exc) = refl
  observe_sync_outcome w m h meta rt cancelled = refl
  observe_sync_outcome w m h meta rt (returned resp) = ground arith

  recognise-identify :
      (aside : Bool) (w : World) (request : Request) (rt : Runtime) (h : Handler)
      (meta : RequestMeta)
      → recognise py subn aside w request ≡ some (rt, h, meta)
      → identify w.handlers request ≡ some h
  unfolding recognise
  recognise-identify aside w request rt h meta e =
      let (rt', _, e') = bind-some w.runtime _ (rt, h, meta) e in
      let (h', f, e'') =
        bind-some (if not rt'.enabled || aside then none else identify w.handlers request) _
          (rt, h, meta) e' in
      let (meta', _, g) = bind-some (h'.parse_request request) _ (rt, h, meta) e'' in
      if-some (not rt'.enabled || aside) (identify w.handlers request) h' f
      ∙ ap some (ap (λ t. t.1) (some-injective (rt', h', meta') (rt, h, meta) g))

  capture-IsOriginalOr :
      (wraps aside : Bool) (w : World) (m : Moment) (original : Request → Outcome)
      (request : Request)
      → IsOriginalOr
          (identify w.handlers request)
          (original request)
          (capture py subn wraps aside w m original request).outcome
  unfolding capture proceed
  capture-IsOriginalOr wraps aside w m original request =
      elim (Option-cases (recognise py subn aside w request)) [
        | inl e ↦ rw e (inl refl)
        | inr ((rt, h, meta), e) ↦
            rw (e, recognise-identify aside w request rt h meta e)
              (observe_outcome wraps w m h meta rt (original request))
      ]

  proceed_sync_outcome :
      (w : World) (m : Moment) (o : Outcome) (r : Option (Runtime × Handler × RequestMeta))
      → (proceed py subn false w m o r).outcome ≡ o
  unfolding proceed
  proceed_sync_outcome w m o none = refl
  proceed_sync_outcome w m o (some (rt, h, meta)) = observe_sync_outcome w m h meta rt o

  -- Whatever the handlers, the redactor, the sampler and the dispatcher do, the host sees exactly what
  -- the original `send` gives on the synchronous path, and so it does on the asynchronous and the
  -- transport path, unless the response is no error, it streams, and the handler that the request is
  -- identified by raises where it should make a parser: then the host sees that exception.
  pub capture_outcome :
      (w : World) (m : Moment) (original : Request → Outcome) (request : Request)
      → ((capture_sync py subn w m original request).outcome ≡ original request)
        × IsOriginalOr
            (identify w.handlers request)
            (original request)
            (capture_async py subn w m original request).outcome
        × IsOriginalOr
            (identify w.handlers request)
            (original request)
            (handle_async_request py subn w m original request).outcome
  unfolding capture_async capture_sync handle_async_request capture
  capture_outcome w m original request = (
    proceed_sync_outcome w m (original request) (recognise py subn w.inside_explicit w request),
    capture-IsOriginalOr true w.inside_explicit w m original request,
    capture-IsOriginalOr true (w.installed || w.inside_explicit) w m original request,
  )
