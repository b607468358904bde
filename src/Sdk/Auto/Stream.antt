-- ===== src/Sdk/Auto/Stream.antt =====
-- `_AsyncStreamState`, and the two wrappers that drive it: `wrapped_aiter_bytes` and
-- `_CapturingAsyncByteStream.__aiter__`, which are alike.
use inferlog.Prelude.{
  ℕ, ◌≡◌, refl, ap, ◌∙◌, Bool, true, false, not, ◌&&◌, Option, none, some, List, [], ◌∷◌,
  if◌then◌else◌, arith, take, is_empty, is_some,
}
use inferlog.Prelude.Json.{null, str, Fields}
use inferlog.Prelude.Python.{Python}
use inferlog.Prelude.Text.{Text}
use inferlog.Sdk.Events.{Status, success, error, cancelled}
use inferlog.Sdk.Parsers.Registry.{Handler}
use inferlog.Sdk.Parsers.Requests.{RequestMeta}
use inferlog.Sdk.Parsers.Responses.{ResponseMeta}
use inferlog.Sdk.Parsers.Streams.Feed.{StreamParser, new_parser}
use inferlog.Sdk.Parsers.Streams.Lines.{Observed}
use inferlog.Sdk.Redaction.{Subn}
use inferlog.Sdk.Runtime.{Runtime, Moment, Exc}
use inferlog.Sdk.Auto.Classify.{label, classify_error}
use inferlog.Sdk.Auto.Emit.{emit_safe}

pub record StreamState : Type 0 where
  pub runtime : Runtime
  pub handler : Handler
  pub request_meta : RequestMeta
  pub parser : StreamParser
  pub ttft_ms : Option ℕ
  pub emitted : Bool

-- `_AsyncStreamState.__init__`
unfoldable pub new_stream : Runtime → Handler → RequestMeta → StreamState
new_stream rt h meta = record {
  runtime = rt;
  handler = h;
  request_meta = meta;
  parser = new_parser;
  ttft_ms = none;
  emitted = false;
}

-- What the consumer's iteration meets next: a chunk, with the time since the start; the end of the
-- body; a cancellation or a `GeneratorExit`; an exception.
pub data Signal : Type 0 where
  chunk : Text → ℕ → Signal
  ended : Signal
  interrupted : Signal
  failed : Exc → Signal

unfoldable pub feed_chunk : Text → ℕ → StreamState → StreamState
feed_chunk [] elapsed s = s
feed_chunk (c ∷ body) elapsed s =
    let had_output_before = not (is_empty s.parser.observed.output_text) in
    let after = s.handler.feed (c ∷ body) s.parser in
    let has_output = not (is_empty after.parser.observed.output_text) in
    record s {
      parser = after.parser;
      ttft_ms =
          if after.ok && (not had_output_before && (has_output && not (is_some s.ttft_ms)))
          then some elapsed
          else s.ttft_ms;
    }

-- `self._parser.output_text or None`, and the counts.
abbrev pub observed_meta : Observed → ResponseMeta
observed_meta o = record {
  output_text = if is_empty o.output_text then null else str o.output_text;
  prompt_tokens = o.prompt_tokens;
  completion_tokens = o.completion_tokens;
  total_tokens = o.total_tokens;
}

-- Whether an iteration comes to an end.
abbrev pub ends : List Signal → Bool
ends [] = false
ends (chunk body elapsed ∷ signals) = ends signals
ends (signal ∷ signals) = true

-- The state of the parser after the chunks of an iteration, and how the iteration ends.
abbrev pub fed_all : List Signal → StreamState → StreamState
fed_all [] s = s
fed_all (chunk body elapsed ∷ signals) s = fed_all signals (feed_chunk body elapsed s)
fed_all (signal ∷ signals) s = s

-- The status that an iteration logs: an interruption behind the parser's end mark is a success.
abbrev pub final_status : List Signal → StreamState → Status
final_status [] s = success
final_status (chunk body elapsed ∷ signals) s = final_status signals (feed_chunk body elapsed s)
final_status (ended ∷ signals) s = success
final_status (interrupted ∷ signals) s = if s.parser.observed.completed then success else cancelled
final_status (failed exc ∷ signals) s = error

abbrev pub final_exc : List Signal → Option Exc
final_exc [] = none
final_exc (chunk body elapsed ∷ signals) = final_exc signals
final_exc (failed exc ∷ signals) = some exc
final_exc (signal ∷ signals) = none

ap₃ {ℓ} :
    {A B C D : Type ℓ} (f : A → B → C → D) {a a' : A} {b b' : B} {c c' : C}
    → a ≡ a'
    → b ≡ b'
    → c ≡ c'
    → f a b c ≡ f a' b' c'
ap₃ f p q r = λ i. f (p i) (q i) (r i)

module _ (py : Python) (subn : Subn) (tags : Fields) (m : Moment) where
  unfoldable pub emit : Status → Option Exc → StreamState → StreamState
  emit status exc s = if s.emitted then s else record s {
    emitted = true;
    runtime =
        emit_safe py subn tags m s.handler.name s.request_meta status s.ttft_ms
          (observed_meta s.parser.observed)
          (elim exc [ none ↦ none | some e ↦ some (label (classify_error e)) ])
          (elim exc [ none ↦ none | some e ↦ some (take 500 e.message) ]) s.runtime;
  }

  -- One iteration by the consumer: it ends with the first signal that is no chunk. A list that holds
  -- chunks only is an iteration that is left open.
  unfoldable pub iterate : List Signal → StreamState → StreamState
  unfolding feed_chunk emit
  iterate [] s = s
  iterate (chunk body elapsed ∷ signals) s = iterate signals (feed_chunk body elapsed s)
  iterate (ended ∷ signals) s = emit success none s
  iterate (interrupted ∷ signals) s =
      emit (if s.parser.observed.completed then success else cancelled) none s
  iterate (failed exc ∷ signals) s = emit error (some exc) s

  -- The body may be iterated again.
  unfoldable pub iterate_all : List (List Signal) → StreamState → StreamState
  unfolding iterate
  iterate_all [] s = s
  iterate_all (signals ∷ others) s = iterate_all others (iterate signals s)

  -- An iteration that ends emits once, with the status and the parser's state at its end; one that is
  -- left open emits nothing.
  iterate-emit :
      (signals : List Signal) (s : StreamState)
      → iterate signals s ≡ (
          if ends signals
          then emit (final_status signals s) (final_exc signals) (fed_all signals s)
          else fed_all signals s)
  unfolding iterate
  iterate-emit [] s = refl
  iterate-emit (chunk body elapsed ∷ signals) s = iterate-emit signals (feed_chunk body elapsed s)
  iterate-emit (ended ∷ signals) s = refl
  iterate-emit (interrupted ∷ signals) s = refl
  iterate-emit (failed exc ∷ signals) s = refl

  feed_chunk_keeps :
      (body : Text) (elapsed : ℕ) (s : StreamState)
      → ((feed_chunk body elapsed s).emitted ≡ s.emitted)
        × ((feed_chunk body elapsed s).runtime ≡ s.runtime)
  unfolding feed_chunk
  feed_chunk_keeps [] elapsed s = (refl, refl)
  feed_chunk_keeps (c ∷ body) elapsed s = (refl, refl)

  iterate_silent :
      (signals : List Signal) (s : StreamState)
      → s.emitted ≡ true
      → ((iterate signals s).emitted ≡ true) × ((iterate signals s).runtime ≡ s.runtime)
  unfolding iterate emit
  iterate_silent [] s e = (e, refl)
  iterate_silent (chunk body elapsed ∷ signals) s e =
      let (same, rt) = feed_chunk_keeps body elapsed s in
      let (a, b) = iterate_silent signals (feed_chunk body elapsed s) (same ∙ e) in (a, b ∙ rt)
  iterate_silent (ended ∷ signals) s e = ground arith
  iterate_silent (interrupted ∷ signals) s e = ground arith
  iterate_silent (failed exc ∷ signals) s e = ground arith

  iterate_all_silent :
      (others : List (List Signal)) (s : StreamState)
      → s.emitted ≡ true
      → (iterate_all others s).runtime ≡ s.runtime
  unfolding iterate_all
  iterate_all_silent [] s e = refl
  iterate_all_silent (signals ∷ others) s e =
      let (a, b) = iterate_silent signals s e in iterate_all_silent others (iterate signals s) a ∙ b

  emit_emitted :
      (status : Status) (exc : Option Exc) (s : StreamState) → (emit status exc s).emitted ≡ true
  unfolding emit
  emit_emitted status exc s = ground arith

  fed_all_keeps :
      (signals : List Signal) (s : StreamState)
      → ((fed_all signals s).emitted ≡ s.emitted)
        × ((fed_all signals s).runtime ≡ s.runtime)
        × ((fed_all signals s).handler ≡ s.handler)
        × ((fed_all signals s).request_meta ≡ s.request_meta)
  unfolding feed_chunk
  fed_all_keeps [] s = (refl, refl, refl, refl)
  fed_all_keeps (chunk [] elapsed ∷ signals) s = fed_all_keeps signals s
  fed_all_keeps (chunk (c ∷ body) elapsed ∷ signals) s =
      fed_all_keeps signals (feed_chunk (c ∷ body) elapsed s)
  fed_all_keeps (signal ∷ signals) s = (refl, refl, refl, refl)

  -- The runtime after the one event of a stream that ended in the state `s`.
  unfoldable pub logged_stream :
      Status → Option Exc → StreamState → Runtime → Handler → RequestMeta → Runtime
  logged_stream status exc s rt h meta =
      emit_safe py subn tags m h.name meta status s.ttft_ms (observed_meta s.parser.observed)
        (elim exc [ none ↦ none | some e ↦ some (label (classify_error e)) ])
        (elim exc [ none ↦ none | some e ↦ some (take 500 e.message) ]) rt

  emit_logged :
      (status : Status) (exc : Option Exc) (s : StreamState)
      → s.emitted ≡ false
      → (emit status exc s).runtime ≡ logged_stream status exc s s.runtime s.handler s.request_meta
  unfolding emit logged_stream
  emit_logged status exc s e = rw e

  -- A stream is logged exactly once: if its first iteration comes to an end, the runtime is the one
  -- after the one event of that end (with the output, the counts and the time to first token that
  -- were observed by then), however often the body is iterated again.
  pub iterate_all-once :
      (signals : List Signal) (others : List (List Signal)) (rt : Runtime) (h : Handler)
      (meta : RequestMeta)
      → ends signals ≡ true
      → (iterate_all (signals ∷ others) (new_stream rt h meta)).runtime
        ≡ logged_stream
            (final_status signals (new_stream rt h meta))
            (final_exc signals)
            (fed_all signals (new_stream rt h meta))
            rt
            h
            meta
  unfolding iterate_all new_stream
  iterate_all-once signals others rt h meta e =
      let s₀ = new_stream rt h meta in
      let s = fed_all signals s₀ in
      let status = final_status signals s₀ in
      let exc = final_exc signals in
      let (fresh, runtime, handler, request_meta) = fed_all_keeps signals s₀ in
      let once : iterate signals s₀ ≡ emit status exc s =
        iterate-emit signals s₀ ∙ ap (λ b. if b then emit status exc s else s) e in
      ap (λ x. (iterate_all others x).runtime) once
      ∙ iterate_all_silent others (emit status exc s) (emit_emitted status exc s)
      ∙ emit_logged status exc s fresh
      ∙ ap₃ (logged_stream status exc s) runtime handler request_meta
