-- ===== src/Sdk/Client/Streams.antt =====
-- `LoggedLLMClient.stream`.
use inferlog.Prelude.{
  ℕ, ◌+◌, ◌≡◌, refl, ◌∙◌, Bool, true, false, not, ◌&&◌, Option, none, some, List, [], ◌∷◌, ◌++◌,
  if◌then◌else◌, arith, is_empty, is_some, append-nil, append_assoc,
}
use mathlib.Core.Bool.{false≢true}
use inferlog.Prelude.Python.{Python}
use inferlog.Prelude.Text.{Text}
use inferlog.Sdk.Dispatcher.Queue.{Dispatcher}
use inferlog.Sdk.Events.{Payload, Status, success, error, cancelled}
use inferlog.Sdk.Redaction.{Subn}
use inferlog.Sdk.Runtime.{Exc, taken}
use inferlog.Sdk.Client.{
  Usage, StreamChunk, Piece, Provider, Client, Call, Report, Errors, no_usage, find_provider,
  report_event, emit_report, emit_report-taken,
}

-- The local variables of the loop, and the chunks handed to the consumer.
pub record Collected : Type 0 where
  pub ttft_ms : Option ℕ
  pub usage : Usage
  pub collected : Text
  pub forwarded : List StreamChunk

-- How the generator ends, if it is not left open.
pub data StreamEnd : Type 0 where
  left_open : StreamEnd
  exhausted : StreamEnd
  closed_early : StreamEnd
  raised : Exc → StreamEnd

pub record Streamed : Type 0 where
  pub forwarded : List StreamChunk
  pub ending : StreamEnd
  pub dispatcher : Dispatcher Payload
  pub inside_explicit : Bool

abbrev pub nothing_collected : Collected
nothing_collected = record { ttft_ms = none; usage = no_usage; collected = []; forwarded = [] }

-- `if ttft_ms is None: ttft_ms = _elapsed_ms(clock)`
unfoldable pub first_time : Option ℕ → ℕ → Option ℕ
first_time none elapsed = some elapsed
first_time (some time) elapsed = some time

unfoldable pub last_usage : Option Usage → Usage → Usage
last_usage none usage = usage
last_usage (some new) usage = new

-- `chunk.text or chunk.usage`
abbrev pub is_carried : StreamChunk → Bool
is_carried k = not (is_empty k.text && not (is_some k.usage))

unfoldable pub take_chunk : StreamChunk → ℕ → Collected → Collected
unfolding first_time last_usage
take_chunk k elapsed s = record {
  ttft_ms = if is_empty k.text then s.ttft_ms else first_time s.ttft_ms elapsed;
  usage = last_usage k.usage s.usage;
  collected = s.collected ++ k.text;
  forwarded = if is_carried k then s.forwarded ++ (k ∷ []) else s.forwarded;
}

-- The chunks with text or usage before the end.
abbrev pub carried : List Piece → List StreamChunk
carried [] = []
carried (Piece.chunk k elapsed ∷ pieces) =
    if is_carried k then k ∷ carried pieces else carried pieces
carried (piece ∷ pieces) = []

-- How a stream ends.
abbrev pub end_of : List Piece → StreamEnd
end_of [] = left_open
end_of (Piece.chunk k elapsed ∷ pieces) = end_of pieces
end_of (Piece.finish ∷ pieces) = exhausted
end_of (Piece.stop ∷ pieces) = closed_early
end_of (Piece.failure exc ∷ pieces) = raised exc

abbrev pub has_end : List Piece → Bool
has_end [] = false
has_end (Piece.chunk k elapsed ∷ pieces) = has_end pieces
has_end (piece ∷ pieces) = true

forwarded-carried :
    (k : StreamChunk) (elapsed : ℕ) (s : Collected) (pieces : List Piece)
    → (take_chunk k elapsed s).forwarded ++ carried pieces
      ≡ s.forwarded ++ carried (Piece.chunk k elapsed ∷ pieces)
unfolding take_chunk
forwarded-carried k elapsed s pieces =
    ground (arith, append_assoc s.forwarded (k ∷ []) (carried pieces))

module _ (py : Python) (subn : Subn) (errors : Errors) where
  -- The `finally`: where `_emit` raises, the mark of the explicit call is not taken back.
  unfoldable pub settle_stream :
      Call → StreamEnd → List StreamChunk → Dispatcher Payload × Bool → Streamed
  settle_stream call ending forwarded (d, ok) = record {
    forwarded = forwarded;
    ending = if ok then ending else raised errors.redactor_error;
    dispatcher = d;
    inside_explicit = if ok then call.inside_explicit else true;
  }

  unfoldable pub stream_report : Status → Option Exc → Collected → Report
  stream_report status exc s = record {
    status = status;
    streamed = true;
    ttft_ms = s.ttft_ms;
    usage = s.usage;
    output_text = some s.collected;
    exc = exc;
  }

  unfoldable pub finish_stream :
      Client → Call → Status → Option Exc → StreamEnd → Collected → Dispatcher Payload → Streamed
  unfolding stream_report settle_stream
  finish_stream c call status exc ending s d =
      settle_stream call ending s.forwarded
        (emit_report py subn call (report_event py subn c call (stream_report status exc s)) d)

  -- The `async for`, and what ends it.
  unfoldable pub run_pieces : Client → Call → List Piece → Collected → Dispatcher Payload → Streamed
  unfolding take_chunk
  run_pieces c call [] s d = record {
    forwarded = s.forwarded;
    ending = left_open;
    dispatcher = d;
    inside_explicit = true;
  }
  run_pieces c call (Piece.chunk k elapsed ∷ pieces) s d =
      run_pieces c call pieces (take_chunk k elapsed s) d
  run_pieces c call (Piece.finish ∷ pieces) s d = finish_stream c call success none exhausted s d
  run_pieces c call (Piece.stop ∷ pieces) s d = finish_stream c call cancelled none closed_early s d
  run_pieces c call (Piece.failure exc ∷ pieces) s d =
      finish_stream c call error (some exc) (raised exc) s d

  unfoldable pub stream_with : Client → Call → Option Provider → Dispatcher Payload → Streamed
  stream_with c call none d = record {
    forwarded = [];
    ending = raised (errors.unknown_provider call.provider);
    dispatcher = d;
    inside_explicit = call.inside_explicit;
  }
  stream_with c call (some p) d =
      run_pieces c call (p.stream true call.model call.messages) nothing_collected d

  unfoldable pub stream : Client → Call → Dispatcher Payload → Streamed
  stream c call d = stream_with c call (find_provider call.provider c.providers) d

  -- How a stream that came to an end leaves the host, the mark and the dispatcher.
  pub record IsLogged (call : Call) (d : Dispatcher Payload) (forwarded : List StreamChunk)
      (ending : StreamEnd) (r : Streamed) : Type 0 where
    pub forwarded_all : r.forwarded ≡ forwarded
    pub ending_same : r.ending ≡ ending
    pub unmarked : r.inside_explicit ≡ call.inside_explicit
    pub taken_once : taken r.dispatcher ≡ taken d + 1

  finish_stream-IsLogged :
      (c : Client) (call : Call) (status : Status) (exc : Option Exc) (ending : StreamEnd)
      (s : Collected) (d : Dispatcher Payload)
      → c.redactor.custom ≡ none
      → d.closed ≡ false
      → IsLogged call d s.forwarded ending (finish_stream c call status exc ending s d)
  unfolding finish_stream settle_stream
  finish_stream-IsLogged c call status exc ending s d h o =
      let (once, ok) = emit_report-taken py subn c call (stream_report status exc s) d h o in
      record {
        forwarded_all = refl;
        ending_same = rw ok refl;
        unmarked = rw ok refl;
        taken_once = once;
      }

  run_pieces-IsLogged :
      (c : Client) (call : Call) (pieces : List Piece) (s : Collected) (d : Dispatcher Payload)
      → c.redactor.custom ≡ none
      → d.closed ≡ false
      → has_end pieces ≡ true
      → IsLogged call d
          (s.forwarded ++ carried pieces)
          (end_of pieces)
          (run_pieces c call pieces s d)
  unfolding run_pieces
  run_pieces-IsLogged c call [] s d h o e = absurd (false≢true e)
  run_pieces-IsLogged c call (Piece.chunk k elapsed ∷ pieces) s d h o e =
      let rest = run_pieces-IsLogged c call pieces (take_chunk k elapsed s) d h o e in
      record {
        forwarded_all = rest.forwarded_all ∙ forwarded-carried k elapsed s pieces;
        ending_same = rest.ending_same;
        unmarked = rest.unmarked;
        taken_once = rest.taken_once;
      }
  run_pieces-IsLogged c call (Piece.finish ∷ pieces) s d h o e =
      rw (append-nil s.forwarded) (finish_stream-IsLogged c call success none exhausted s d h o)
  run_pieces-IsLogged c call (Piece.stop ∷ pieces) s d h o e =
      rw (append-nil s.forwarded)
        (finish_stream-IsLogged c call cancelled none closed_early s d h o)
  run_pieces-IsLogged c call (Piece.failure exc ∷ pieces) s d h o e =
      rw (append-nil s.forwarded)
        (finish_stream-IsLogged c call error (some exc) (raised exc) s d h o)

  -- With no custom redactor and an open dispatcher, a stream of a registered provider that comes to an
  -- end hands on exactly the chunks that carry text or usage, in order, and ends for the host as the
  -- provider's stream does; the mark of the explicit call is taken back; and exactly one event reaches
  -- the dispatcher, queued or counted as dropped.
  pub stream-IsLogged :
      (c : Client) (call : Call) (p : Provider) (d : Dispatcher Payload)
      → c.redactor.custom ≡ none
      → d.closed ≡ false
      → find_provider call.provider c.providers ≡ some p
      → has_end (p.stream true call.model call.messages) ≡ true
      → let pieces = p.stream true call.model call.messages in
        IsLogged call d (carried pieces) (end_of pieces) (stream c call d)
  unfolding stream stream_with
  stream-IsLogged c call p d h o e l = rw e (
      run_pieces-IsLogged c call (p.stream true call.model call.messages) nothing_collected d h o l)
