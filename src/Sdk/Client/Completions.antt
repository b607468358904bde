-- ===== src/Sdk/Client/Completions.antt =====
-- `LoggedLLMClient.complete`.
use inferlog.Prelude.{◌+◌, ◌≡◌, refl, Bool, true, false, Option, none, some, if◌then◌else◌}
use inferlog.Prelude.Python.{Python}
use inferlog.Sdk.Dispatcher.Queue.{Dispatcher}
use inferlog.Sdk.Events.{Payload, success, error, cancelled}
use inferlog.Sdk.Redaction.{Subn}
use inferlog.Sdk.Runtime.{taken}
use inferlog.Sdk.Client.{
  Completion, Ending, Provider, Client, Call, Report, Errors, no_usage, find_provider, report_event,
  emit_report, emit_report-taken,
}

pub record Completed : Type 0 where
  pub ending : Ending Completion
  pub dispatcher : Dispatcher Payload
  pub inside_explicit : Bool

-- What the `finally` reports of the awaited call.
unfoldable pub report_of : Ending Completion → Report
report_of (Ending.returned result) = record {
  status = success;
  streamed = false;
  ttft_ms = none;
  usage = result.usage;
  output_text = some result.text;
  exc = none;
}
report_of Ending.interrupted = record {
  status = cancelled;
  streamed = false;
  ttft_ms = none;
  usage = no_usage;
  output_text = none;
  exc = none;
}
report_of (Ending.raised exc) = record {
  status = error;
  streamed = false;
  ttft_ms = none;
  usage = no_usage;
  output_text = none;
  exc = some exc;
}

module _ (py : Python) (subn : Subn) (errors : Errors) where
  -- The end of the `finally`: an exception of `_emit` takes the place of the outcome.
  unfoldable pub settle_call : Call → Ending Completion → Dispatcher Payload × Bool → Completed
  settle_call call ending (d, ok) = record {
    ending = if ok then ending else Ending.raised errors.redactor_error;
    dispatcher = d;
    inside_explicit = call.inside_explicit;
  }

  unfoldable pub finish_call : Client → Call → Ending Completion → Dispatcher Payload → Completed
  unfolding report_of settle_call
  finish_call c call ending d =
      settle_call call ending
        (emit_report py subn call (report_event py subn c call (report_of ending)) d)

  unfoldable pub complete_with : Client → Call → Option Provider → Dispatcher Payload → Completed
  complete_with c call none d = record {
    ending = Ending.raised (errors.unknown_provider call.provider);
    dispatcher = d;
    inside_explicit = call.inside_explicit;
  }
  complete_with c call (some p) d = finish_call c call (p.complete true call.model call.messages) d

  unfoldable pub complete : Client → Call → Dispatcher Payload → Completed
  complete c call d = complete_with c call (find_provider call.provider c.providers) d

  -- With no custom redactor and an open dispatcher, a call of a registered provider ends for the host
  -- as the provider's call does, in success, error and cancellation alike; the mark of the explicit
  -- call is taken back; and exactly one event reaches the dispatcher, queued or counted as dropped.
  pub complete-taken :
      (c : Client) (call : Call) (p : Provider) (d : Dispatcher Payload)
      → c.redactor.custom ≡ none
      → d.closed ≡ false
      → find_provider call.provider c.providers ≡ some p
      → let r = complete c call d in
        (r.ending ≡ p.complete true call.model call.messages)
        × (r.inside_explicit ≡ call.inside_explicit)
        × (taken r.dispatcher ≡ taken d + 1)
  unfolding complete complete_with finish_call settle_call
  complete-taken c call p d h o e =
      let ending = p.complete true call.model call.messages in
      let (once, ok) = emit_report-taken py subn c call (report_of ending) d h o in
      rw e (rw ok refl, refl, once)
