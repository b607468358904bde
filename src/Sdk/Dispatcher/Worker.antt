-- ===== src/Sdk/Dispatcher/Worker.antt =====
-- The background task (`_run`), `aclose`, and what happens around them, one atomic step at a time.
--
-- Between two `await`s the event loop runs one task alone, so a step is what happens from one
-- `await` to the next. `arrived`, `lost` and `discarded` are kept for the theorems only: the events
-- handed over, those that were in flight when the task was cancelled or had no attempt allowed, and
-- those that were submitted when the dispatcher was closed already.
pub mod Accounts
pub mod Bounds
pub mod Drain
use inferlog.Prelude.{
  ℕ, zero, suc, ◌+◌, ◌-◌, ◌*◌, ◌≤◌, ◌<◌, ◌≡◌, refl, Bool, true, false, not, ◌&&◌, ◌||◌, List, [],
  ◌∷◌, ◌++◌, ltb, leb, ◌==◌, if◌then◌else◌, length, length-append, arith, is_empty,
}
use inferlog.Sdk.Dispatcher.Sink.{Reply, sent, transient, failed}
use inferlog.Sdk.Dispatcher.Queue.{
  Dispatcher, DropReason, sampled, Task, unstarted, running, done, drop_events, submit,
  collect_batch, collect_batch-append, length-collect_batch-le,
}
use inferlog.Sdk.Dispatcher.Delivery.{Progress, finished, again, attempt_once}

-- Where the background task is: waiting for an event, or between the attempts of a delivery.
pub data Phase {ℓ} (P : Type ℓ) : Type ℓ where
  waiting : Phase P
  sending : List P → ℕ → ℕ → Phase P

pub record System {ℓ} (P : Type ℓ) : Type ℓ where
  pub dispatcher : Dispatcher P
  pub phase : Phase P
  pub arrived : ℕ
  pub lost : ℕ
  pub discarded : ℕ

pub data Input {ℓ} (P : Type ℓ) : Type ℓ where
  -- `submit`, with or without a running event loop
  submitted : Bool → P → Input P
  -- the client or the capture drops an event by its sampler
  sampled_out : Input P
  -- the task goes round its loop: it ends, or collects a batch
  turn : Input P
  -- the sink's `send` ends
  replied : Reply → Input P
  -- `aclose` begins; its wait runs out and cancels the task; it ends
  close_begins : Input P
  drain_timeout : Input P
  close_ends : Input P

abbrev pub is_running : Task → Bool
is_running running = true
is_running _ = false

module _ {ℓ} {P : Type ℓ} where
  -- A batch is taken; with no attempt allowed the `for` loop of the delivery has no round.
  unfoldable pub begin_delivery : List P × List P → System P → System P
  begin_delivery ([], rest) s = s
  begin_delivery (event ∷ batch, rest) s =
      let d = record s.dispatcher { queue = rest } in
      if d.max_retries == 0
      then record s { dispatcher = d; lost = s.lost + length (event ∷ batch) }
      else record s { dispatcher = d; phase = sending (event ∷ batch) 1 250 }

  unfoldable pub run_turn : System P → System P
  unfolding begin_delivery
  run_turn s =
      if s.dispatcher.closing && is_empty s.dispatcher.queue
      then record s { dispatcher = record s.dispatcher { task = done } }
      else begin_delivery (collect_batch s.dispatcher.batch_size s.dispatcher.queue) s

  unfoldable pub on_progress : List P → ℕ → ℕ → Progress P → System P → System P
  on_progress batch attempt delay (finished d) s = record s { dispatcher = d; phase = waiting }
  on_progress batch attempt delay (again p) s = record s {
    phase = sending batch (attempt + 1) (delay * 2);
  }

  unfoldable pub on_reply : Reply → Phase P → System P → System P
  unfolding on_progress attempt_once
  on_reply r waiting s = s
  on_reply r (sending batch attempt delay) s =
      on_progress batch attempt delay (attempt_once attempt delay batch r s.dispatcher) s

  -- `self._task.cancel()`: the batch in flight is neither delivered nor dropped.
  unfoldable pub cancel_task : Phase P → System P → System P
  cancel_task waiting s = record s { dispatcher = record s.dispatcher { task = done } }
  cancel_task (sending batch attempt delay) s = record s {
    dispatcher = record s.dispatcher { task = done };
    phase = waiting;
    lost = s.lost + length batch;
  }

  abbrev pub is_waiting : Phase P → Bool
  is_waiting waiting = true
  is_waiting (sending batch attempt delay) = false

  -- An input that cannot happen in a state changes nothing.
  unfoldable pub step : Input P → System P → System P
  unfolding run_turn on_reply cancel_task submit drop_events
  step (submitted loop event) s = record s {
    dispatcher = submit loop event s.dispatcher;
    arrived = s.arrived + 1;
    discarded = if s.dispatcher.closed then s.discarded + 1 else s.discarded;
  }
  step sampled_out s = record s {
    dispatcher = drop_events 1 sampled s.dispatcher;
    arrived = s.arrived + 1;
  }
  step turn s = if is_running s.dispatcher.task && is_waiting s.phase then run_turn s else s
  step (replied r) s = if is_running s.dispatcher.task then on_reply r s.phase s else s
  step close_begins s =
      if s.dispatcher.closed
      then s
      else record s { dispatcher = record s.dispatcher { closing = true } }
  step drain_timeout s =
      if s.dispatcher.closing && is_running s.dispatcher.task && not s.dispatcher.closed
      then cancel_task s.phase s
      else s
  step close_ends s =
      if s.dispatcher.closing && not (is_running s.dispatcher.task)
      then record s { dispatcher = record s.dispatcher { closed = true } }
      else s

  unfoldable pub run : List (Input P) → System P → System P
  run [] s = s
  run (i ∷ inputs) s = run inputs (step i s)
