-- ===== src/Sdk/Dispatcher/Worker/Accounts.antt =====
-- Where the events are that are handed over, after every sequence of steps.
use inferlog.Prelude.{
  ℕ, suc, ◌+◌, ◌≡◌, ◌⊎◌, inl, inr, refl, ◌∙◌, Bool, true, List, [], ◌∷◌, ◌++◌, length,
  length-append, arith, ap,
}
use inferlog.Sdk.Dispatcher.Sink.{Reply}
use inferlog.Sdk.Dispatcher.Queue.{drop_events, submit, collect_batch, collect_batch-append}
use inferlog.Sdk.Dispatcher.Worker.{
  Phase, waiting, sending, System, Input, submitted, sampled_out, turn, replied, close_begins,
  drain_timeout, close_ends, begin_delivery, run_turn, on_reply, cancel_task, step, run,
}

-- The events of the batch in flight.
abbrev pub in_flight {ℓ} : {P : Type ℓ} → Phase P → ℕ
in_flight waiting = 0
in_flight (sending batch attempt delay) = length batch

-- Every event handed over is queued, in flight, delivered, dropped, lost, or discarded, and is
-- counted once.
pub record IsBalanced {ℓ} {P : Type ℓ} (s : System P) : Type 0 where
  pub balance :
      s.arrived
      ≡ length s.dispatcher.queue
        + in_flight s.phase
        + s.dispatcher.delivered
        + s.dispatcher.dropped
        + s.lost
        + s.discarded

-- The events that a sequence of inputs hands over.
abbrev pub handed_over {ℓ} : {P : Type ℓ} → List (Input P) → ℕ
handed_over [] = 0
handed_over (submitted loop event ∷ inputs) = suc (handed_over inputs)
handed_over (sampled_out ∷ inputs) = suc (handed_over inputs)
handed_over (turn ∷ inputs) = handed_over inputs
handed_over (replied r ∷ inputs) = handed_over inputs
handed_over (close_begins ∷ inputs) = handed_over inputs
handed_over (drain_timeout ∷ inputs) = handed_over inputs
handed_over (close_ends ∷ inputs) = handed_over inputs

-- The end of a sequence of steps: every event of it has been counted as handed over, the accounts
-- balance, and events are discarded only once the dispatcher is closed.
pub record IsAccounted {ℓ} {P : Type ℓ} (inputs : List (Input P)) (s s' : System P) : Type 0 where
  pub balanced : IsBalanced s'
  pub all_arrived : s'.arrived ≡ s.arrived + handed_over inputs
  pub open_discards : (s'.dispatcher.closed ≡ true) ⊎ (s'.discarded ≡ s.discarded)

module _ {ℓ} {P : Type ℓ} where
  submit-IsBalanced :
      (loop : Bool) (event : P) (s : System P)
      → IsBalanced s
      → IsBalanced (step (submitted loop event) s)
  unfolding step submit
  submit-IsBalanced loop event s h = ground (arith, length-append s.dispatcher.queue (event ∷ []))

  begin_delivery-IsBalanced :
      (batch rest : List P) (s : System P)
      → s.phase ≡ waiting
      → batch ++ rest ≡ s.dispatcher.queue
      → IsBalanced s
      → IsBalanced (begin_delivery (batch, rest) s)
  unfolding begin_delivery
  begin_delivery-IsBalanced [] rest s w e h = h
  begin_delivery-IsBalanced (event ∷ batch) rest s w e h =
      ground (arith, length-append (event ∷ batch) rest, ap length e)

  turn-IsBalanced : (s : System P) → IsBalanced s → IsBalanced (step turn s)
  unfolding step run_turn
  turn-IsBalanced s h =
      let batch = collect_batch s.dispatcher.batch_size s.dispatcher.queue in
      ground (
        arith,
        begin_delivery-IsBalanced batch.0 batch.1 s,
        collect_batch-append s.dispatcher.batch_size s.dispatcher.queue,
      )

  on_reply-IsBalanced :
      (r : Reply) (s : System P) → IsBalanced s → IsBalanced (on_reply r s.phase s)
  unfolding on_reply drop_events
  on_reply-IsBalanced r s h = ground arith

  step-IsBalanced : (i : Input P) (s : System P) → IsBalanced s → IsBalanced (step i s)
  unfolding step drop_events cancel_task
  step-IsBalanced (submitted loop event) s h = submit-IsBalanced loop event s h
  step-IsBalanced sampled_out s h = ground arith
  step-IsBalanced turn s h = turn-IsBalanced s h
  step-IsBalanced (replied r) s h = ground (arith, on_reply-IsBalanced r s h)
  step-IsBalanced close_begins s h = ground arith
  step-IsBalanced drain_timeout s h = ground arith
  step-IsBalanced close_ends s h = ground arith

  -- What a step does to the counts that are kept for the theorems, and to `closed`.
  step-discarded :
      (i : Input P) (s : System P)
      → ((step i s).discarded ≡ s.discarded)
        ⊎ ((s.dispatcher.closed ≡ true) × ((step i s).dispatcher.closed ≡ true))
  unfolding step submit run_turn begin_delivery on_reply cancel_task drop_events
  step-discarded (submitted loop event) s = ground arith
  step-discarded sampled_out s = inl refl
  step-discarded turn s = ground arith
  step-discarded (replied r) s = ground arith
  step-discarded close_begins s = ground arith
  step-discarded drain_timeout s = ground arith
  step-discarded close_ends s = ground arith

  step-closed :
      (i : Input P) (s : System P)
      → s.dispatcher.closed ≡ true
      → (step i s).dispatcher.closed ≡ true
  unfolding step submit run_turn begin_delivery on_reply cancel_task drop_events
  step-closed (submitted loop event) s h = ground arith
  step-closed sampled_out s h = ground arith
  step-closed turn s h = ground arith
  step-closed (replied r) s h = ground arith
  step-closed close_begins s h = ground arith
  step-closed drain_timeout s h = ground arith
  step-closed close_ends s h = ground arith

  run-closed :
      (inputs : List (Input P)) (s : System P)
      → s.dispatcher.closed ≡ true
      → (run inputs s).dispatcher.closed ≡ true
  unfolding run
  run-closed [] s h = h
  run-closed (i ∷ inputs) s h = run-closed inputs (step i s) (step-closed i s h)

  run-discarded :
      (inputs : List (Input P)) (s : System P)
      → ((run inputs s).dispatcher.closed ≡ true) ⊎ ((run inputs s).discarded ≡ s.discarded)
  unfolding run
  run-discarded [] s = inr refl
  run-discarded (i ∷ inputs) s = elim (step-discarded i s) [
    | inr (h, k) ↦ inl (run-closed inputs (step i s) k)
    | inl e ↦ elim (run-discarded inputs (step i s)) [ inl k ↦ inl k | inr f ↦ inr (f ∙ e) ]
  ]

  step-arrived :
      (i : Input P) (s : System P) → (step i s).arrived ≡ s.arrived + handed_over (i ∷ [])
  unfolding step submit run_turn begin_delivery on_reply cancel_task drop_events
  step-arrived (submitted loop event) s = ground arith
  step-arrived sampled_out s = ground arith
  step-arrived turn s = ground arith
  step-arrived (replied r) s = ground arith
  step-arrived close_begins s = ground arith
  step-arrived drain_timeout s = ground arith
  step-arrived close_ends s = ground arith

  handed_over-cons :
      (i : Input P) (inputs : List (Input P))
      → handed_over (i ∷ inputs) ≡ handed_over (i ∷ []) + handed_over inputs
  handed_over-cons (submitted loop event) inputs = omega arith
  handed_over-cons sampled_out inputs = omega arith
  handed_over-cons turn inputs = omega arith
  handed_over-cons (replied r) inputs = omega arith
  handed_over-cons close_begins inputs = omega arith
  handed_over-cons drain_timeout inputs = omega arith
  handed_over-cons close_ends inputs = omega arith

  run-arrived :
      (inputs : List (Input P)) (s : System P)
      → (run inputs s).arrived ≡ s.arrived + handed_over inputs
  unfolding run
  run-arrived [] s = omega arith
  run-arrived (i ∷ inputs) s =
      omega (arith, run-arrived inputs (step i s), step-arrived i s, handed_over-cons i inputs)

  run-keeps_balance :
      (inputs : List (Input P)) (s : System P) → IsBalanced s → IsBalanced (run inputs s)
  unfolding run
  run-keeps_balance [] s h = h
  run-keeps_balance (i ∷ inputs) s h = run-keeps_balance inputs (step i s) (step-IsBalanced i s h)

  -- However submissions, turns of the task, replies of the sink and the steps of `aclose` follow one
  -- another: every event handed over, before and after the close, is queued, in flight, delivered,
  -- dropped, lost (its delivery was cancelled, or no attempt is allowed) or discarded, exactly once;
  -- and where the dispatcher is not closed at the end, none of them has been discarded.
  pub run-IsBalanced :
      (inputs : List (Input P)) (s : System P) → IsBalanced s → IsAccounted inputs s (run inputs s)
  run-IsBalanced inputs s h = record {
    balanced = run-keeps_balance inputs s h;
    all_arrived = run-arrived inputs s;
    open_discards = run-discarded inputs s;
  }
