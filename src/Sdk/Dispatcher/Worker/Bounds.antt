-- ===== src/Sdk/Dispatcher/Worker/Bounds.antt =====
-- What bounds the memory of the dispatcher, what its callback has been told, and when nothing is
-- lost.
use inferlog.Prelude.{
  ℕ, ◌+◌, ◌-◌, ◌≤◌, ◌<◌, ◌≡◌, ◌⊎◌, Bool, true, List, [], ◌∷◌, ◌++◌, length, length-append, arith,
  ap, All,
}
use inferlog.Sdk.Dispatcher.Sink.{Reply}
use inferlog.Sdk.Dispatcher.Queue.{
  DropReason, drop_events, submit, collect_batch, collect_batch-append, length-collect_batch-le,
}
use inferlog.Sdk.Dispatcher.Worker.{
  System, Input, submitted, sampled_out, turn, replied, close_begins, drain_timeout, close_ends,
  begin_delivery, run_turn, on_reply, cancel_task, step, run,
}
use inferlog.Sdk.Dispatcher.Worker.Accounts.{in_flight, IsBalanced, handed_over, run-IsBalanced}

-- The number of events that a list of calls of the callback reports.
abbrev pub reported : List (ℕ × DropReason) → ℕ
reported [] = 0
reported ((count, reason) ∷ notices) = count + reported notices

-- The queue and the batch in flight are bounded, and a registered callback knows of every drop.
pub record IsBounded {ℓ} {P : Type ℓ} (s : System P) : Type 0 where
  pub queue_bound : 0 < s.dispatcher.max_queue → length s.dispatcher.queue ≤ s.dispatcher.max_queue
  pub batch_bound : in_flight s.phase ≤ s.dispatcher.batch_size - 1 + 1
  pub all_reported :
      s.dispatcher.on_drop ≡ true → reported s.dispatcher.notices ≡ s.dispatcher.dropped

-- Nothing has been lost, and at least one attempt is allowed.
pub record IsLossless {ℓ} {P : Type ℓ} (s : System P) : Type 0 where
  pub attempts : 0 < s.dispatcher.max_retries
  pub none_lost : s.lost ≡ 0

abbrev pub IsNoTimeout {ℓ} : {P : Type ℓ} → Input P → Type 0
IsNoTimeout drain_timeout = ⊥
IsNoTimeout _ = Unit

module _ {ℓ} {P : Type ℓ} where
  submit-IsBounded :
      (loop : Bool) (event : P) (s : System P)
      → IsBounded s
      → IsBounded (step (submitted loop event) s)
  unfolding step submit
  submit-IsBounded loop event s h = ground (arith, length-append s.dispatcher.queue (event ∷ []))

  begin_delivery-IsBounded :
      (batch rest : List P) (s : System P)
      → batch ++ rest ≡ s.dispatcher.queue
      → length batch ≤ s.dispatcher.batch_size - 1 + 1
      → IsBounded s
      → IsBounded (begin_delivery (batch, rest) s)
  unfolding begin_delivery
  begin_delivery-IsBounded [] rest s e l h = h
  begin_delivery-IsBounded (event ∷ batch) rest s e l h =
      ground (arith, length-append (event ∷ batch) rest, ap length e)

  turn-IsBounded : (s : System P) → IsBounded s → IsBounded (step turn s)
  unfolding step run_turn
  turn-IsBounded s h =
      let batch = collect_batch s.dispatcher.batch_size s.dispatcher.queue in
      ground (
        arith,
        begin_delivery-IsBounded batch.0 batch.1 s,
        collect_batch-append s.dispatcher.batch_size s.dispatcher.queue,
        length-collect_batch-le s.dispatcher.batch_size s.dispatcher.queue,
      )

  on_reply-IsBounded : (r : Reply) (s : System P) → IsBounded s → IsBounded (on_reply r s.phase s)
  unfolding on_reply drop_events
  on_reply-IsBounded r s h = ground arith

  step-IsBounded : (i : Input P) (s : System P) → IsBounded s → IsBounded (step i s)
  unfolding step drop_events cancel_task
  step-IsBounded (submitted loop event) s h = submit-IsBounded loop event s h
  step-IsBounded sampled_out s h = ground arith
  step-IsBounded turn s h = turn-IsBounded s h
  step-IsBounded (replied r) s h = ground (arith, on_reply-IsBounded r s h)
  step-IsBounded close_begins s h = ground arith
  step-IsBounded drain_timeout s h = ground arith
  step-IsBounded close_ends s h = ground arith

  -- After any sequence of steps a queue with a maximum stays within it, a batch in flight is within
  -- the batch size (or one event), and a registered `on_drop` has been told of exactly the events
  -- that the `dropped` counter counts.
  pub run-IsBounded :
      (inputs : List (Input P)) (s : System P) → IsBounded s → IsBounded (run inputs s)
  unfolding run
  run-IsBounded [] s h = h
  run-IsBounded (i ∷ inputs) s h = run-IsBounded inputs (step i s) (step-IsBounded i s h)

  begin_delivery-IsLossless :
      (c : List P × List P) (s : System P) → IsLossless s → IsLossless (begin_delivery c s)
  unfolding begin_delivery
  begin_delivery-IsLossless ([], rest) s h = h
  begin_delivery-IsLossless (event ∷ batch, rest) s h = ground arith

  step-IsLossless :
      (i : Input P) (s : System P) → IsNoTimeout i → IsLossless s → IsLossless (step i s)
  unfolding step submit drop_events run_turn on_reply
  step-IsLossless (submitted loop event) s n h = ground arith
  step-IsLossless sampled_out s n h = ground arith
  step-IsLossless turn s n h = ground (
    arith,
    begin_delivery-IsLossless (collect_batch s.dispatcher.batch_size s.dispatcher.queue) s h,
  )
  step-IsLossless (replied r) s n h = ground arith
  step-IsLossless close_begins s n h = ground arith
  step-IsLossless drain_timeout s n h = absurd n
  step-IsLossless close_ends s n h = ground arith

  run-keeps_all :
      (inputs : List (Input P)) (s : System P)
      → All IsNoTimeout inputs
      → IsLossless s
      → IsLossless (run inputs s)
  unfolding run
  run-keeps_all [] s n h = h
  run-keeps_all (i ∷ inputs) s n h = run-keeps_all inputs (step i s) n.1 (step-IsLossless i s n.0 h)

  -- From a state whose accounts balance and that has lost nothing, with at least one attempt allowed
  -- and as long as the wait of `aclose` does not run out: the events handed over before and by the
  -- inputs are, each once, in the queue, in flight, delivered, dropped, or were discarded, and none
  -- of the inputs' events was discarded unless the dispatcher is closed at the end.
  pub run-IsLossless :
      (inputs : List (Input P)) (s : System P)
      → All IsNoTimeout inputs
      → IsLossless s
      → IsBalanced s
      → let s' = run inputs s in
        (s.arrived + handed_over inputs
          ≡ length s'.dispatcher.queue
            + in_flight s'.phase
            + s'.dispatcher.delivered
            + s'.dispatcher.dropped
            + s'.discarded)
        × ((s'.dispatcher.closed ≡ true) ⊎ (s'.discarded ≡ s.discarded))
  run-IsLossless inputs s n h b =
      let a = run-IsBalanced inputs s b in
      let l = run-keeps_all inputs s n h in
      (omega (arith, a.balanced.balance, a.all_arrived, l.none_lost), a.open_discards)
