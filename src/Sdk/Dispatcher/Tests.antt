-- ===== src/Sdk/Dispatcher/Tests.antt =====
-- The theorems on the dispatcher, applied to concrete dispatchers.
use inferlog.Prelude.{
  ℕ, zero, suc, ◌+◌, ◌≡◌, ◌⊎◌, length, refl, Bool, true, false, none, some, List, [], ◌∷◌, arith,
}
use inferlog.Sdk.Dispatcher.Sink.{Reply, sent, transient, failed}
use inferlog.Sdk.Dispatcher.Queue.{Dispatcher, running}
use inferlog.Sdk.Dispatcher.Delivery.{send_with_retry, settled, send_with_retry-settled}
use inferlog.Sdk.Dispatcher.Worker.{
  System, waiting, Input, submitted, sampled_out, turn, replied, close_begins, drain_timeout,
  close_ends, run,
}
use inferlog.Sdk.Dispatcher.Worker.Accounts.{handed_over, in_flight, IsAccounted, run-IsBalanced}
use inferlog.Sdk.Dispatcher.Worker.Bounds.{IsBounded, run-IsBounded, run-IsLossless}
use inferlog.Sdk.Dispatcher.Worker.Drain.{IsDrained, run_loop, run_loop-IsDrained}

-- Three events wait, and `aclose` has begun.
abbrev closing_dispatcher : Dispatcher ℕ
closing_dispatcher = record {
  max_queue = 4;
  batch_size = 2;
  max_retries = 3;
  on_drop = true;
  queue = 7 ∷ 8 ∷ 9 ∷ [];
  task = running;
  closing = true;
  closed = false;
  dropped = 0;
  delivered = 0;
  notices = [];
}

-- The same events before `aclose`.
abbrev open_system : System ℕ
open_system = record {
  dispatcher = record closing_dispatcher { closing = false };
  phase = waiting;
  arrived = 3;
  lost = 0;
  discarded = 0;
}

abbrev flaky : ℕ → Reply
flaky (suc zero) = transient (some 2000)
flaky (suc (suc zero)) = transient none
flaky _ = sent

-- The wait runs out in the second round.
abbrev second_round : ℕ → Bool
second_round (suc zero) = true
second_round _ = false

abbrev submissions : List (Input ℕ)
submissions =
    submitted true 10
    ∷ submitted true 11
    ∷ turn
    ∷ replied (transient none)
    ∷ replied sent
    ∷ sampled_out
    ∷ turn
    ∷ replied sent
    ∷ []

abbrev timeout_inputs : List (Input ℕ)
timeout_inputs =
    submitted true 10
    ∷ turn
    ∷ replied failed
    ∷ close_begins
    ∷ drain_timeout
    ∷ close_ends
    ∷ submitted true 11
    ∷ []

run-IsBalanced_example : IsAccounted timeout_inputs open_system (run timeout_inputs open_system)
run-IsBalanced_example = run-IsBalanced timeout_inputs open_system (record { balance = refl })

run-IsBounded_example : IsBounded (run submissions open_system)
run-IsBounded_example =
    run-IsBounded submissions open_system (record {
      queue_bound = λ h. omega arith;
      batch_bound = omega arith;
      all_reported = λ h. refl;
    })

run-IsLossless_example :
    let s' = run submissions open_system in
    (3 + handed_over submissions
      ≡ length s'.dispatcher.queue
        + in_flight s'.phase
        + s'.dispatcher.delivered
        + s'.dispatcher.dropped
        + s'.discarded)
    × ((s'.dispatcher.closed ≡ true) ⊎ (s'.discarded ≡ 0))
run-IsLossless_example =
    run-IsLossless submissions open_system (tt, (tt, (tt, (tt, (tt, (tt, (tt, (tt, tt))))))))
      (record { attempts = omega arith; none_lost = refl }) (record { balance = refl })

run_loop-IsDrained_example :
    IsDrained second_round closing_dispatcher
      (run_loop 4 (λ n. flaky) second_round 0 closing_dispatcher)
run_loop-IsDrained_example =
    run_loop-IsDrained 4 (λ n. flaky) second_round 0 closing_dispatcher refl (omega arith)
      (omega arith)

send_with_retry-settled_example :
    (send_with_retry flaky (7 ∷ 8 ∷ []) closing_dispatcher).0
    ≡ settled 1 3 flaky (7 ∷ 8 ∷ []) closing_dispatcher
send_with_retry-settled_example =
    send_with_retry-settled flaky (7 ∷ 8 ∷ []) closing_dispatcher (omega arith)
