-- ===== src/Sdk/Dispatcher/Queue.antt =====
-- `LogDispatcher`: its state, `start`, `submit`, `stats`, `_notify_drop` and `_collect_batch`.
use inferlog.Prelude.{
  ℕ, zero, suc, ◌+◌, ◌-◌, ◌≤◌, ◌≡◌, refl, Bool, ◌&&◌, List, [], ◌∷◌, ◌++◌, ltb, leb, if◌then◌else◌,
  length, arith,
}

pub data DropReason : Type 0 where
  queue_full max_retries permanent_error sampled : DropReason

-- `_task`: none yet, running, or done.
pub data Task : Type 0 where
  unstarted running done : Task

pub record Dispatcher {ℓ} (P : Type ℓ) : Type ℓ where
  pub max_queue : ℕ
  pub batch_size : ℕ
  pub max_retries : ℕ
  pub on_drop : Bool
  pub queue : List P
  pub task : Task
  pub closing : Bool
  pub closed : Bool
  pub dropped : ℕ
  pub delivered : ℕ
  -- the calls of the `on_drop` callback, the latest first
  pub notices : List (ℕ × DropReason)

pub record Stats : Type 0 where
  pub queued : ℕ
  pub delivered : ℕ
  pub dropped : ℕ
  pub closed : Bool

module _ {ℓ} {P : Type ℓ} where
  -- What the callback raises is swallowed, so its calls are all that there is to see.
  unfoldable pub notify_drop : ℕ → DropReason → Dispatcher P → Dispatcher P
  notify_drop count reason d =
      if d.on_drop then record d { notices = (count, reason) ∷ d.notices } else d

  -- `self.dropped += count; self._notify_drop(count, reason)`
  unfoldable pub drop_events : ℕ → DropReason → Dispatcher P → Dispatcher P
  unfolding notify_drop
  drop_events count reason d = notify_drop count reason (record d { dropped = d.dropped + count })

  -- The flag says whether an event loop is running.
  unfoldable pub start : Bool → Dispatcher P → Dispatcher P
  start loop d = elim d.task [
    | unstarted ↦ if d.closed then d else if loop then record d { task = running } else d
    | running ↦ d
    | done ↦ d
  ]

  -- `asyncio.Queue(maxsize=0)` is unbounded.
  unfoldable pub is_full : Dispatcher P → Bool
  is_full d = ltb 0 d.max_queue && leb d.max_queue (length d.queue)

  unfoldable pub enqueue : P → Dispatcher P → Dispatcher P
  unfolding is_full drop_events
  enqueue event d =
      if is_full d then drop_events 1 queue_full d else record d { queue = d.queue ++ event ∷ [] }

  unfoldable pub submit : Bool → P → Dispatcher P → Dispatcher P
  unfolding start enqueue
  submit loop event d = if d.closed then d else enqueue event (start loop d)

  unfoldable pub stats : Dispatcher P → Stats
  stats d = record {
    queued = length d.queue;
    delivered = d.delivered;
    dropped = d.dropped;
    closed = d.closed;
  }

  -- The drain after the first event: `n` more events at most.
  unfoldable pub drain : ℕ → List P → List P × List P
  drain zero queue = ([], queue)
  drain (suc n) [] = ([], [])
  drain (suc n) (event ∷ queue) = let (batch, rest) = drain n queue in (event ∷ batch, rest)

  -- The batch, and the queue that stays. On an empty queue the wait times out.
  unfoldable pub collect_batch : ℕ → List P → List P × List P
  unfolding drain
  collect_batch batch_size [] = ([], [])
  collect_batch batch_size (first ∷ queue) =
      let (batch, rest) = drain (batch_size - 1) queue in (first ∷ batch, rest)

  drain-append : (n : ℕ) (queue : List P) → (drain n queue).0 ++ (drain n queue).1 ≡ queue
  unfolding drain
  drain-append zero queue = refl
  drain-append (suc n) [] = refl
  drain-append (suc n) (event ∷ queue) = ground (arith, drain-append n queue)

  length-drain-le : (n : ℕ) (queue : List P) → length (drain n queue).0 ≤ n
  unfolding drain
  length-drain-le zero queue = omega arith
  length-drain-le (suc n) [] = omega arith
  length-drain-le (suc n) (event ∷ queue) = omega (arith, length-drain-le n queue)

  -- A batch is the front of the queue: with the rest it makes up the queue, in order.
  pub collect_batch-append :
      (n : ℕ) (queue : List P) → (collect_batch n queue).0 ++ (collect_batch n queue).1 ≡ queue
  unfolding collect_batch
  collect_batch-append n [] = refl
  collect_batch-append n (first ∷ queue) = ground (arith, drain-append (n - 1) queue)

  -- A batch holds at most `batch_size` events, and one where that is zero.
  pub length-collect_batch-le :
      (n : ℕ) (queue : List P) → length (collect_batch n queue).0 ≤ n - 1 + 1
  unfolding collect_batch
  length-collect_batch-le n [] = omega arith
  length-collect_batch-le n (first ∷ queue) = omega (arith, length-drain-le (n - 1) queue)
