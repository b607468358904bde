-- ===== src/Sdk/Dispatcher/Delivery.antt =====
-- `LogDispatcher._send_with_retry`.
use inferlog.Prelude.{
  ℕ, zero, suc, ◌+◌, ◌-◌, ◌*◌, ◌^◌, ◌≤◌, ◌<◌, ◌≡◌, Bool, true, false, none, some, List, [], ◌∷◌,
  ◌==◌, if◌then◌else◌, length, get_elem?, arith, ◌≢◌,
}
use native.Mathlib.Nat.{add-zero, mul-one, pow-suc}
use inferlog.Sdk.Dispatcher.Sink.{Reply, sent, transient, failed}
use inferlog.Sdk.Dispatcher.Queue.{
  Dispatcher, DropReason, max_retries, permanent_error, drop_events,
}

-- A pause before the next attempt: the server's `Retry-After`, or the delay that the jitter scales
-- by a factor from 0.5 to 1.5.
pub data Pause : Type 0 where
  retry_after : ℕ → Pause
  jittered : ℕ → Pause

pub data Progress {ℓ} (P : Type ℓ) : Type ℓ where
  finished : Dispatcher P → Progress P
  again : Pause → Progress P

-- The pause after an attempt that did not get through, and the reason if it was the last.
unfoldable pub pause : Reply → ℕ → Pause
pause (transient (some seconds)) delay = retry_after seconds
pause (transient none) delay = jittered delay
pause failed delay = jittered delay
pause sent delay = jittered delay

unfoldable pub reason : Reply → DropReason
reason (transient r) = max_retries
reason failed = permanent_error
reason sent = permanent_error

module _ {ℓ} {P : Type ℓ} where
  -- One round of the `for` loop, given how `send` ended.
  unfoldable pub attempt_once : ℕ → ℕ → List P → Reply → Dispatcher P → Progress P
  unfolding pause reason drop_events
  attempt_once attempt delay batch sent d =
      finished (record d { delivered = d.delivered + length batch })
  attempt_once attempt delay batch (transient r) d =
      if attempt == d.max_retries
      then finished (drop_events (length batch) max_retries d)
      else again (pause (transient r) delay)
  attempt_once attempt delay batch failed d =
      if attempt == d.max_retries
      then finished (drop_events (length batch) permanent_error d)
      else again (pause failed delay)

  -- `for attempt in range(attempt, attempt + left)`; `replies` says how each attempt ends.
  unfoldable pub send_from :
      ℕ → ℕ → ℕ → (ℕ → Reply) → List P → Dispatcher P → Dispatcher P × List Pause
  unfolding attempt_once
  send_from zero attempt delay replies batch d = (d, [])
  send_from (suc left) attempt delay replies batch d =
      elim (attempt_once attempt delay batch (replies attempt) d) [
        | finished d' ↦ (d', [])
        | again p ↦
            let (d', pauses) = send_from left (attempt + 1) (delay * 2) replies batch d in
            (d', p ∷ pauses)
      ]

  unfoldable pub send_with_retry : (ℕ → Reply) → List P → Dispatcher P → Dispatcher P × List Pause
  unfolding send_from
  send_with_retry replies batch d = send_from d.max_retries 1 250 replies batch d

-- Whether one of the attempts `from`, …, `from + count - 1` gets through.
abbrev pub is_sent : Reply → Bool
is_sent sent = true
is_sent _ = false

unfoldable pub any_sent : (ℕ → Reply) → ℕ → ℕ → Bool
any_sent replies from zero = false
any_sent replies from (suc count) =
    if is_sent (replies from) then true else any_sent replies (from + 1) count

module _ {ℓ} {P : Type ℓ} where
  -- The outcome of a delivery, described with no loop.
  unfoldable pub settled : ℕ → ℕ → (ℕ → Reply) → List P → Dispatcher P → Dispatcher P
  unfolding any_sent reason drop_events
  settled from count replies batch d =
      if any_sent replies from count
      then record d { delivered = d.delivered + length batch }
      else drop_events (length batch) (reason (replies d.max_retries)) d

  -- The loop from any attempt on comes to the described outcome.
  pub send_from-settled :
      (left attempt delay : ℕ) (replies : ℕ → Reply) (batch : List P) (d : Dispatcher P)
      → attempt + left ≡ d.max_retries + 1
      → 0 < left
      → (send_from left attempt delay replies batch d).0 ≡ settled attempt left replies batch d
  unfolding send_from settled
  send_from-settled zero attempt delay replies batch d e h = elim h [ ]
  send_from-settled (suc zero) attempt delay replies batch d e h =
      let last : attempt ≡ d.max_retries = omega arith in rw (← last) (ground arith)
  send_from-settled (suc (suc left)) attempt delay replies batch d e h =
      let early : attempt ≢ d.max_retries = omega arith in
      ground (arith, send_from-settled (suc left) (attempt + 1) (delay * 2) replies batch d)

  -- With at least one attempt allowed, a delivery counts the whole batch as delivered if one of the
  -- attempts 1 to `max_retries` gets through, and otherwise drops the whole batch, with the reason
  -- that the last attempt gives; it changes nothing else of the dispatcher.
  pub send_with_retry-settled :
      (replies : ℕ → Reply) (batch : List P) (d : Dispatcher P)
      → 0 < d.max_retries
      → (send_with_retry replies batch d).0 ≡ settled 1 d.max_retries replies batch d
  unfolding send_with_retry
  send_with_retry-settled replies batch d h =
      send_from-settled d.max_retries 1 250 replies batch d (omega arith) h

  send_from_pauses :
      (left attempt delay j : ℕ) (replies : ℕ → Reply) (batch : List P) (d : Dispatcher P)
      (p : Pause)
      → get_elem? (send_from left attempt delay replies batch d).1 j ≡ some p
      → p ≡ pause (replies (attempt + j)) (delay * 2 ^ j)
  unfolding send_from
  send_from_pauses zero attempt delay j replies batch d p e = cc
  send_from_pauses (suc left) attempt delay zero replies batch d p e =
      rw (add-zero, mul-one) (ground arith)
  send_from_pauses (suc left) attempt delay (suc j) replies batch d p e =
      let shift : attempt + 1 + j ≡ attempt + suc j = omega arith in
      let double : delay * 2 * 2 ^ j ≡ delay * 2 ^ suc j = rw pow-suc (omega arith) in
      rw (← shift, ← double)
        (ground (arith, send_from_pauses left (attempt + 1) (delay * 2) j replies batch d p))

  length-send_from-le :
      (left attempt delay : ℕ) (replies : ℕ → Reply) (batch : List P) (d : Dispatcher P)
      → attempt + left ≡ d.max_retries + 1
      → length (send_from left attempt delay replies batch d).1 ≤ left - 1
  unfolding send_from
  length-send_from-le zero attempt delay replies batch d h = omega arith
  length-send_from-le (suc left) attempt delay replies batch d h =
      ground (arith, length-send_from-le left (attempt + 1) (delay * 2) replies batch d)

  -- There are fewer pauses than attempts allowed, and the pause after attempt j + 1 is the server's
  -- `Retry-After` if its reply has one, and else is jittered around 250 * 2^j milliseconds.
  pub send_with_retry_pauses :
      (replies : ℕ → Reply) (batch : List P) (d : Dispatcher P)
      → (length (send_with_retry replies batch d).1 ≤ d.max_retries - 1)
        × ((j : ℕ) (p : Pause)
            → get_elem? (send_with_retry replies batch d).1 j ≡ some p
            → p ≡ pause (replies (1 + j)) (250 * 2 ^ j))
  unfolding send_with_retry
  send_with_retry_pauses replies batch d = (
    length-send_from-le d.max_retries 1 250 replies batch d (omega arith),
    λ j p. send_from_pauses d.max_retries 1 250 j replies batch d p,
  )
