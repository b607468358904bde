-- ===== src/Sdk/Dispatcher/Worker/Drain.antt =====
-- `_run` once `aclose` has begun, with no more submissions: until the queue is empty, or until the
-- wait of `aclose` runs out during a delivery and cancels it.
use inferlog.Prelude.{
  ℕ, zero, suc, ◌+◌, ◌≤◌, ◌<◌, ◌≡◌, refl, sym, ◌∙◌, Bool, true, false, ◌&&◌, List, [], ◌∷◌, ◌++◌,
  if◌then◌else◌, length, length-append, arith, is_empty, ap, append-nil, append_assoc, Bool-cases,
  ◌⊎◌, inl, inr,
}
use inferlog.Sdk.Dispatcher.Sink.{Reply}
use inferlog.Sdk.Dispatcher.Queue.{Dispatcher, done, collect_batch, collect_batch-append}
use inferlog.Sdk.Dispatcher.Delivery.{send_with_retry, send_with_retry-settled, settled}

pub record Drained {ℓ} (P : Type ℓ) : Type ℓ where
  pub dispatcher : Dispatcher P
  -- the batches handed to the sink, the first first
  pub batches : List (List P)
  -- the batch whose delivery was cancelled
  pub cut : List P
  pub ended : Bool

abbrev pub concat {ℓ} : {A : Type ℓ} → List (List A) → List A
concat [] = []
concat (xs ∷ xss) = xs ++ concat xss

module _ {ℓ} {P : Type ℓ} where
  -- `if batch: await self._send_with_retry(batch)`
  unfoldable pub deliver : (ℕ → Reply) → List P → Dispatcher P → Dispatcher P
  deliver replies [] d = d
  deliver replies (event ∷ batch) d = (send_with_retry replies (event ∷ batch) d).0

  -- The rounds of `_run` on fuel; `replies n k` is how attempt k at the batch of round n ends, and
  -- `cancels n` whether the task is cancelled while that delivery waits for the sink or between two
  -- attempts.
  unfoldable pub run_loop : ℕ → (ℕ → ℕ → Reply) → (ℕ → Bool) → ℕ → Dispatcher P → Drained P
  unfolding deliver
  run_loop zero replies cancels n d = record {
    dispatcher = d;
    batches = [];
    cut = [];
    ended = false;
  }
  run_loop (suc fuel) replies cancels n d =
      let batch = collect_batch d.batch_size d.queue in
      let rest =
        run_loop fuel replies cancels (n + 1)
          (deliver (replies n) batch.0 (record d { queue = batch.1 })) in
      if d.closing && is_empty d.queue
      then record { dispatcher = record d { task = done }; batches = []; cut = []; ended = true }
      else if cancels n
      then record {
        dispatcher = record d { task = done; queue = batch.1 };
        batches = batch.0 ∷ [];
        cut = batch.0;
        ended = true;
      }
      else record rest { batches = batch.0 ∷ rest.batches }

  -- What one round does to the dispatcher, for a batch that is not empty.
  record AfterDelivery (d : Dispatcher P) (batch : List P) (d' : Dispatcher P) : Type ℓ where
    queue_same : d'.queue ≡ d.queue
    closing_same : d'.closing ≡ d.closing
    retries_same : d'.max_retries ≡ d.max_retries
    counted : d'.delivered + d'.dropped ≡ d.delivered + d.dropped + length batch

  deliver-AfterDelivery :
      (replies : ℕ → Reply) (batch : List P) (d : Dispatcher P)
      → 0 < d.max_retries
      → AfterDelivery d batch (deliver replies batch d)
  unfolding deliver settled
  deliver-AfterDelivery replies [] d h = ground arith
  deliver-AfterDelivery replies (event ∷ batch) d h =
      rw (send_with_retry-settled replies (event ∷ batch) d h) (ground arith)

  -- What is left behind a batch is shorter than the queue was.
  length-rest-lt :
      (n : ℕ) (first : P) (queue : List P)
      → length (collect_batch n (first ∷ queue)).1 ≤ length queue
  unfolding collect_batch
  length-rest-lt n first queue =
      let batch = collect_batch n (first ∷ queue) in
      omega
        (arith, length-append batch.0 batch.1, ap length (collect_batch-append n (first ∷ queue)))

  -- The loop ended: the batches that it took hold, with what is left, the queue's events in order, and
  -- each event of them is counted as delivered or as dropped, or stands in the batch that was cut off;
  -- and unless the task was cancelled in some round, nothing is left and nothing was cut off.
  pub record IsDrained (cancels : ℕ → Bool) (d : Dispatcher P) (r : Drained P) : Type ℓ where
    pub ended : r.ended ≡ true
    pub in_order : concat r.batches ++ r.dispatcher.queue ≡ d.queue
    pub counted :
        r.dispatcher.delivered + r.dispatcher.dropped + length r.cut
        ≡ d.delivered + d.dropped + length (concat r.batches)
    pub complete : ((k : ℕ) × (cancels k ≡ true)) ⊎ ((r.dispatcher.queue ≡ []) × (r.cut ≡ []))

  cut-IsDrained :
      (fuel : ℕ) (replies : ℕ → ℕ → Reply) (cancels : ℕ → Bool) (n : ℕ) (d : Dispatcher P)
      → d.closing ≡ true
      → is_empty d.queue ≡ false
      → cancels n ≡ true
      → IsDrained cancels d (run_loop (suc fuel) replies cancels n d)
  unfolding run_loop
  cut-IsDrained fuel replies cancels n d o e c =
      let batch = collect_batch d.batch_size d.queue in
      let split : batch.0 ++ batch.1 ≡ d.queue = collect_batch-append d.batch_size d.queue in
      let known : ((k : ℕ) × (cancels k ≡ true)) = (n, c) in
      rw (o, e, c)
        (record {
          ended = refl;
          in_order = ap (λ l. l ++ batch.1) (append-nil batch.0) ∙ split;
          counted = ap (λ l. d.delivered + d.dropped + length l) (sym (append-nil batch.0));
          complete = inl known;
        })

  round-IsDrained :
      (fuel : ℕ) (replies : ℕ → ℕ → Reply) (cancels : ℕ → Bool) (n : ℕ) (d : Dispatcher P)
      (queue : List P)
      → d.queue ≡ queue
      → d.closing ≡ true
      → 0 < d.max_retries
      → length queue ≤ fuel
      → ((d' : Dispatcher P)
          → d'.closing ≡ true
          → 0 < d'.max_retries
          → length d'.queue < fuel
          → IsDrained cancels d' (run_loop fuel replies cancels (n + 1) d'))
      → IsDrained cancels d (run_loop (suc fuel) replies cancels n d)
  unfolding run_loop
  round-IsDrained fuel replies cancels n d [] e c m f ih = ground arith
  round-IsDrained fuel replies cancels n d (first ∷ queue) e c m f ih =
      let batch = collect_batch d.batch_size d.queue in
      let d' = deliver (replies n) batch.0 (record d { queue = batch.1 }) in
      let a = deliver-AfterDelivery (replies n) batch.0 (record d { queue = batch.1 }) m in
      let shorter : length batch.1 ≤ length queue =
        rw e (length-rest-lt d.batch_size first queue) in
      let split : batch.0 ++ batch.1 ≡ d.queue = collect_batch-append d.batch_size d.queue in
      let r = ih d' (ground arith) (ground arith) (ground arith) in
      let rest = run_loop fuel replies cancels (n + 1) d' in
      elim (Bool-cases (cancels n)) [
        | inl k ↦ cut-IsDrained fuel replies cancels n d c (ap is_empty e) k
        | inr k ↦ ground (
          arith,
          length-append batch.0 (concat rest.batches),
          append_assoc batch.0 (concat rest.batches) rest.dispatcher.queue,
          r.complete,
        )
      ]

  -- Once `aclose` has begun and nothing more is submitted, with at least one attempt allowed, `_run`
  -- ends within one round more than the queue has events, whatever the sink replies and in whatever
  -- round the wait of `aclose` runs out: the batches that it took hold, with what is left in the
  -- queue, the events in order, and each event taken is counted as delivered or as dropped, or was in
  -- the one batch that was cut off; if the wait does not run out, nothing is left and nothing was cut
  -- off.
  pub run_loop-IsDrained :
      (fuel : ℕ) (replies : ℕ → ℕ → Reply) (cancels : ℕ → Bool) (n : ℕ) (d : Dispatcher P)
      → d.closing ≡ true
      → 0 < d.max_retries
      → length d.queue < fuel
      → IsDrained cancels d (run_loop fuel replies cancels n d)
  run_loop-IsDrained zero replies cancels n d c m f = elim f [ ]
  run_loop-IsDrained (suc fuel) replies cancels n d c m f =
      round-IsDrained fuel replies cancels n d d.queue refl c m (omega arith)
        (λ d'. run_loop-IsDrained fuel replies cancels (n + 1) d')
