-- ===== src/Ingestion/Batch.antt =====
-- `ingest` of ingestion/app/api.py and `publish` of ingestion/app/stream.py: from an accepted batch to
-- the entries of the stream, and back through `_decode`.
use inferlog.Prelude.{
  ℕ, zero, suc, ◌≡◌, refl, ap, ◌∙◌, sym, Bool, true, false, ◌&&◌, some, List, [], ◌∷◌, ◌++◌, map,
  take, length, leb, if◌then◌else◌, append_assoc, append-nil, arith, Bool-cases, inl, inr, All,
}
use inferlog.Prelude.Json.{Json, Fields, insert, lookup, lookup-insert}
use inferlog.Prelude.Python.{Python}
use inferlog.Prelude.Text.{Text, codes, text_eq}
use inferlog.Ingestion.Worker.{Call, call, then_call, decode}

-- `IngestBatch`
unfoldable pub is_batch : List Fields → Bool
is_batch events = leb 1 (length events) && leb (length events) 500

-- `payload["received_at"] = received_at`
abbrev pub stamped : Text → Fields → Json
stamped received_at event = Json.obj (insert (codes "received_at") (Json.str received_at) event)

-- The reply: 202 with a count, 422, or an exception of Redis.
pub data IngestReply : Type 0 where
  accepted : ℕ → IngestReply
  invalid : IngestReply
  crashed : IngestReply

module _ (dumps : Json → Text) (received_at : Text) where
  -- `publish`, on the entries of the stream.
  unfoldable pub publish : Fields → List Text → List Text
  publish event entries = entries ++ (dumps (stamped received_at event) ∷ [])

  -- The loop over the batch, with what happens to each call of `publish`.
  unfoldable pub publish_all : List (Call × Fields) → List Text → List Text × Bool
  unfolding call then_call publish
  publish_all [] entries = (entries, true)
  publish_all ((c, event) ∷ rest) entries =
      then_call (call c (publish event) entries) (publish_all rest)

  abbrev pub events_of : List (Call × Fields) → List Fields
  events_of [] = []
  events_of ((c, event) ∷ rest) = event ∷ events_of rest

  abbrev pub reply_of : Bool → ℕ → IngestReply
  reply_of true n = accepted n
  reply_of false n = crashed

  unfoldable pub ingest : List (Call × Fields) → List Text → List Text × IngestReply
  unfolding publish_all is_batch
  ingest batch entries =
      let result = publish_all batch entries in
      if is_batch (events_of batch)
      then (result.0, reply_of result.1 (length (events_of batch)))
      else (entries, invalid)

  abbrev pub entry_of : Fields → Text
  entry_of event = dumps (stamped received_at event)

  -- The first `count` events of the batch are published behind the old entries, and all of them if
  -- the loop comes to its end.
  pub record IsPublished (batch : List (Call × Fields)) (old : List Text)
      (result : List Text × Bool) : Type 0 where
    pub count : ℕ
    pub entries : result.0 ≡ old ++ map entry_of (take count (events_of batch))
    pub all : result.1 ≡ true → take count (events_of batch) ≡ events_of batch

  publish_all-IsPublished :
      (batch : List (Call × Fields)) (old : List Text)
      → IsPublished batch old (publish_all batch old)
  unfolding publish_all publish call then_call
  publish_all-IsPublished [] old = record {
    count = 0;
    entries = sym (append-nil old);
    all = λ h. refl;
  }
  publish_all-IsPublished ((Call.failed, event) ∷ rest) old = record {
    count = 0;
    entries = sym (append-nil old);
    all = λ h. ground arith;
  }
  publish_all-IsPublished ((Call.unanswered, event) ∷ rest) old = record {
    count = 1;
    entries = refl;
    all = λ h. ground arith;
  }
  publish_all-IsPublished ((Call.answered, event) ∷ rest) old =
      let later = publish_all-IsPublished rest (old ++ (entry_of event ∷ [])) in
      record {
        count = suc later.count;
        entries =
            later.entries
            ∙ append_assoc old (entry_of event ∷ [])
                (map entry_of (take later.count (events_of rest)));
        all = λ h. ap (◌∷◌ event) (later.all h);
      }

  accepted-injective : (b : Bool) (m n : ℕ) → reply_of b m ≡ accepted n → (b ≡ true) × (n ≡ m)
  accepted-injective true m n h = ground arith
  accepted-injective false m n h = ground arith

  -- Where Redis is asked at all: the batch has between 1 and 500 events.
  ingest-asked :
      (batch : List (Call × Fields)) (entries : List Text)
      → is_batch (events_of batch) ≡ true
      → ingest batch entries ≡ (
        (publish_all batch entries).0,
        reply_of (publish_all batch entries).1 (length (events_of batch)),
      )
  unfolding ingest
  ingest-asked batch entries e = rw e refl

  ingest-invalid :
      (batch : List (Call × Fields)) (entries : List Text)
      → is_batch (events_of batch) ≡ false
      → ingest batch entries ≡ (entries, invalid)
  unfolding ingest
  ingest-invalid batch entries e = rw e refl

  pub decode-loads :
      (py : Python) (text : Text) (v : Json) → py.loads text ≡ some v → decode py text ≡ v
  unfolding decode
  decode-loads py text v h = ground arith

  -- Reading an entry gives the event that it was written for.
  unfoldable pub IsReadable : Python → Fields → Type 0
  IsReadable py event =
      py.loads (dumps (stamped received_at event)) ≡ some (stamped received_at event)

  -- What the worker reads of the entry of an event: a dictionary with the time of arrival under its
  -- key, whatever the event has there, and with what the event has under every other key.
  abbrev pub IsStamped : Python → Fields → Type 0
  IsStamped py event =
      (payload : Fields) × (decode py (entry_of event) ≡ Json.obj payload)
      × ((k : Text)
          → lookup k payload ≡ (
              if text_eq (codes "received_at") k
              then some (Json.str received_at)
              else lookup k event))

  entry-IsStamped : (py : Python) (event : Fields) → IsReadable py event → IsStamped py event
  unfolding IsReadable
  entry-IsStamped py event h = (
    insert (codes "received_at") (Json.str received_at) event,
    decode-loads py (entry_of event) (stamped received_at event) h,
    λ k. lookup-insert (codes "received_at") k (Json.str received_at) event,
  )

  take-IsStamped :
      (py : Python) (count : ℕ) (events : List Fields)
      → All (IsReadable py) events
      → All (IsStamped py) (take count events)
  take-IsStamped py zero events h = tt
  take-IsStamped py (suc n) [] h = tt
  take-IsStamped py (suc n) (event ∷ events) h =
      (entry-IsStamped py event h.0, take-IsStamped py n events h.1)

  -- What a client and the worker see of a batch.
  pub record IsIngested (py : Python) (batch : List (Call × Fields)) (old : List Text)
      (result : List Text × IngestReply) : Type 0 where
    pub count : ℕ
    pub entries : result.0 ≡ old ++ map entry_of (take count (events_of batch))
    pub decoded : All (IsStamped py) (take count (events_of batch))
    pub whole :
        (n : ℕ)
        → result.1 ≡ accepted n
        → (take count (events_of batch) ≡ events_of batch) × (n ≡ length (events_of batch))

  -- If reading takes back what was written for each event of the batch: whatever happens to the calls
  -- of Redis, a batch adds a first part of its events, in order, behind the entries of the stream; the
  -- worker decodes each entry to a dictionary that has the time of arrival as `received_at`, and what
  -- the event has under every other key; and if the reply accepts n events, all of them were added,
  -- and they are n.
  pub ingest-IsIngested :
      (py : Python)
      → (batch : List (Call × Fields)) (old : List Text) → All (IsReadable py) (events_of batch)
      → IsIngested py batch old (ingest batch old)
  ingest-IsIngested py batch old h = elim (Bool-cases (is_batch (events_of batch))) [
    | inr e ↦ rw (ingest-invalid batch old e) (record {
      count = 0;
      entries = sym (append-nil old);
      decoded = tt;
      whole = λ n k. ground arith;
    })
    | inl e ↦
        let published = publish_all-IsPublished batch old in
        rw (ingest-asked batch old e) (record {
          count = published.count;
          entries = published.entries;
          decoded = take-IsStamped py published.count (events_of batch) h;
          whole = λ n k.
              let (done, same) =
                accepted-injective (publish_all batch old).1 (length (events_of batch)) n k in
              (published.all done, same);
        })
  ]
