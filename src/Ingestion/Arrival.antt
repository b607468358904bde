-- ===== src/Ingestion/Arrival.antt =====
-- From ingestion/app/api.py over the stream to ingestion/app/worker.py: what becomes of an accepted
-- batch.
use inferlog.Prelude.{
  ℕ, ◌≡◌, sym, ap, ◌∙◌, Bool, true, false, ◌||◌, Option, List, [], ◌∷◌, All, ◌==◌, ==_iff, map,
  take, drop, drop-length, length, arith, Bool-cases, inl, inr,
}
use mathlib.Core.Path.{subst}
use inferlog.Prelude.Json.{Json, Fields}
use inferlog.Prelude.Python.{Python}
use inferlog.Prelude.Text.{Text, text_eq, text_eq_iff}
use inferlog.Sdk.Redaction.{Subn}
use inferlog.Ingestion.Enrich.{Floats}
use inferlog.Ingestion.Events.{RawEvent, validate}
use inferlog.Ingestion.Batch.{
  stamped, accepted, events_of, entry_of, ingest, IsReadable, decode-loads, ingest-IsIngested,
}
use inferlog.Ingestion.Worker.{Call, State}
use inferlog.Ingestion.Worker.Settled.{settled, IsSettled, has_row_of, is_parked}
use inferlog.Ingestion.Worker.Loop.{Messages, Round, run, replies, is_acked}
use inferlog.Ingestion.Worker.Served.{Serves, handed_out, run-AllDone}
use inferlog.Ingestion.Worker.Safe.{IsFrom, run-IsSettled}

-- Some message carries this text.
unfoldable pub is_handed_out : Messages → Text → Bool
is_handed_out [] text = false
is_handed_out ((run, (msg_id, raw)) ∷ rest) text = text_eq raw text || is_handed_out rest text

All-is_acked :
    (P : ℕ → Type 0) (acked : List ℕ) (k : ℕ) → All P acked → is_acked k acked ≡ true → P k
unfolding is_acked
All-is_acked P [] k h e = ground arith
All-is_acked P (n ∷ acked) k h e = elim (Bool-cases (n == k)) [
  | inl i ↦ subst P ((==_iff n k).0 i) h.0
  | inr i ↦ All-is_acked P acked k h.1 (ground arith)
]

module _ (py : Python) (dumps : Json → Text) (typed : Json → Option RawEvent) where
  module _ (subn : Subn) (fl : Floats) (defense : Bool) (content : ℕ → Text) where
    -- A text that was handed out is settled once all that was handed out is acknowledged.
    handed_out-settled :
        (messages : Messages) (s : State fl.Float) (text : Text)
        → IsSettled py dumps typed subn fl defense content s
        → All (IsFrom content) messages
        → All (λ m. is_acked m.1.0 s.acked ≡ true) messages
        → is_handed_out messages text ≡ true
        → settled py dumps typed subn fl defense text s ≡ true
    unfolding is_handed_out
    handed_out-settled [] s text h f a e = ground arith
    handed_out-settled ((run, (msg_id, raw)) ∷ rest) s text h f a e =
        elim (Bool-cases (text_eq raw text)) [
          | inl i ↦
              subst (λ t. settled py dumps typed subn fl defense t s ≡ true)
                (sym f.0 ∙ (text_eq_iff raw text).0 i)
                (All-is_acked (λ n. settled py dumps typed subn fl defense (content n) s ≡ true)
                  s.acked msg_id h a.0)
          | inr i ↦ handed_out-settled rest s text h f.1 a.1 (ground arith)
        ]

    module _ (received_at : Text) where
      -- The row of an event is in the table, or the event is parked.
      abbrev pub Arrived : State fl.Float → Fields → Type 0
      Arrived s event =
          let payload = stamped received_at event in
          (has_row_of (validate py typed payload) s.table || is_parked (dumps payload) s.dlq) ≡ true

      entries-Arrived :
          (events : List Fields) (messages : Messages) (s : State fl.Float)
          → All (IsReadable dumps received_at py) events
          → IsSettled py dumps typed subn fl defense content s
          → All (IsFrom content) messages
          → All (λ m. is_acked m.1.0 s.acked ≡ true) messages
          → All
              (λ text. is_handed_out messages text ≡ true)
              (map (entry_of dumps received_at) events)
          → All (Arrived s) events
      unfolding settled IsReadable
      entries-Arrived [] messages s r h f a e = tt
      entries-Arrived (event ∷ events) messages s r h f a e = (
        subst
            (λ payload.
              (has_row_of (validate py typed payload) s.table || is_parked (dumps payload) s.dlq)
              ≡ true)
            (decode-loads dumps received_at py (entry_of dumps received_at event)
              (stamped received_at event) r.0)
            (handed_out-settled messages s (entry_of dumps received_at event) h f a e.0),
        entries-Arrived events messages s r.1 h f a e.1,
      )

      -- If reading takes back what was written for each event of a batch, the batch is accepted, the
      -- worker is handed what the stream holds, and with it each entry that the batch has
      -- added before it is stopped, the reads do not raise, and the dead-letter call of each message and the
      -- acknowledgement after it are answered: then, whatever the calls of the database do, when the
      -- worker has stopped every event of the batch has its row in the table or is parked, if the
      -- worker began with every acknowledged message settled.
      pub ingest-Arrived :
          (batch : List (Call × Fields)) (old : List Text) (n : ℕ) (reclaimed : Option Messages)
          (rounds : List Round) (s : State fl.Float)
          → All (IsReadable dumps received_at py) (events_of dumps received_at batch)
          → (ingest dumps received_at batch old).1 ≡ accepted n
          → All (IsFrom content) (handed_out (reclaimed ∷ replies rounds))
          → All
              (λ text. is_handed_out (handed_out (reclaimed ∷ replies rounds)) text ≡ true)
              (drop (length old) (ingest dumps received_at batch old).0)
          → All Serves (reclaimed ∷ replies rounds)
          → IsSettled py dumps typed subn fl defense content s
          → All
              (Arrived (run py dumps typed subn fl defense reclaimed rounds s).0)
              (events_of dumps received_at batch)
      ingest-Arrived batch old n reclaimed rounds s r a f e v h =
          let published = ingest-IsIngested dumps received_at py batch old r in
          let events = events_of dumps received_at batch in
          let messages = handed_out (reclaimed ∷ replies rounds) in
          let whole = (published.whole n a).0 in
          let entries =
            ap (drop (length old)) published.entries
            ∙ drop-length old (map (entry_of dumps received_at) (take published.count events))
            ∙ ap (map (entry_of dumps received_at)) whole in
          entries-Arrived events messages (run py dumps typed subn fl defense reclaimed rounds s).0
            r (run-IsSettled py dumps typed subn fl defense content reclaimed rounds s f h) f
            (run-AllDone py dumps typed subn fl defense reclaimed rounds s v).1
            (subst (All (λ text. is_handed_out messages text ≡ true)) entries e)
