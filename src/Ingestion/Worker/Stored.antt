-- ===== src/Ingestion/Worker/Stored.antt =====
-- What the worker leaves in the table, under all faults, and redelivery.
use inferlog.Prelude.{
  All-of, ℕ, ◌≡◌, refl, sym, ap, ◌∙◌, Bool, true, false, Option, none, some, List, [], ◌∷◌, All,
  arith, append-nil,
}
use inferlog.Prelude.Json.{Json}
use inferlog.Prelude.Python.{Python}
use inferlog.Prelude.Text.{Text}
use inferlog.Sdk.Redaction.{Subn}
use inferlog.Ingestion.Enrich.{Floats}
use inferlog.Ingestion.Events.{RawEvent, IngestEvent, validate}
use inferlog.Ingestion.Processing.{LogRow, process_event}
use inferlog.Ingestion.Table.{
  has_row, IsKeyed, Extends, upsert_log-IsKeyed, Extends-upsert_log, has_row-upsert_log,
  has_row-upsert_log_mono, upsert_log-again,
}
use inferlog.Ingestion.Worker.{
  Run, State, call, then_call, decode, ack, store, park_message, store_event, handle_valid,
  handle_one, handle,
}
use inferlog.Ingestion.Worker.Steps.{
  takes_effect, Keeps, row_of, call-keeps, then_call-effect, on_raise-keeps, park_message-keeps,
  handle-keeps,
}

then_call-returned :
    {S : Type 0} (x : S × Bool) (next : S → S × Bool)
    → (then_call x next).1 ≡ true
    → then_call x next ≡ next x.0
unfolding then_call
then_call-returned (s, true) next h = refl
then_call-returned (s, false) next h = ground arith

-- The same messages again, in runs of their own.
abbrev pub redelivered : (ℕ × Text → Run) → List (Run × (ℕ × Text)) → List (Run × (ℕ × Text))
redelivered runs [] = []
redelivered runs ((run, message) ∷ rest) = (runs message, message) ∷ redelivered runs rest

module _ (py : Python) (dumps : Json → Text) (typed : Json → Option RawEvent) where
  module _ (subn : Subn) (fl : Floats) (defense : Bool) where
    -- Whatever calls fail, the worker keeps the rows of the table as they are, and only adds rows
    -- after them; no two rows have one request id.
    pub handle-IsKeyed :
        (messages : List (Run × (ℕ × Text))) (s : State fl.Float)
        → IsKeyed s.table
        → let s' = (handle py dumps typed subn fl defense messages s).0 in
          Extends s.table s'.table × IsKeyed s'.table
    handle-IsKeyed messages s h =
        handle-keeps py dumps typed subn fl defense (λ t. Extends s.table t × IsKeyed t) messages s
          (All-of _
            (λ m event e t k. (
              Extends-upsert_log s.table t (row_of py dumps typed subn fl defense m.0 event) k.0,
              upsert_log-IsKeyed (row_of py dumps typed subn fl defense m.0 event) t k.1,
            ))
            messages)
          (([], sym (append-nil s.table)), h)

    -- The row of a message is in the table, if the message has one.
    abbrev pub IsStored : List (LogRow fl.Float) → Run × (ℕ × Text) → Type 0
    IsStored table (run, (msg_id, raw)) =
        (event : IngestEvent)
        → validate py typed (decode py raw) ≡ some event
        → has_row event.request_id table ≡ true

    handle-again :
        (messages : List (Run × (ℕ × Text))) (s : State fl.Float)
        → All (IsStored s.table) messages
        → (handle py dumps typed subn fl defense messages s).0.table ≡ s.table
    unfolding process_event
    handle-again messages s h =
        handle-keeps py dumps typed subn fl defense (λ t. t ≡ s.table) messages s (keeps messages h)
          refl
      where
        keeps :
            (ms : List (Run × (ℕ × Text)))
            → All (IsStored s.table) ms
            → All (Keeps py dumps typed subn fl defense (λ t. t ≡ s.table)) ms
        keeps [] h = tt
        keeps ((run, (msg_id, raw)) ∷ ms) h = (
          (λ event e t k.
              upsert_log-again (row_of py dumps typed subn fl defense run event) t
                (ap (has_row event.request_id) k ∙ h.0 event e)
              ∙ k),
          keeps ms h.1,
        )

    handle_valid-stores :
        (run : Run) (msg_id : ℕ) (raw : Json) (event : Option IngestEvent) (s : State fl.Float)
        → takes_effect run.upsert ≡ true
        → (e : IngestEvent) → event ≡ some e
        → has_row e.request_id
            (handle_valid py dumps typed subn fl defense run msg_id raw event s).0.table
          ≡ true
    unfolding handle_valid store_event store ack process_event
    handle_valid-stores run msg_id raw none s u e p = ground arith
    handle_valid-stores run msg_id raw (some event) s u e p =
        let row = row_of py dumps typed subn fl defense run event in
        let same : event ≡ e = cc in
        let there = has_row-upsert_log row s.table in
        rw (← same) (
          on_raise-keeps (λ t. has_row event.request_id t.table ≡ true) _
            (park_message py dumps typed subn fl defense run msg_id raw _)
            (then_call-effect (λ t. has_row event.request_id t.table ≡ true) run.upsert
              (store py dumps typed subn fl defense row)
              (call run.first_ack (ack py dumps typed subn fl defense msg_id)) s u there
              (call-keeps (λ t. has_row event.request_id t.table ≡ true) run.first_ack
                (ack py dumps typed subn fl defense msg_id)
                (store py dumps typed subn fl defense row s) there there))
            (λ t l.
              park_message-keeps py dumps typed subn fl defense
                (λ rows. has_row event.request_id rows ≡ true) run msg_id raw _ t l))

    IsStored-mono :
        (m : Run × (ℕ × Text)) (messages : List (Run × (ℕ × Text))) (s : State fl.Float)
        → IsStored s.table m
        → IsStored (handle py dumps typed subn fl defense messages s).0.table m
    IsStored-mono (run, (msg_id, raw)) messages s h event e =
        handle-keeps py dumps typed subn fl defense (λ t. has_row event.request_id t ≡ true)
          messages s
          (All-of _
            (λ n other f t k.
              has_row-upsert_log_mono event.request_id
                (row_of py dumps typed subn fl defense n.0 other) t k)
            messages)
          (h event e)

    IsStored-at :
        (x y : State fl.Float × Bool) (messages : List (Run × (ℕ × Text)))
        → x ≡ y
        → All (IsStored y.0.table) messages
        → All (IsStored x.0.table) messages
    IsStored-at x y messages e h = rw e h

    handle-stores :
        (messages : List (Run × (ℕ × Text))) (s : State fl.Float)
        → All (λ m. takes_effect m.0.upsert ≡ true) messages
        → (handle py dumps typed subn fl defense messages s).1 ≡ true
        → All (IsStored (handle py dumps typed subn fl defense messages s).0.table) messages
    unfolding handle handle_one
    handle-stores [] s u h = tt
    handle-stores ((run, (msg_id, raw)) ∷ rest) s u h =
        let first =
          handle_valid py dumps typed subn fl defense run msg_id (decode py raw)
            (validate py typed (decode py raw)) s in
        let after = then_call-returned first (handle py dumps typed subn fl defense rest) h in
        IsStored-at _ _ ((run, (msg_id, raw)) ∷ rest) after (
          IsStored-mono (run, (msg_id, raw)) rest first.0
              (λ event e.
                handle_valid-stores run msg_id (decode py raw) (validate py typed (decode py raw)) s
                  u.0 event e),
          handle-stores rest first.0 u.1 (ap (λ x. x.1) (sym after) ∙ h),
        )

    redelivered-IsStored :
        (runs : ℕ × Text → Run) (table : List (LogRow fl.Float))
        (messages : List (Run × (ℕ × Text)))
        → All (IsStored table) messages
        → All (IsStored table) (redelivered runs messages)
    redelivered-IsStored runs table [] h = tt
    redelivered-IsStored runs table ((run, (msg_id, raw)) ∷ rest) h =
        (h.0, redelivered-IsStored runs table rest h.1)

    -- If `_handle` returned and its inserts took effect, a redelivery of the same messages leaves the
    -- table as it is, whatever happens to the calls of that second run.
    pub handle-redelivered :
        (runs : ℕ × Text → Run) (messages : List (Run × (ℕ × Text))) (s : State fl.Float)
        → All (λ m. takes_effect m.0.upsert ≡ true) messages
        → (handle py dumps typed subn fl defense messages s).1 ≡ true
        → let s' = (handle py dumps typed subn fl defense messages s).0 in
          (handle py dumps typed subn fl defense (redelivered runs messages) s').0.table ≡ s'.table
    handle-redelivered runs messages s u h =
        let s' = (handle py dumps typed subn fl defense messages s).0 in
        handle-again (redelivered runs messages) s'
          (redelivered-IsStored runs s'.table messages (handle-stores messages s u h))
