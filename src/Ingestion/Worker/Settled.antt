-- ===== src/Ingestion/Worker/Settled.antt =====
-- No message is acknowledged before its row is committed or it is parked.
use inferlog.Prelude.{
  All-imp, All-last, take, ℕ, ◌≡◌, refl, Bool, true, false, ◌||◌, Option, none, some, List, [], ◌∷◌,
  ◌++◌, All, arith, Bool-cases,
}
use inferlog.Prelude.Json.{Json}
use inferlog.Prelude.Python.{Python}
use inferlog.Prelude.Text.{Text, text_eq, text_eq_iff, codes}
use inferlog.Sdk.Redaction.{Subn}
use inferlog.Ingestion.Enrich.{Floats}
use inferlog.Ingestion.Events.{RawEvent, IngestEvent, validate}
use inferlog.Ingestion.Processing.{LogRow, process_event}
use inferlog.Ingestion.Table.{upsert_log, has_row, has_row-upsert_log, has_row-upsert_log_mono}
use inferlog.Ingestion.Worker.{
  max_dlq_error_chars, Run, Parked, State, call, then_call, decode, ack, to_dlq, store,
  park_message, store_event, handle_valid, handle_one, handle,
}
use inferlog.Ingestion.Worker.Steps.{
  row_of, call-keeps, then_call-call, then_call-keeps, on_raise-keeps,
}

-- Some entry of the dead-letter stream carries this text.
unfoldable pub is_parked : Text → List Parked → Bool
is_parked data_text [] = false
is_parked data_text (entry ∷ dlq) = text_eq entry.data_text data_text || is_parked data_text dlq

-- The row of the event, if there is one, is in the table.
unfoldable pub has_row_of : {F : Type 0} → Option IngestEvent → List (LogRow F) → Bool
has_row_of none table = false
has_row_of (some event) table = has_row event.request_id table

is_parked-append :
    (data_text : Text) (dlq : List Parked) (entry : Parked)
    → is_parked data_text (dlq ++ (entry ∷ []))
      ≡ (is_parked data_text dlq || text_eq entry.data_text data_text)
unfolding is_parked
is_parked-append data_text [] entry = ground (arith, Bool-cases (text_eq entry.data_text data_text))
is_parked-append data_text (first ∷ dlq) entry =
    ground
      (arith, is_parked-append data_text dlq entry, Bool-cases (text_eq first.data_text data_text))

is_parked_mono :
    (data_text : Text) (dlq : List Parked) (entry : Parked)
    → is_parked data_text dlq ≡ true
    → is_parked data_text (dlq ++ (entry ∷ [])) ≡ true
is_parked_mono data_text dlq entry h = rw (is_parked-append data_text dlq entry, h)

is_parked-last :
    (data_text error : Text) (dlq : List Parked)
    → is_parked data_text (dlq ++ (record { error = error; data_text = data_text } ∷ [])) ≡ true
is_parked-last data_text error dlq =
    let entry : Parked = record { error = error; data_text = data_text } in
    rw (is_parked-append data_text dlq entry, (text_eq_iff data_text data_text).1 refl)
      (ground (arith, Bool-cases (is_parked data_text dlq)))

or_mono :
    (a a' b b' : Bool)
    → (a ≡ true → a' ≡ true)
    → (b ≡ true → b' ≡ true)
    → (a || b) ≡ true
    → (a' || b') ≡ true
or_mono true a' b b' f g h = rw (f refl)
or_mono false true b b' f g h = refl
or_mono false false b b' f g h = g h

or_true : (a : Bool) → (a || true) ≡ true
or_true true = refl
or_true false = refl

has_row_of_mono :
    {F : Type 0} (event : Option IngestEvent) (row : LogRow F) (table : List (LogRow F))
    → has_row_of event table ≡ true
    → has_row_of event (upsert_log row table).0 ≡ true
unfolding has_row_of
has_row_of_mono none row table h = ground arith
has_row_of_mono (some event) row table h = has_row-upsert_log_mono event.request_id row table h

module _ (py : Python) (dumps : Json → Text) (typed : Json → Option RawEvent) where
  module _ (subn : Subn) (fl : Floats) (defense : Bool) where
    -- The row of a message is stored, or the message is parked.
    unfoldable pub settled : Text → State fl.Float → Bool
    settled raw s =
        has_row_of (validate py typed (decode py raw)) s.table
        || is_parked (dumps (decode py raw)) s.dlq

    -- Every acknowledged message is settled; `content` is what the stream holds.
    abbrev pub IsSettled : (ℕ → Text) → State fl.Float → Type 0
    IsSettled content s = All (λ msg_id. settled (content msg_id) s ≡ true) s.acked

    settled-store :
        (row : LogRow fl.Float) (raw : Text) (s : State fl.Float)
        → settled raw s ≡ true
        → settled raw (store py dumps typed subn fl defense row s) ≡ true
    unfolding settled store
    settled-store row raw s h =
        let parked = is_parked (dumps (decode py raw)) s.dlq in
        or_mono _ _ parked parked (has_row_of_mono (validate py typed (decode py raw)) row s.table)
          (λ k. k) h

    settled-to_dlq :
        (other : Json) (error : Text) (raw : Text) (s : State fl.Float)
        → settled raw s ≡ true
        → settled raw (to_dlq py dumps typed subn fl defense other error s) ≡ true
    unfolding settled to_dlq
    settled-to_dlq other error raw s h =
        or_mono _ _ _ _ (λ k. k) (is_parked_mono (dumps (decode py raw)) s.dlq _) h

    to_dlq-settles :
        (error : Text) (raw : Text) (s : State fl.Float)
        → settled raw (to_dlq py dumps typed subn fl defense (decode py raw) error s) ≡ true
    unfolding settled to_dlq
    to_dlq-settles error raw s =
        rw (is_parked-last (dumps (decode py raw)) (take max_dlq_error_chars error) s.dlq)
          (or_true (has_row_of (validate py typed (decode py raw)) s.table))

    store-settles :
        (run : Run) (raw : Text) (event : IngestEvent) (s : State fl.Float)
        → validate py typed (decode py raw) ≡ some event
        → settled raw (
            store py dumps typed subn fl defense
              (row_of py dumps typed subn fl defense run event)
              s)
          ≡ true
    unfolding settled store has_row_of process_event
    store-settles run raw event s e =
        rw (e, has_row-upsert_log (row_of py dumps typed subn fl defense run event) s.table)

    module _ (content : ℕ → Text) where
      ack-IsSettled :
          (msg_id : ℕ) (s : State fl.Float)
          → IsSettled content s
          → settled (content msg_id) s ≡ true
          → IsSettled content (ack py dumps typed subn fl defense msg_id s)
      unfolding settled ack
      ack-IsSettled msg_id s h k = All-last _ s.acked msg_id h k

      to_dlq-IsSettled :
          (raw : Json) (error : Text) (s : State fl.Float)
          → IsSettled content s
          → IsSettled content (to_dlq py dumps typed subn fl defense raw error s)
      unfolding to_dlq
      to_dlq-IsSettled raw error s h =
          All-imp _ _ s.acked (λ n k. settled-to_dlq raw error (content n) s k) h

      store-IsSettled :
          (row : LogRow fl.Float) (s : State fl.Float)
          → IsSettled content s
          → IsSettled content (store py dumps typed subn fl defense row s)
      unfolding store
      store-IsSettled row s h = All-imp _ _ s.acked (λ n k. settled-store row (content n) s k) h

      park_message-IsSettled :
          (run : Run) (msg_id : ℕ) (error : Text) (s : State fl.Float)
          → IsSettled content s
          → IsSettled content
              (park_message py dumps typed subn fl defense run msg_id
                (decode py (content msg_id))
                error
                s).0
      unfolding park_message
      park_message-IsSettled run msg_id error s h =
          let raw = decode py (content msg_id) in
          let parked = to_dlq py dumps typed subn fl defense raw error s in
          let good = to_dlq-IsSettled raw error s h in
          let last = ack py dumps typed subn fl defense msg_id in
          then_call-call (IsSettled content) run.park
            (to_dlq py dumps typed subn fl defense raw error) (call run.last_ack last) s h good
            (call-keeps (IsSettled content) run.last_ack last parked good
              (ack-IsSettled msg_id parked good (to_dlq-settles error (content msg_id) s)))

      store_event-IsSettled :
          (run : Run) (msg_id : ℕ) (event : IngestEvent) (s : State fl.Float)
          → validate py typed (decode py (content msg_id)) ≡ some event
          → IsSettled content s
          → IsSettled content
              (store_event py dumps typed subn fl defense run msg_id
                (decode py (content msg_id))
                event
                s).0
      unfolding store_event
      store_event-IsSettled run msg_id event s e h =
          let row = row_of py dumps typed subn fl defense run event in
          let stored = store py dumps typed subn fl defense row s in
          let good = store-IsSettled row s h in
          let first = ack py dumps typed subn fl defense msg_id in
          let error = codes "processing error: " ++ run.processing_error in
          let raw = decode py (content msg_id) in
          on_raise-keeps (IsSettled content)
            (then_call (call run.upsert (store py dumps typed subn fl defense row) s)
              (call run.first_ack first))
            (park_message py dumps typed subn fl defense run msg_id raw error)
            (then_call-call (IsSettled content) run.upsert
              (store py dumps typed subn fl defense row) (call run.first_ack first) s h good
              (call-keeps (IsSettled content) run.first_ack first stored good
                (ack-IsSettled msg_id stored good (store-settles run (content msg_id) event s e))))
            (λ t k. park_message-IsSettled run msg_id error t k)

      handle_valid-IsSettled :
          (run : Run) (msg_id : ℕ) (event : Option IngestEvent) (s : State fl.Float)
          → validate py typed (decode py (content msg_id)) ≡ event
          → IsSettled content s
          → IsSettled content
              (handle_valid py dumps typed subn fl defense run msg_id
                (decode py (content msg_id))
                event
                s).0
      unfolding handle_valid
      handle_valid-IsSettled run msg_id none s e h = park_message-IsSettled run msg_id _ s h
      handle_valid-IsSettled run msg_id (some event) s e h =
          store_event-IsSettled run msg_id event s e h

      -- What the stream hands out for these runs: each message with its content.
      abbrev pub delivered : List (Run × ℕ) → List (Run × (ℕ × Text))
      delivered [] = []
      delivered ((run, msg_id) ∷ rest) = (run, (msg_id, content msg_id)) ∷ delivered rest

      -- Whatever calls fail or lose their answer, a message is acknowledged only if its row is in the
      -- table or the message is parked in the dead-letter stream.
      pub handle-IsSettled :
          (messages : List (Run × ℕ)) (s : State fl.Float)
          → IsSettled content s
          → IsSettled content (handle py dumps typed subn fl defense (delivered messages) s).0
      unfolding handle handle_one
      handle-IsSettled [] s h = h
      handle-IsSettled ((run, msg_id) ∷ rest) s h =
          then_call-keeps (IsSettled content)
            (handle_valid py dumps typed subn fl defense run msg_id (decode py (content msg_id))
              (validate py typed (decode py (content msg_id))) s)
            (handle py dumps typed subn fl defense (delivered rest))
            (handle_valid-IsSettled run msg_id (validate py typed (decode py (content msg_id))) s
              refl h)
            (λ t k. handle-IsSettled rest t k)
