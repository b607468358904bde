-- ===== src/Ingestion/Worker/Acked.antt =====
-- `_handle` of ingestion/app/worker.py acknowledges every message.
use mathlib.Core.Path.{subst, sym}
use inferlog.Prelude.{
  ℕ, ◌≡◌, refl, ap, ◌∙◌, Bool, true, false, Option, none, some, List, [], ◌∷◌, ◌++◌, All, ◌==◌,
  arith, Bool-cases,
}
use inferlog.Prelude.Json.{Json}
use inferlog.Prelude.Python.{Python}
use inferlog.Prelude.Text.{Text}
use inferlog.Sdk.Redaction.{Subn}
use inferlog.Ingestion.Enrich.{Floats}
use inferlog.Ingestion.Events.{RawEvent, IngestEvent, validate}
use inferlog.Ingestion.Worker.{
  Call, Run, State, call, then_call, on_raise, decode, ack, to_dlq, store, park_message,
  store_event, handle_valid, handle_one, handle,
}
use inferlog.Ingestion.Worker.Steps.{
  row_of, call-keeps, then_call-call, then_call-keeps, on_raise-keeps,
}
use inferlog.Ingestion.Worker.Loop.{Messages, run, is_acked}

is_acked-last : (msg_id : ℕ) (acked : List ℕ) → is_acked msg_id (acked ++ (msg_id ∷ [])) ≡ true
unfolding is_acked
is_acked-last msg_id [] = ground arith
is_acked-last msg_id (n ∷ acked) =
    ground (arith, is_acked-last msg_id acked, Bool-cases (n == msg_id))

is_acked_mono :
    (k msg_id : ℕ) (acked : List ℕ)
    → is_acked k acked ≡ true
    → is_acked k (acked ++ (msg_id ∷ [])) ≡ true
unfolding is_acked
is_acked_mono k msg_id [] h = ground arith
is_acked_mono k msg_id (n ∷ acked) h =
    ground (arith, is_acked_mono k msg_id acked, Bool-cases (n == k))

-- A `try` whose handler succeeds, and after which `P` holds both ways.
tried :
    {S : Type 0} (P : S → Type 0) (c d : Call) (store ack : S → S) (handler : S → S × Bool) (s : S)
    → ((t : S) → P (ack t))
    → ((t : S) → ((handler t).1 ≡ true) × P (handler t).0)
    → ((on_raise (then_call (call c store s) (call d ack)) handler).1 ≡ true)
      × P (on_raise (then_call (call c store s) (call d ack)) handler).0
unfolding call then_call on_raise
tried P Call.failed d store ack handler s h k = k s
tried P Call.unanswered d store ack handler s h k = k (store s)
tried P Call.answered Call.answered store ack handler s h k = (refl, h (store s))
tried P Call.answered Call.failed store ack handler s h k = k (store s)
tried P Call.answered Call.unanswered store ack handler s h k = k (ack (store s))

-- The two calls that follow a message that cannot be stored are answered.
unfoldable pub Answers : Run × (ℕ × Text) → Type 0
Answers (run, message) = (run.park ≡ Call.answered) × (run.last_ack ≡ Call.answered)

pub then_call-next :
    {S : Type 0} (x : S × Bool) (next : S → S × Bool) → x.1 ≡ true → then_call x next ≡ next x.0
unfolding then_call
then_call-next (s, true) next h = refl
then_call-next (s, false) next h = ground arith

module _ (py : Python) (dumps : Json → Text) (typed : Json → Option RawEvent) where
  module _ (subn : Subn) (fl : Floats) (defense : Bool) where
    abbrev pub Acks : ℕ → State fl.Float → Type 0
    Acks msg_id s = is_acked msg_id s.acked ≡ true

    abbrev acked_by : ℕ → State fl.Float → State fl.Float
    acked_by msg_id = ack py dumps typed subn fl defense msg_id

    ack-Acks : (msg_id : ℕ) (s : State fl.Float) → Acks msg_id (acked_by msg_id s)
    unfolding ack
    ack-Acks msg_id s = is_acked-last msg_id s.acked

    park_message-acks :
        (run : Run) (msg_id : ℕ) (raw : Json) (error : Text) (s : State fl.Float)
        → run.park ≡ Call.answered
        → run.last_ack ≡ Call.answered
        → park_message py dumps typed subn fl defense run msg_id raw error s
          ≡ (acked_by msg_id (to_dlq py dumps typed subn fl defense raw error s), true)
    unfolding park_message call then_call
    park_message-acks run msg_id raw error s e f =
        let parked = to_dlq py dumps typed subn fl defense raw error in
        ap (λ c. then_call (call c parked s) (call run.last_ack (acked_by msg_id))) e
        ∙ ap (λ c. call c (acked_by msg_id) (parked s)) f

    -- The outcome of a message: no exception, and it is acknowledged.
    abbrev IsDone : ℕ → State fl.Float × Bool → Type 0
    IsDone msg_id x = (x.1 ≡ true) × Acks msg_id x.0

    park_message-IsDone :
        (run : Run) (msg_id : ℕ) (raw : Json) (error : Text) (s : State fl.Float)
        → run.park ≡ Call.answered
        → run.last_ack ≡ Call.answered
        → IsDone msg_id (park_message py dumps typed subn fl defense run msg_id raw error s)
    park_message-IsDone run msg_id raw error s e f =
        rw (park_message-acks run msg_id raw error s e f)
          (refl, ack-Acks msg_id (to_dlq py dumps typed subn fl defense raw error s))

    handle_valid-IsDone :
        (run : Run) (msg_id : ℕ) (raw : Json) (event : Option IngestEvent) (s : State fl.Float)
        → run.park ≡ Call.answered
        → run.last_ack ≡ Call.answered
        → IsDone msg_id (handle_valid py dumps typed subn fl defense run msg_id raw event s)
    unfolding handle_valid store_event
    handle_valid-IsDone run msg_id raw none s e f = park_message-IsDone run msg_id raw _ s e f
    handle_valid-IsDone run msg_id raw (some event) s e f =
        tried (Acks msg_id) run.upsert run.first_ack _ (acked_by msg_id) _ s (ack-Acks msg_id)
          (λ t. park_message-IsDone run msg_id raw _ t e f)

    module _ (k : ℕ) where
      acked_by_mono : (msg_id : ℕ) (s : State fl.Float) → Acks k s → Acks k (acked_by msg_id s)
      unfolding ack
      acked_by_mono msg_id s h = is_acked_mono k msg_id s.acked h

      park_message_mono :
          (run : Run) (msg_id : ℕ) (raw : Json) (error : Text) (s : State fl.Float)
          → Acks k s
          → Acks k (park_message py dumps typed subn fl defense run msg_id raw error s).0
      unfolding park_message to_dlq
      park_message_mono run msg_id raw error s h =
          let parked = to_dlq py dumps typed subn fl defense raw error in
          then_call-call (Acks k) run.park parked (call run.last_ack (acked_by msg_id)) s h h (
            call-keeps (Acks k) run.last_ack (acked_by msg_id) (parked s) h
              (acked_by_mono msg_id (parked s) h))

      handle_valid_mono :
          (run : Run) (msg_id : ℕ) (raw : Json) (event : Option IngestEvent) (s : State fl.Float)
          → Acks k s
          → Acks k (handle_valid py dumps typed subn fl defense run msg_id raw event s).0
      unfolding handle_valid store_event store
      handle_valid_mono run msg_id raw none s h = park_message_mono run msg_id raw _ s h
      handle_valid_mono run msg_id raw (some event) s h =
          let stored =
            store py dumps typed subn fl defense
              (row_of py dumps typed subn fl defense run event) in
          on_raise-keeps (Acks k) _ (park_message py dumps typed subn fl defense run msg_id raw _)
            (then_call-call (Acks k) run.upsert stored (call run.first_ack (acked_by msg_id)) s h h
              (call-keeps (Acks k) run.first_ack (acked_by msg_id) (stored s) h
                (acked_by_mono msg_id (stored s) h)))
            (λ t l. park_message_mono run msg_id raw _ t l)

      pub handle_mono :
          (messages : Messages) (s : State fl.Float)
          → Acks k s
          → Acks k (handle py dumps typed subn fl defense messages s).0
      unfolding handle handle_one
      handle_mono [] s h = h
      handle_mono ((run, (msg_id, raw)) ∷ rest) s h =
          then_call-keeps (Acks k) _ (handle py dumps typed subn fl defense rest)
            (handle_valid_mono run msg_id (decode py raw) (validate py typed (decode py raw)) s h)
            (λ t l. handle_mono rest t l)

    -- No exception, and every message is acknowledged.
    abbrev pub AllDone : Messages → State fl.Float × Bool → Type 0
    AllDone messages x = (x.1 ≡ true) × All (λ m. is_acked m.1.0 x.0.acked ≡ true) messages

    pub handle-AllDone :
        (messages : Messages) (s : State fl.Float)
        → All Answers messages
        → AllDone messages (handle py dumps typed subn fl defense messages s)
    unfolding handle handle_one Answers
    handle-AllDone [] s h = (refl, tt)
    handle-AllDone ((run, (msg_id, raw)) ∷ rest) s h =
        let x =
          handle_valid py dumps typed subn fl defense run msg_id (decode py raw)
            (validate py typed (decode py raw)) s in
        let done =
          handle_valid-IsDone run msg_id (decode py raw) (validate py typed (decode py raw)) s h.0.0
            h.0.1 in
        let later = handle-AllDone rest x.0 h.1 in
        subst (AllDone ((run, (msg_id, raw)) ∷ rest))
          (sym (then_call-next x (handle py dumps typed subn fl defense rest) done.0))
          (later.0, (handle_mono msg_id rest x.0 done.1, later.1))
