-- ===== src/Ingestion/Worker/Safe.antt =====
-- `run` of ingestion/app/worker.py acknowledges no message that is not settled.
use inferlog.Prelude.{
  All-split, ℕ, ◌≡◌, refl, sym, ap, Bool, Option, none, some, List, [], ◌∷◌, All, Bool-cases, inl,
  inr,
}
use mathlib.Core.Path.{subst}
use inferlog.Prelude.Json.{Json}
use inferlog.Prelude.Python.{Python}
use inferlog.Prelude.Text.{Text}
use inferlog.Sdk.Redaction.{Subn}
use inferlog.Ingestion.Enrich.{Floats}
use inferlog.Ingestion.Events.{RawEvent}
use inferlog.Ingestion.Worker.{Run, State, then_call, handle}
use inferlog.Ingestion.Worker.Steps.{then_call-keeps}
use inferlog.Ingestion.Worker.Settled.{IsSettled, delivered, handle-IsSettled}
use inferlog.Ingestion.Worker.Loop.{Messages, Round, taken_by, handle_reply, loop, run, replies}
use inferlog.Ingestion.Worker.Served.{messages_of, handed_out, replies-going}

-- The message has the content that the stream holds under its identifier.
abbrev pub IsFrom : (ℕ → Text) → Run × (ℕ × Text) → Type 0
IsFrom content m = m.1.1 ≡ content m.1.0

runs_of : Messages → List (Run × ℕ)
runs_of [] = []
runs_of ((run, (msg_id, raw)) ∷ rest) = (run, msg_id) ∷ runs_of rest

module _ (py : Python) (dumps : Json → Text) (typed : Json → Option RawEvent) where
  module _ (subn : Subn) (fl : Floats) (defense : Bool) (content : ℕ → Text) where
    abbrev Settled : State fl.Float → Type 0
    Settled = IsSettled py dumps typed subn fl defense content

    delivered-runs_of :
        (messages : Messages)
        → All (IsFrom content) messages
        → delivered py dumps typed subn fl defense content (runs_of messages) ≡ messages
    unfolding runs_of
    delivered-runs_of [] h = refl
    delivered-runs_of ((run, (msg_id, raw)) ∷ rest) h =
        rw (delivered-runs_of rest h.1) (ap (λ t. (run, (msg_id, t)) ∷ rest) (sym h.0))

    handle_reply-Settled :
        (reply : Option Messages) (s : State fl.Float)
        → All (IsFrom content) (messages_of reply)
        → Settled s
        → Settled (handle_reply py dumps typed subn fl defense reply s).0
    unfolding handle_reply
    handle_reply-Settled none s h k = k
    handle_reply-Settled (some messages) s h k =
        subst (λ ms. Settled (handle py dumps typed subn fl defense ms s).0)
          (delivered-runs_of messages h)
          (handle-IsSettled py dumps typed subn fl defense content (runs_of messages) s k)

    reply_then-Settled :
        (reply : Option Messages) (next : State fl.Float → State fl.Float × Bool)
        (s : State fl.Float)
        → All (IsFrom content) (messages_of reply)
        → ((t : State fl.Float) → Settled t → Settled (next t).0)
        → Settled s
        → Settled (then_call (handle_reply py dumps typed subn fl defense reply s) next).0
    reply_then-Settled reply next s h k l =
        then_call-keeps Settled (handle_reply py dumps typed subn fl defense reply s) next
          (handle_reply-Settled reply s h l) k

    loop-Settled :
        (rounds : List Round) (s : State fl.Float)
        → All (IsFrom content) (handed_out (replies rounds))
        → Settled s
        → Settled (loop py dumps typed subn fl defense rounds s).0
    unfolding loop
    loop-Settled [] s h k = k
    loop-Settled (r ∷ rounds) s h k = elim (Bool-cases r.stopping) [
      | inl e ↦ rw e k
      | inr e ↦
          let (first, later) =
            All-split (IsFrom content) (messages_of (taken_by r)) (handed_out (replies rounds))
              (subst (λ q. All (IsFrom content) (handed_out q)) (replies-going r rounds e) h) in
          rw e (
            reply_then-Settled (taken_by r) (loop py dumps typed subn fl defense rounds) s first
              (λ t l. loop-Settled rounds t later l) k)
    ]

    -- Whatever calls to Redis or the database fail or lose their answer, in the reclaiming at the
    -- start and in every round of the loop, and wherever the worker ends: if it is handed what the
    -- stream holds, every acknowledged message has its row in the table or is parked in the
    -- dead-letter stream, if that held before.
    pub run-IsSettled :
        (reclaimed : Option Messages) (rounds : List Round) (s : State fl.Float)
        → All (IsFrom content) (handed_out (reclaimed ∷ replies rounds))
        → IsSettled py dumps typed subn fl defense content s
        → IsSettled py dumps typed subn fl defense content
            (run py dumps typed subn fl defense reclaimed rounds s).0
    unfolding run
    run-IsSettled reclaimed rounds s h k =
        let (first, later) =
          All-split (IsFrom content) (messages_of reclaimed) (handed_out (replies rounds)) h in
        reply_then-Settled reclaimed (loop py dumps typed subn fl defense rounds) s first
          (λ t l. loop-Settled rounds t later l) k
