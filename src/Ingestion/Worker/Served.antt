-- ===== src/Ingestion/Worker/Served.antt =====
-- Every message that the loop of ingestion/app/worker.py takes is acknowledged in the end.
use mathlib.Core.Path.{subst, sym}
use inferlog.Prelude.{
  All-imp, All-append, ℕ, ◌≡◌, refl, Bool, true, false, Option, none, some, List, [], ◌∷◌, ◌++◌,
  All, Bool-cases, inl, inr,
}
use inferlog.Prelude.Json.{Json}
use inferlog.Prelude.Python.{Python}
use inferlog.Prelude.Text.{Text}
use inferlog.Sdk.Redaction.{Subn}
use inferlog.Ingestion.Enrich.{Floats}
use inferlog.Ingestion.Events.{RawEvent}
use inferlog.Ingestion.Worker.{State, then_call}
use inferlog.Ingestion.Worker.Steps.{then_call-keeps}
use inferlog.Ingestion.Worker.Loop.{Messages, Round, taken_by, handle_reply, loop, run, replies}
use inferlog.Ingestion.Worker.Acked.{
  Answers, then_call-next, Acks, AllDone, handle_mono, handle-AllDone,
}

-- Redis answers the read, and the two calls of each of its messages.
unfoldable pub Serves : Option Messages → Type 0
Serves reply = (messages : Messages) × (reply ≡ some messages) × All Answers messages

abbrev pub messages_of : Option Messages → Messages
messages_of none = []
messages_of (some messages) = messages

-- The messages of some replies, in order.
abbrev pub handed_out : List (Option Messages) → Messages
handed_out [] = []
handed_out (reply ∷ rest) = messages_of reply ++ handed_out rest

replies-nil : replies [] ≡ []
unfolding replies
replies-nil = refl

replies-stopping : (r : Round) (rounds : List Round) → r.stopping ≡ true → replies (r ∷ rounds) ≡ []
unfolding replies
replies-stopping r rounds e = rw e refl

pub replies-going :
    (r : Round) (rounds : List Round)
    → r.stopping ≡ false
    → replies (r ∷ rounds) ≡ taken_by r ∷ replies rounds
unfolding replies
replies-going r rounds e = rw e refl

module _ (py : Python) (dumps : Json → Text) (typed : Json → Option RawEvent) where
  module _ (subn : Subn) (fl : Floats) (defense : Bool) where
    handle_reply_mono :
        (k : ℕ) (reply : Option Messages) (s : State fl.Float)
        → Acks py dumps typed subn fl defense k s
        → Acks py dumps typed subn fl defense k
            (handle_reply py dumps typed subn fl defense reply s).0
    unfolding handle_reply
    handle_reply_mono k none s h = h
    handle_reply_mono k (some messages) s h =
        handle_mono py dumps typed subn fl defense k messages s h

    loop_mono :
        (k : ℕ) (rounds : List Round) (s : State fl.Float)
        → Acks py dumps typed subn fl defense k s
        → Acks py dumps typed subn fl defense k (loop py dumps typed subn fl defense rounds s).0
    unfolding loop
    loop_mono k [] s h = h
    loop_mono k (r ∷ rounds) s h = elim (Bool-cases r.stopping) [
      | inl e ↦ rw e h
      | inr e ↦ rw e (
          then_call-keeps (Acks py dumps typed subn fl defense k)
            (handle_reply py dumps typed subn fl defense (taken_by r) s)
            (loop py dumps typed subn fl defense rounds) (handle_reply_mono k (taken_by r) s h)
            (λ t l. loop_mono k rounds t l))
    ]

    handle_reply-AllDone :
        (reply : Option Messages) (s : State fl.Float)
        → Serves reply
        → AllDone py dumps typed subn fl defense
            (messages_of reply)
            (handle_reply py dumps typed subn fl defense reply s)
    unfolding handle_reply Serves
    handle_reply-AllDone reply s (messages, e, h) =
        subst
          (λ r.
            AllDone py dumps typed subn fl defense (messages_of r)
              (handle_reply py dumps typed subn fl defense r s))
          (sym e) (handle-AllDone py dumps typed subn fl defense messages s h)

    -- One reply, and then what comes later.
    reply_then-AllDone :
        (reply : Option Messages) (later : Messages) (next : State fl.Float → State fl.Float × Bool)
        (s : State fl.Float)
        → ((k : ℕ) (t : State fl.Float)
            → Acks py dumps typed subn fl defense k t
            → Acks py dumps typed subn fl defense k (next t).0)
        → ((t : State fl.Float) → AllDone py dumps typed subn fl defense later (next t))
        → Serves reply
        → AllDone py dumps typed subn fl defense
            (messages_of reply ++ later)
            (then_call (handle_reply py dumps typed subn fl defense reply s) next)
    reply_then-AllDone reply later next s mono done h =
        let x = handle_reply py dumps typed subn fl defense reply s in
        let first = handle_reply-AllDone reply s h in
        let last = done x.0 in
        subst (AllDone py dumps typed subn fl defense (messages_of reply ++ later))
          (sym (then_call-next x next first.0))
          (
            last.0,
            All-append _ (messages_of reply) later
                (All-imp _ _ (messages_of reply) (λ m k. mono m.1.0 x.0 k) first.1) last.1,
          )

    pub loop-stopping :
        (r : Round) (rounds : List Round) (s : State fl.Float)
        → r.stopping ≡ true
        → loop py dumps typed subn fl defense (r ∷ rounds) s ≡ (s, true)
    unfolding loop
    loop-stopping r rounds s e = rw e refl

    pub loop-going :
        (r : Round) (rounds : List Round) (s : State fl.Float)
        → r.stopping ≡ false
        → loop py dumps typed subn fl defense (r ∷ rounds) s
          ≡ then_call
              (handle_reply py dumps typed subn fl defense (taken_by r) s)
              (loop py dumps typed subn fl defense rounds)
    unfolding loop
    loop-going r rounds s e = rw e refl

    loop-end : (s : State fl.Float) → (loop py dumps typed subn fl defense [] s).1 ≡ true
    unfolding loop
    loop-end s = refl

    -- The loop, from what it gives and what it is given.
    abbrev LoopDone : List Round → State fl.Float → Type 0
    LoopDone rounds s =
        AllDone py dumps typed subn fl defense (handed_out (replies rounds))
          (loop py dumps typed subn fl defense rounds s)

    loop-AllDone :
        (rounds : List Round) (s : State fl.Float) → All Serves (replies rounds) → LoopDone rounds s
    loop-AllDone [] s h = rw replies-nil (loop-end s, tt)
    loop-AllDone (r ∷ rounds) s h = elim (Bool-cases r.stopping) [
      | inl e ↦ rw (replies-stopping r rounds e, loop-stopping r rounds s e) (refl, tt)
      | inr e ↦
          let served = subst (All Serves) (replies-going r rounds e) h in
          subst
            (λ q.
              AllDone py dumps typed subn fl defense (handed_out q)
                (loop py dumps typed subn fl defense (r ∷ rounds) s))
            (sym (replies-going r rounds e))
            (subst
              (AllDone py dumps typed subn fl defense (handed_out (taken_by r ∷ replies rounds)))
              (sym (loop-going r rounds s e))
              (reply_then-AllDone (taken_by r) (handed_out (replies rounds))
                (loop py dumps typed subn fl defense rounds) s (λ k t l. loop_mono k rounds t l)
                (λ t. loop-AllDone rounds t served.1) served.0))
    ]

    -- If the reads do not raise, and for each message that they give the dead-letter call and the
    -- acknowledgement after it are answered, then whatever the calls of the database and the first
    -- acknowledgements do, the worker runs without an exception until it is stopped, and every
    -- message that it was given at the start or in a round before the stop is acknowledged.
    pub run-AllDone :
        (reclaimed : Option Messages) (rounds : List Round) (s : State fl.Float)
        → All Serves (reclaimed ∷ replies rounds)
        → AllDone py dumps typed subn fl defense
            (handed_out (reclaimed ∷ replies rounds))
            (run py dumps typed subn fl defense reclaimed rounds s)
    unfolding run
    run-AllDone reclaimed rounds s h =
        reply_then-AllDone reclaimed (handed_out (replies rounds))
          (loop py dumps typed subn fl defense rounds) s (λ k t l. loop_mono k rounds t l)
          (λ t. loop-AllDone rounds t h.1) h.0
