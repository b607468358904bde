-- ===== src/Ingestion/Worker/Loop.antt =====
-- `run` of ingestion/app/worker.py: the loop that takes messages off the stream.
--
-- What Redis hands out is an input: at the start, and in each round of the loop, `read` and
-- `claim_stale` return messages or raise.
use inferlog.Prelude.{
  ℕ, Bool, true, false, ◌||◌, Option, none, some, List, [], ◌∷◌, if◌then◌else◌, ◌==◌,
}
use inferlog.Prelude.Json.{Json}
use inferlog.Prelude.Python.{Python}
use inferlog.Prelude.Text.{Text}
use inferlog.Sdk.Redaction.{Subn}
use inferlog.Ingestion.Enrich.{Floats}
use inferlog.Ingestion.Events.{RawEvent}
use inferlog.Ingestion.Worker.{Run, State, then_call, handle}

-- Messages with what happens to each.
abbrev pub Messages : Type 0
Messages = List (Run × (ℕ × Text))

-- A round: whether a signal has come, and what `read` gives, and `claim_stale` if it gives nothing;
-- `none` is an exception.
pub record Round : Type 0 where
  pub stopping : Bool
  pub fresh : Option Messages
  pub stale : Option Messages

abbrev pub nonempty_or : Messages → Option Messages → Option Messages
nonempty_or [] stale = stale
nonempty_or (m ∷ messages) stale = some (m ∷ messages)

-- What a round handles.
unfoldable pub taken_by : Round → Option Messages
taken_by r = elim r.fresh [ none ↦ none | some messages ↦ nonempty_or messages r.stale ]

module _ (py : Python) (dumps : Json → Text) (typed : Json → Option RawEvent) where
  module _ (subn : Subn) (fl : Floats) (defense : Bool) where
    -- `_handle` of what was read; of nothing it does nothing.
    unfoldable pub handle_reply : Option Messages → State fl.Float → State fl.Float × Bool
    handle_reply none s = (s, false)
    handle_reply (some messages) s = handle py dumps typed subn fl defense messages s

    -- The `while` loop, for the rounds that were seen.
    unfoldable pub loop : List Round → State fl.Float → State fl.Float × Bool
    unfolding handle_reply taken_by
    loop [] s = (s, true)
    loop (r ∷ rounds) s =
        if r.stopping then (s, true) else then_call (handle_reply (taken_by r) s) (loop rounds)

    -- `run`: first what a worker before this one has left pending.
    unfoldable pub run : Option Messages → List Round → State fl.Float → State fl.Float × Bool
    unfolding handle_reply loop
    run reclaimed rounds s = then_call (handle_reply reclaimed s) (loop rounds)

-- The replies that the worker handles: those of the rounds before the first one that stops.
unfoldable pub replies : List Round → List (Option Messages)
unfolding taken_by
replies [] = []
replies (r ∷ rounds) = let later = replies rounds in if r.stopping then [] else taken_by r ∷ later

unfoldable pub is_acked : ℕ → List ℕ → Bool
is_acked msg_id [] = false
is_acked msg_id (n ∷ acked) = n == msg_id || is_acked msg_id acked
