-- ===== src/Ingestion/Endpoints/Served.antt =====
-- What the reading endpoints of ingestion/app/api.py reply.
use mathlib.Core.Path.{subst}
use inferlog.Prelude.{
  ℕ, ◌≤◌, ◌≡◌, refl, ◌⊎◌, inl, inr, ◌&&◌, Option, none, some, List, leb, ◌==◌, arith, Bool-cases,
  Option-cases, All,
}
use inferlog.Prelude.Int.{ℤ, pos, negsuc}
use inferlog.Prelude.Queries.{IsOrdered, IsPage, asc, desc}
use inferlog.Prelude.Groups.Views.{IsGrouped}
use inferlog.Prelude.Text.{Text}
use inferlog.Ingestion.Processing.{LogRow}
use inferlog.Ingestion.Api.{Access}
use inferlog.Ingestion.Dashboards.Rows.{Aggregates, Seen}
use inferlog.Ingestion.Dashboards.{bucket_of}
use inferlog.Ingestion.Dashboards as Db
use inferlog.Ingestion.Dashboards.Described.{
  recent_rows, point_of, of_status, of_conversation, passes-eq,
}
use inferlog.Ingestion.Dashboards.Buckets.{IsOfBucket}
use inferlog.Ingestion.Dashboards.Recent.{recent_logs-IsPage}
use inferlog.Ingestion.Endpoints.{
  Reply, ok, unauthorized, invalid, crashed, query, admitted, with_query, Timeseries, recent_logs,
  uuid_query, with_uuid, answered,
}

-- What is given, or the default.
abbrev pub given_or : ℕ → Option ℤ → ℤ
given_or default none = pos default
given_or default (some given) = given

abbrev pub IsWithin : ℕ → ℕ → ℤ → Type 0
IsWithin low high (pos n) = (low ≤ n) × (n ≤ high)
IsWithin low high (negsuc n) = ⊥

-- A query parameter is refused, or it is read as a number within its bounds.
query_cases :
    (default low high : ℕ) (given : Option ℤ)
    → low ≤ default
    → default ≤ high
    → ((query default low high given ≡ none) × (IsWithin low high (given_or default given) → ⊥))
      ⊎ ((n : ℕ) × (query default low high given ≡ some n)
          × (given_or default given ≡ pos n)
          × (low ≤ n)
          × (n ≤ high))
unfolding query
query_cases default low high none h k = inr (default, refl, refl, h, k)
query_cases default low high (some (negsuc n)) h k = inl (refl, λ e. e)
query_cases default low high (some (pos n)) h k = elim (Bool-cases (leb low n && leb n high)) [
  | inl e ↦ inr (n, rw e refl, refl, ground arith, ground arith)
  | inr e ↦ inl (rw e refl, λ b. ground arith)
]

-- FastAPI reads the identifier of the conversation, where one is given.
abbrev pub IsRead : (Text → Option ℕ) → Option Text → Option ℕ → Type 0
IsRead read_uuid none id = id ≡ none
IsRead read_uuid (some text) id = (key : ℕ) × (read_uuid text ≡ some key) × (id ≡ some key)

uuid_query_cases :
    (read_uuid : Text → Option ℕ) (given : Option Text)
    → ((uuid_query read_uuid given ≡ none) × ((id : Option ℕ) → IsRead read_uuid given id → ⊥))
      ⊎ ((id : Option ℕ) × (uuid_query read_uuid given ≡ some id) × IsRead read_uuid given id)
unfolding uuid_query
uuid_query_cases read_uuid none = inr (none, refl, refl)
uuid_query_cases read_uuid (some text) = elim (Option-cases (read_uuid text)) [
  | inl e ↦ inl (ground arith, λ id k. let (key, f, g) = k in cc)
  | inr (key, e) ↦ inr (some key, ground arith, (key, e, refl))
]

module _ {F : Type 0} where
  -- The reply to a request for the log.
  abbrev pub IsLogReply :
      (Text → Option ℕ)
      → Access
      → Option ℤ
      → Option Text
      → Option Text
      → Option (Seen F)
      → Reply (List (LogRow F))
      → Type 0
  IsLogReply read_uuid access limit status conversation_id seen (ok page) =
      (access ≡ Access.granted)
      × ((n : ℕ) × (id : Option ℕ) × (s : Seen F) × (given_or 50 limit ≡ pos n)
          × (1 ≤ n)
          × (n ≤ 200)
          × IsRead read_uuid conversation_id id
          × (seen ≡ some s)
          × IsPage (desc (λ row. row.started_at)) n (of_status status (of_conversation id s.table))
              page)
  IsLogReply read_uuid access limit status conversation_id seen unauthorized =
      access ≡ Access.denied
  IsLogReply read_uuid access limit status conversation_id seen crashed =
      (access ≡ Access.crashed)
      ⊎ ((id : Option ℕ) × (access ≡ Access.granted)
          × IsWithin 1 200 (given_or 50 limit)
          × IsRead read_uuid conversation_id id
          × (seen ≡ none))
  IsLogReply read_uuid access limit status conversation_id seen invalid =
      (access ≡ Access.granted)
      × ((IsWithin 1 200 (given_or 50 limit) → ⊥)
          ⊎ ((id : Option ℕ) → IsRead read_uuid conversation_id id → ⊥))

  -- The reply to a request for the time series.
  abbrev pub IsTimeseriesReply :
      Aggregates F → Access → Option ℤ → Option ℤ → Option (Seen F) → Reply Timeseries → Type 0
  IsTimeseriesReply db access window bucket seen (ok answer) =
      (s : Seen F) × (access ≡ Access.granted)
      × (seen ≡ some s)
      × (given_or 60 window ≡ pos answer.window_minutes)
      × (given_or 60 bucket ≡ pos answer.bucket_seconds)
      × ((1 ≤ answer.window_minutes) × (answer.window_minutes ≤ 1440))
      × ((10 ≤ answer.bucket_seconds) × (answer.bucket_seconds ≤ 3600))
      × IsGrouped (bucket_of answer.bucket_seconds) (◌==◌) (point_of db) (λ b. b.bucket)
          (recent_rows answer.window_minutes s) answer.points
      × IsOrdered (asc (λ b. b.bucket)) answer.points
      × All (IsOfBucket answer.bucket_seconds) (recent_rows answer.window_minutes s)
  IsTimeseriesReply db access window bucket seen unauthorized = access ≡ Access.denied
  IsTimeseriesReply db access window bucket seen crashed =
      (access ≡ Access.crashed)
      ⊎ ((access ≡ Access.granted)
          × IsWithin 1 1440 (given_or 60 window)
          × IsWithin 10 3600 (given_or 60 bucket)
          × (seen ≡ none))
  IsTimeseriesReply db access window bucket seen invalid =
      (access ≡ Access.granted)
      × (IsWithin 1 1440 (given_or 60 window) × IsWithin 10 3600 (given_or 60 bucket) → ⊥)

  logs_answered :
      (read_uuid : Text → Option ℕ) (limit : Option ℤ) (status : Option Text)
      (conversation_id : Option Text) (n : ℕ) (id : Option ℕ)
      → given_or 50 limit ≡ pos n
      → 1 ≤ n
      → n ≤ 200
      → IsRead read_uuid conversation_id id
      → (seen : Option (Seen F))
      → IsLogReply read_uuid Access.granted limit status conversation_id seen
          (answered seen λ s. ok (Db.recent_logs n status id s))
  unfolding answered
  logs_answered read_uuid limit status conversation_id n id within low high known none =
      inr (id, refl, rw within (low, high), known, refl)
  logs_answered read_uuid limit status conversation_id n id within low high known (some s) = (
    refl,
    (
      n,
      id,
      s,
      within,
      low,
      high,
      known,
      refl,
      subst
          (λ l.
            IsPage (desc (λ (row : LogRow F). row.started_at)) n l (Db.recent_logs n status id s))
          (passes-eq status id s.table) (recent_logs-IsPage n status id s),
    ),
  )

  -- Whatever is asked: a request for the log whose key is granted is refused with a 422 only if its
  -- limit, where one is given, is not from 1 to 200, or the identifier of the conversation, where one
  -- is given, cannot be read; it is a 500 only if the parameters are fine and the query raises; and it
  -- is answered only where all of this is fine, with the page of the newest rows that have the status
  -- and the conversation that are asked for, as many as the limit says, or 50. A key that is not
  -- granted is what refuses it first.
  pub recent_logs-IsLogReply :
      (read_uuid : Text → Option ℕ) (access : Access) (limit : Option ℤ) (status : Option Text)
      (conversation_id : Option Text) (seen : Option (Seen F))
      → IsLogReply read_uuid access limit status conversation_id seen
          (recent_logs read_uuid access limit status conversation_id seen)
  unfolding recent_logs admitted with_query with_uuid answered
  recent_logs-IsLogReply read_uuid Access.denied limit status conversation_id seen = refl
  recent_logs-IsLogReply read_uuid Access.crashed limit status conversation_id seen = inl refl
  recent_logs-IsLogReply read_uuid Access.granted limit status conversation_id seen =
      elim (query_cases 50 1 200 limit (omega arith) (omega arith)) [
        | inl (e, refused) ↦ rw e (refl, inl refused)
        | inr (n, e, within, low, high) ↦ rw e (elim (uuid_query_cases read_uuid conversation_id) [
          | inl (f, refused) ↦ rw f (refl, inr refused)
          | inr (id, f, known) ↦
              rw f (
                logs_answered read_uuid limit status conversation_id n id within low high known
                  seen)
        ])
      ]
