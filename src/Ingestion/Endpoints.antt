-- ===== src/Ingestion/Endpoints.antt =====
-- ingestion/app/api.py: the endpoints that read, behind the key and the bounds of their parameters.
--
-- FastAPI is what asks the dependency first, and then checks the bounds. A parameter is what it has
-- read of the query string; `none` stands for one that is not given. Each statement of a query may
-- raise.
pub mod Served
mod Tests
use inferlog.Prelude.{ℕ, Bool, true, false, ◌&&◌, Option, none, some, List, leb, if◌then◌else◌}
use inferlog.Prelude.Int.{ℤ, pos, negsuc}
use inferlog.Prelude.Text.{Text}
use inferlog.Ingestion.Processing.{LogRow}
use inferlog.Ingestion.Api.{Access}
use inferlog.Ingestion.Dashboards.Rows.{Aggregates, Seen, BucketRow, Metrics, Errors}
use inferlog.Ingestion.Dashboards as Db

-- 200 with a body, 401, 422, or 500.
pub data Reply (A : Type 0) : Type 0 where
  ok : A → Reply A
  unauthorized : Reply A
  invalid : Reply A
  crashed : Reply A

-- `Query(default, ge=low, le=high)`; `none` is what FastAPI refuses.
unfoldable pub query : ℕ → ℕ → ℕ → Option ℤ → Option ℕ
query default low high none = some default
query default low high (some (pos n)) = if leb low n && leb n high then some n else none
query default low high (some (negsuc n)) = none

abbrev pub window_query : Option ℤ → Option ℕ
window_query = query 60 1 1440

abbrev pub bucket_query : Option ℤ → Option ℕ
bucket_query = query 60 10 3600

abbrev pub limit_query : Option ℤ → Option ℕ
limit_query = query 50 1 200

-- `dependencies=[Depends(require_api_key)]`
unfoldable pub admitted : {A : Type 0} → Access → Reply A → Reply A
admitted Access.granted reply = reply
admitted Access.denied reply = unauthorized
admitted Access.crashed reply = crashed

unfoldable pub with_query : {A : Type 0} → Option ℕ → (ℕ → Reply A) → Reply A
with_query none body = invalid
with_query (some n) body = body n

pub record Timeseries : Type 0 where
  pub window_minutes : ℕ
  pub bucket_seconds : ℕ
  pub points : List BucketRow

-- `UUID | None`: FastAPI's reading of the identifier is a parameter; `none` is what it refuses.
unfoldable pub uuid_query : (Text → Option ℕ) → Option Text → Option (Option ℕ)
uuid_query read_uuid none = some none
uuid_query read_uuid (some text) = elim (read_uuid text) [ none ↦ none | some id ↦ some (some id) ]

unfoldable pub with_uuid : {A : Type 0} → Option (Option ℕ) → (Option ℕ → Reply A) → Reply A
with_uuid none body = invalid
with_uuid (some id) body = body id

module _ {F : Type 0} where
  -- A call of the database: what it sees, or `none` where it raises, which is a 500.
  unfoldable pub answered : {A : Type 0} → Option (Seen F) → (Seen F → Reply A) → Reply A
  answered none body = crashed
  answered (some seen) body = body seen

  unfoldable pub metrics_errors :
      Access → Option ℤ → Option (Seen F) → Option (Seen F) → Reply Errors
  unfolding admitted with_query query answered
  metrics_errors access window earlier later = admitted access (
      with_query (window_query window)
        λ w. answered earlier λ e. answered later λ l. ok (Db.metrics_errors w e l))

  unfoldable pub recent_logs :
      (Text → Option ℕ)
      → Access
      → Option ℤ
      → Option Text
      → Option Text
      → Option (Seen F)
      → Reply (List (LogRow F))
  unfolding admitted with_query query with_uuid uuid_query answered
  recent_logs read_uuid access limit status conversation_id seen = admitted access (
      with_query (limit_query limit) λ n.
        with_uuid (uuid_query read_uuid conversation_id)
          λ id. answered seen λ s. ok (Db.recent_logs n status id s))

  module _ (db : Aggregates F) where
    unfoldable pub metrics_summary :
        Access → Option ℤ → Option (Seen F) → Option (Seen F) → Reply (Metrics F)
    unfolding admitted with_query query answered
    metrics_summary access window earlier later = admitted access (
        with_query (window_query window)
          λ w. answered earlier λ e. answered later λ l. ok (Db.metrics_summary db w e l))

    unfoldable pub metrics_timeseries :
        Access → Option ℤ → Option ℤ → Option (Seen F) → Reply Timeseries
    unfolding admitted with_query query answered
    metrics_timeseries access window bucket seen = admitted access (
        with_query (window_query window) λ w. with_query (bucket_query bucket) λ b.
          answered seen λ s. ok (record {
            window_minutes = w;
            bucket_seconds = b;
            points = Db.metrics_timeseries db w b s;
          }))
