-- ===== src/Ingestion/Dashboards.antt =====
-- ingestion/app/db.py, the read path: the queries behind the dashboards.
--
-- A query sees the table and the clock of its own moment, a `Seen`; times are microseconds since
-- 1970. `percentile_cont(p / 100)` rounded to an integer and the sum of the costs are floats of the
-- database and are a parameter. `processed_at`, which the database sets itself, is left out of the
-- rows.
pub mod Rows
pub mod Totals
pub mod ByModel
pub mod Buckets
pub mod Recent
pub mod Order
pub mod Inserts
pub mod Described
use inferlog.Prelude.{
  ℕ, ◌+◌, ◌*◌, ◌/◌, Bool, true, false, ◌&&◌, Option, none, some, List, map, ◌==◌, leb, length, take,
  filter, count_if, if◌then◌else◌,
}
use inferlog.Prelude.Text.{Text, text_eq}
use inferlog.Prelude.Queries.{total, order_by, desc, asc}
use inferlog.Prelude.Groups.{group_by}
use inferlog.Sdk.Events.{Status}
use inferlog.Ingestion.Processing.{LogRow}
use Rows.{
  Aggregates, Seen, SummaryRow, ModelRow, BucketRow, TypeRow, ErrorRow, Metrics, Errors, known,
  or_zero, average, is_error, is_success, is_cancelled, status_text, minute, second, same_text?,
  same_pair, or_unknown,
}

module _ {F : Type 0} where
  -- `started_at >= now() - make_interval(mins => $1)`
  abbrev pub is_within : ℕ → ℕ → LogRow F → Bool
  is_within now window row = leb now (row.started_at + window * minute)

  unfoldable pub in_window : ℕ → Seen F → List (LogRow F)
  in_window window seen = filter (is_within seen.now window) seen.table

  -- `count(*) FILTER (WHERE status = …)`
  unfoldable pub count_status : (Status → Bool) → List (LogRow F) → ℕ
  count_status test rows = count_if (λ row. test row.status) rows

  -- `coalesce(sum(total_tokens), 0)`
  unfoldable pub sum_tokens : List (LogRow F) → ℕ
  sum_tokens rows = total (λ row. or_zero row.total_tokens) rows

  abbrev pub model_key : LogRow F → Text × Text
  model_key row = (row.provider, row.model)

  -- The start of the bucket that a time is in.
  abbrev pub bucket_of : ℕ → LogRow F → ℕ
  bucket_of bucket_seconds row =
      row.started_at / (bucket_seconds * second) * (bucket_seconds * second)

  abbrev pub error_row : LogRow F → ErrorRow
  error_row row = record {
    request_id = row.request_id;
    provider = row.provider;
    model = row.model;
    error_type = row.error_type;
    error_message = row.error_message;
    started_at = row.started_at;
  }

  abbrev pub latencies : List (LogRow F) → List ℕ
  latencies rows = map (λ row. row.latency_ms) rows

  unfoldable pub type_row : Option Text × List (LogRow F) → TypeRow
  type_row (error_type, rows) = record { error_type = or_unknown error_type; count = length rows }

  abbrev pub failures : ℕ → Seen F → List (LogRow F)
  failures window seen = filter (λ row. is_error row.status) (in_window window seen)

  unfoldable pub by_type : ℕ → Seen F → List TypeRow
  unfolding type_row
  by_type window seen =
      order_by (desc (λ t. t.count))
        (map type_row (group_by (λ row. row.error_type) same_text? (failures window seen)))

  unfoldable pub recent_errors : ℕ → Seen F → List ErrorRow
  recent_errors window seen =
      map error_row (take 20 (order_by (desc (λ row. row.started_at)) (failures window seen)))

  unfoldable pub metrics_errors : ℕ → Seen F → Seen F → Errors
  unfolding by_type recent_errors
  metrics_errors window earlier later = record {
    window_minutes = window;
    by_type = by_type window earlier;
    recent = recent_errors window later;
  }

  -- `($2::text IS NULL OR status = $2) AND ($3::uuid IS NULL OR conversation_id = $3)`
  abbrev pub passes : Option Text → Option ℕ → LogRow F → Bool
  passes status conversation_id row =
      elim status [ none ↦ true | some wanted ↦ text_eq (status_text row.status) wanted ]
      && elim conversation_id [
        | none ↦ true
        | some wanted ↦ elim row.conversation_id [ none ↦ false | some id ↦ id == wanted ]
      ]

  unfoldable pub recent_logs : ℕ → Option Text → Option ℕ → Seen F → List (LogRow F)
  recent_logs limit status conversation_id seen =
      take limit (
        order_by (desc (λ row. row.started_at)) (filter (passes status conversation_id) seen.table))

  module _ (db : Aggregates F) where
    abbrev pub latency_at : ℕ → List (LogRow F) → ℕ
    latency_at p rows = or_zero (db.percentile p (latencies rows))

    -- `coalesce(sum(estimated_cost_usd), 0.0)`
    abbrev pub cost_of : List (LogRow F) → F
    cost_of rows = elim (db.sum_cost (known (λ row. row.estimated_cost_usd) rows)) [
      | none ↦ db.no_cost
      | some cost ↦ cost
    ]

    unfoldable pub summary_row : List (LogRow F) → SummaryRow F
    summary_row rows = record {
      total_requests = length rows;
      success = count_status is_success rows;
      errors = count_status is_error rows;
      cancelled = count_status is_cancelled rows;
      avg_latency_ms = average (latencies rows);
      p50_latency_ms = latency_at 50 rows;
      p95_latency_ms = latency_at 95 rows;
      p99_latency_ms = latency_at 99 rows;
      avg_ttft_ms = average (known (λ row. row.ttft_ms) rows);
      total_tokens = sum_tokens rows;
      total_cost_usd = cost_of rows;
    }

    unfoldable pub model_row : (Text × Text) × List (LogRow F) → ModelRow F
    model_row ((provider, model), rows) = record {
      provider = provider;
      model = model;
      requests = length rows;
      errors = count_status is_error rows;
      avg_latency_ms = average (latencies rows);
      tokens = sum_tokens rows;
      cost_usd = cost_of rows;
    }

    unfoldable pub bucket_row : ℕ × List (LogRow F) → BucketRow
    bucket_row (bucket, rows) = record {
      bucket = bucket;
      requests = length rows;
      errors = count_status is_error rows;
      cancelled = count_status is_cancelled rows;
      avg_latency_ms = average (latencies rows);
      p95_latency_ms = latency_at 95 rows;
      tokens = sum_tokens rows;
    }

    unfoldable pub by_model : ℕ → Seen F → List (ModelRow F)
    unfolding model_row
    by_model window seen =
        order_by (desc (λ m. m.requests))
          (map model_row (group_by model_key same_pair (in_window window seen)))

    -- Two statements, each with its own moment.
    unfoldable pub metrics_summary : ℕ → Seen F → Seen F → Metrics F
    unfolding summary_row by_model
    metrics_summary window earlier later = record {
      window_minutes = window;
      whole = summary_row (in_window window earlier);
      by_model = by_model window later;
    }

    unfoldable pub metrics_timeseries : ℕ → ℕ → Seen F → List BucketRow
    unfolding bucket_row
    metrics_timeseries window bucket_seconds seen =
        order_by (asc (λ b. b.bucket))
          (map bucket_row (group_by (bucket_of bucket_seconds) (◌==◌) (in_window window seen)))
