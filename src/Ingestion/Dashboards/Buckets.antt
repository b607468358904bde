-- ===== src/Ingestion/Dashboards/Buckets.antt =====
-- The time series: GROUP BY bucket ORDER BY bucket.
use inferlog.Prelude.{ℕ, ◌+◌, ◌*◌, ◌≤◌, ◌<◌, refl, map, ◌==◌, ==_iff, arith, All}
use mathlib.Core.Path.{fun_ext}
use native.Mathlib.Nat.{div-mul-le_self, lt-div-mul-add}
use inferlog.Prelude.{All-of}
use inferlog.Prelude.Queries.{IsOrdered, order_by-asc, asc}
use inferlog.Prelude.Groups.{group_by}
use inferlog.Prelude.Groups.Views.{IsGrouped, order_by-IsGrouped}
use inferlog.Ingestion.Processing.{LogRow}
use inferlog.Ingestion.Dashboards.Rows.{Aggregates, Seen, second}
use inferlog.Ingestion.Dashboards.{in_window, bucket_of, bucket_row, metrics_timeseries}
use inferlog.Ingestion.Dashboards.Described.{recent_rows, point_of, bucket_row-eq}

-- The bucket is the interval of the given length that the call started in.
abbrev pub IsOfBucket : {F : Type 0} → ℕ → LogRow F → Type 0
IsOfBucket bucket_seconds row =
    (bucket_of bucket_seconds row ≤ row.started_at)
    × (row.started_at < bucket_of bucket_seconds row + bucket_seconds * 1_000_000)

module _ {F : Type 0} (db : Aggregates F) where
  -- With buckets of a positive length: each row of the series has the counts, the latencies and the
  -- tokens of exactly the calls of the last minutes that its bucket is the bucket of, of which there is
  -- one at least; each of these calls has its bucket in exactly one row of the series, and that bucket
  -- is the interval of the given length that it started in; the buckets stand in ascending order.
  pub metrics_timeseries-IsGrouped :
      (window bucket_seconds : ℕ) (seen : Seen F)
      → 0 < bucket_seconds
      → let series = metrics_timeseries db window bucket_seconds seen in
        IsGrouped
          (bucket_of bucket_seconds)
          (◌==◌)
          (point_of db)
          (λ b. b.bucket)
          (recent_rows window seen)
          series
        × IsOrdered (asc (λ b. b.bucket)) series
        × All (IsOfBucket bucket_seconds) (recent_rows window seen)
  unfolding metrics_timeseries in_window
  metrics_timeseries-IsGrouped window bucket_seconds seen h =
      let rows = in_window window seen in
      let grouped =
        order_by-IsGrouped (bucket_of bucket_seconds) (◌==◌) (point_of db) (λ b. b.bucket) ==_iff
          (λ g. refl) (asc (λ b. b.bucket)) rows in
      (
        rw (fun_ext (bucket_row-eq db)) grouped,
        order_by-asc (λ b. b.bucket)
            (map (bucket_row db) (group_by (bucket_of bucket_seconds) (◌==◌) rows)),
        All-of (IsOfBucket bucket_seconds)
            (λ row. (
              div-mul-le_self row.started_at (bucket_seconds * second),
              lt-div-mul-add (omega arith),
            ))
            rows,
      )
