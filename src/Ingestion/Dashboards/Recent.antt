-- ===== src/Ingestion/Dashboards/Recent.antt =====
-- The newest rows: ORDER BY started_at DESC LIMIT.
use inferlog.Prelude.{ℕ, ◌≡◌, refl, Option, List, map, take, filter}
use inferlog.Prelude.Text.{Text}
use inferlog.Prelude.Queries.{IsPage, desc, take-desc, order_by}
use inferlog.Ingestion.Processing.{LogRow}
use inferlog.Ingestion.Dashboards.Rows.{Seen}
use inferlog.Ingestion.Dashboards.{
  failures, error_row, passes, recent_errors, metrics_errors, recent_logs,
}

module _ {F : Type 0} where
  -- The log view is the page of the newest `limit` of exactly the rows that pass its filters.
  pub recent_logs-IsPage :
      (limit : ℕ) (status : Option Text) (conversation_id : Option ℕ) (seen : Seen F)
      → IsPage
          (desc (λ row. row.started_at))
          limit
          (filter (passes status conversation_id) seen.table)
          (recent_logs limit status conversation_id seen)
  unfolding recent_logs
  recent_logs-IsPage limit status conversation_id seen =
      take-desc (λ row. row.started_at) limit (filter (passes status conversation_id) seen.table)

  -- The error view shows the columns of the page of the newest 20 failed calls of its window.
  pub metrics_errors-IsPage :
      (window : ℕ) (earlier later : Seen F)
      → (page : List (LogRow F)) × IsPage
          (desc (λ row. row.started_at))
          20
          (failures window later)
          page
        × ((metrics_errors window earlier later).recent ≡ map error_row page)
  unfolding metrics_errors recent_errors
  metrics_errors-IsPage window earlier later = (
    take 20 (order_by (desc (λ row. row.started_at)) (failures window later)),
    take-desc (λ row. row.started_at) 20 (failures window later),
    refl,
  )
