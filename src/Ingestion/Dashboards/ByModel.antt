-- ===== src/Ingestion/Dashboards/ByModel.antt =====
-- The rows by model: GROUP BY provider, model ORDER BY requests DESC.
use mathlib.Core.Path.{fun_ext}
use inferlog.Prelude.{refl, ℕ, map}
use inferlog.Prelude.Queries.{IsOrdered, order_by-desc, desc}
use inferlog.Prelude.Groups.{group_by}
use inferlog.Prelude.Groups.Views.{IsGrouped, order_by-IsGrouped}
use inferlog.Ingestion.Dashboards.Rows.{Aggregates, Seen, same_pair, same_pair_iff}
use inferlog.Ingestion.Dashboards.{in_window, model_key, model_row, by_model, metrics_summary}
use inferlog.Ingestion.Dashboards.Described.{recent_rows, share_of, model_row-eq}

module _ {F : Type 0} (db : Aggregates F) where
  -- Each row by model has the counts, the average latency and the sums of exactly the calls of the
  -- last minutes with its provider and model, of which there is one at least; each of these calls has
  -- its provider and model in exactly one of the rows; and they stand in descending order of their
  -- requests.
  pub metrics_summary-IsGrouped :
      (window : ℕ) (earlier later : Seen F)
      → let models = (metrics_summary db window earlier later).by_model in
        IsGrouped model_key same_pair
          (share_of db)
          (λ m. (m.provider, m.model))
          (recent_rows window later)
          models
        × IsOrdered (desc (λ m. m.requests)) models
  unfolding metrics_summary by_model in_window
  metrics_summary-IsGrouped window earlier later =
      let rows = in_window window later in
      (
        rw (fun_ext (model_row-eq db)) (
            order_by-IsGrouped model_key same_pair (share_of db) (λ m. (m.provider, m.model))
              same_pair_iff (λ g. refl) (desc (λ m. m.requests)) rows),
        order_by-desc (λ m. m.requests) (map (model_row db) (group_by model_key same_pair rows)),
      )
