-- ===== src/Ingestion/Dashboards/Inserts.antt =====
-- The summary of the dashboards, and the order in which workers insert rows.
use mathlib.Core.List.{Perm}
use inferlog.Prelude.{ℕ, ◌≡◌, refl, sym, ap, ◌∙◌, true, false, List, [], ◌∷◌, map, filter}
use inferlog.Prelude.Bags.{total-Perm, length-Perm, filter-Perm}
use inferlog.Prelude.Groups.Keyed.{made_of, filter-IsGrouped}
use inferlog.Prelude.Text.{Text}
use inferlog.Sdk.Events.{Status}
use inferlog.Ingestion.Processing.{LogRow}
use inferlog.Ingestion.Table.{IsKeyed}
use inferlog.Ingestion.Dashboards.Rows.{Aggregates, Seen, ModelRow, same_pair, same_pair_iff}
use inferlog.Ingestion.Dashboards.{in_window, model_key, metrics_summary}
use inferlog.Ingestion.Dashboards.Described.{share_of, recent_rows, tokens_of}
use inferlog.Ingestion.Dashboards.ByModel.{metrics_summary-IsGrouped}
use inferlog.Ingestion.Dashboards.Order.{
  without_cost, upsert_all, summary_row-Perm, average-latencies-Perm, in_window-upsert_all,
}

module _ {F : Type 0} (db : Aggregates F) where
  -- A row by model but for its cost.
  abbrev pub without_share_cost : ModelRow F → ModelRow F
  without_share_cost row = record row { cost_usd = db.no_cost }

  -- The rows by model for one provider and model, but for their cost.
  abbrev pub shares_of : Text × Text → List (ModelRow F) → List (ModelRow F)
  shares_of pair models =
      map without_share_cost (filter (λ m. same_pair (m.provider, m.model) pair) models)

  share_of-Perm :
      (pair : Text × Text) {xs ys : List (LogRow F)}
      → Perm xs ys
      → without_share_cost (share_of db (pair, xs)) ≡ without_share_cost (share_of db (pair, ys))
  share_of-Perm pair {xs} {ys} h =
      rw
        (
          length-Perm h,
          length-Perm (
              filter-Perm (λ (row : LogRow F). elim row.status [ Status.error ↦ true | _ ↦ false ])
                h),
          average-latencies-Perm h,
          total-Perm (λ (row : LogRow F). tokens_of row) h,
        )
        refl

  made_of-Perm :
      (pair : Text × Text) (xs ys : List (LogRow F))
      → Perm xs ys
      → map without_share_cost (made_of (share_of db) pair xs)
        ≡ map without_share_cost (made_of (share_of db) pair ys)
  made_of-Perm pair [] [] h = refl
  made_of-Perm pair [] (y ∷ ys) h = absurd (let e = length-Perm h in cc)
  made_of-Perm pair (x ∷ xs) [] h = absurd (let e = length-Perm h in cc)
  made_of-Perm pair (x ∷ xs) (y ∷ ys) h = ap (λ m. m ∷ []) (share_of-Perm pair h)

  shares_of-Perm :
      (window : ℕ) (earlier later earlier' later' : Seen F) (pair : Text × Text)
      → Perm (recent_rows window later) (recent_rows window later')
      → shares_of pair (metrics_summary db window earlier later).by_model
        ≡ shares_of pair (metrics_summary db window earlier' later').by_model
  shares_of-Perm window earlier later earlier' later' pair h =
      let own = λ (row : LogRow F). same_pair pair (model_key row) in
      let shown = λ (e l : Seen F).
        filter-IsGrouped model_key same_pair (share_of db) (λ m. (m.provider, m.model))
          same_pair_iff (recent_rows window l) (metrics_summary db window e l).by_model pair
          (metrics_summary-IsGrouped db window e l).0 in
      ap (map without_share_cost) (shown earlier later)
      ∙ made_of-Perm pair (filter own (recent_rows window later))
          (filter own (recent_rows window later')) (filter-Perm own h)
      ∙ sym (ap (map without_share_cost) (shown earlier' later'))

  -- If percentiles do not depend on the order of their values: rows with different identifiers give,
  -- in whatever order the workers insert them, at one moment and but for the sums of the costs, the
  -- same totals, and for each provider and model the same row by model, if there is one.
  pub metrics_summary-upsert_all :
      (documented : (p : ℕ) (xs ys : List ℕ) → Perm xs ys → db.percentile p xs ≡ db.percentile p ys)
      (window now : ℕ) (table rows rows' : List (LogRow F)) (pair : Text × Text)
      → Perm rows rows'
      → IsKeyed rows
      → let seen : Seen F = record { now = now; table = upsert_all rows table } in
        let seen' : Seen F = record { now = now; table = upsert_all rows' table } in
        let summary = metrics_summary db window seen seen in
        let summary' = metrics_summary db window seen' seen' in
        (without_cost db.no_cost summary.whole ≡ without_cost db.no_cost summary'.whole)
        × (shares_of pair summary.by_model ≡ shares_of pair summary'.by_model)
  unfolding metrics_summary in_window
  metrics_summary-upsert_all documented window now table rows rows' pair p h =
      let same = in_window-upsert_all window now table rows rows' p h in
      let seen : Seen F = record { now = now; table = upsert_all rows table } in
      let seen' : Seen F = record { now = now; table = upsert_all rows' table } in
      (summary_row-Perm db documented same, shares_of-Perm window seen seen seen' seen' pair same)
