-- ===== src/Ingestion/Dashboards/Totals.antt =====
-- The views of the dashboards count the same rows.
use inferlog.Prelude.{
  ℕ, ◌+◌, ◌≡◌, refl, sym, ap, ◌∙◌, Bool, true, false, Option, none, some, List, [], ◌∷◌, map, ◌==◌,
  length, filter, count_if, arith, suc, if◌then◌else◌,
}
use inferlog.Prelude.Text.{Text}
use inferlog.Prelude.Queries.{total, total-ext, total-order_by, order_by, desc, asc}
use inferlog.Prelude.Groups.{group_by, total-group_by, length-group_by, count_if-group_by}
use inferlog.Sdk.Events.{Status}
use inferlog.Ingestion.Processing.{LogRow}
use inferlog.Ingestion.Dashboards.Rows.{
  Aggregates, Seen, ModelRow, BucketRow, is_error, is_success, is_cancelled, or_zero, same_text?,
  same_pair,
}
use inferlog.Ingestion.Dashboards.{
  in_window, count_status, sum_tokens, model_key, bucket_of, model_row, bucket_row, type_row,
  by_type, metrics_errors, metrics_summary, metrics_timeseries, summary_row, by_model, failures,
}

total-map {ℓ κ} :
    {A : Type ℓ} {B : Type κ} (f : B → ℕ) (g : A → B) (xs : List A)
    → total f (map g xs) ≡ total (λ x. f (g x)) xs
total-map f g [] = refl
total-map f g (x ∷ xs) = ap (λ n. f (g x) + n) (total-map f g xs)

-- The sum of a column over rows made of groups and put in an order.
total-ordered {ℓ κ} :
    {A : Type ℓ} {B : Type κ} (before : B → B → Bool) (f : B → ℕ) (g : A → B) (h : A → ℕ)
    (xs : List A)
    → ((x : A) → f (g x) ≡ h x)
    → total f (order_by before (map g xs)) ≡ total h xs
total-ordered before f g h xs e =
    total-order_by before f (map g xs) ∙ total-map f g xs ∙ total-ext e xs

one_status :
    (status : Status) (a b c : ℕ)
    → (if is_success status then suc a else a)
        + (if is_error status then suc b else b)
        + (if is_cancelled status then suc c else c)
      ≡ suc (a + b + c)
one_status Status.success a b c = omega arith
one_status Status.error a b c = omega arith
one_status Status.cancelled a b c = omega arith

length-filter {ℓ} : {A : Type ℓ} (p : A → Bool) (xs : List A) → length (filter p xs) ≡ count_if p xs
unfolding inferlog.Prelude.filter inferlog.Prelude.count_if
length-filter p [] = refl
length-filter p (x ∷ xs) = ground (arith, length-filter p xs)

module _ {F : Type 0} where
  -- Every row has one of the three statuses.
  count_status-all :
      (rows : List (LogRow F))
      → count_status is_success rows + count_status is_error rows + count_status is_cancelled rows
        ≡ length rows
  unfolding count_status inferlog.Prelude.count_if
  count_status-all [] = refl
  count_status-all (row ∷ rows) =
      one_status row.status (count_status is_success rows) (count_status is_error rows)
        (count_status is_cancelled rows)
      ∙ ap suc (count_status-all rows)

  length-failures :
      (window : ℕ) (seen : Seen F)
      → length (failures window seen) ≡ count_status is_error (in_window window seen)
  unfolding count_status
  length-failures window seen = length-filter (λ row. is_error row.status) (in_window window seen)

  total-by_type :
      (window : ℕ) (seen : Seen F)
      → total (λ t. t.count) (by_type window seen) ≡ count_status is_error (in_window window seen)
  unfolding by_type type_row
  total-by_type window seen =
      let rows = failures window seen in
      total-ordered (desc (λ t. t.count)) (λ t. t.count) type_row (λ g. length g.1)
        (group_by (λ row. row.error_type) same_text? rows) (λ g. refl)
      ∙ length-group_by (λ row. row.error_type) same_text? rows
      ∙ length-failures window seen

  module _ (db : Aggregates F) where
    -- A column of the rows by model makes up that of the whole window.
    total-by_model :
        (window : ℕ) (seen : Seen F) (column : ModelRow F → ℕ) (measure : List (LogRow F) → ℕ)
        → ((g : (Text × Text) × List (LogRow F)) → column (model_row db g) ≡ measure g.1)
        → total (λ g. measure g.1) (group_by model_key same_pair (in_window window seen))
          ≡ measure (in_window window seen)
        → total column (by_model db window seen) ≡ measure (in_window window seen)
    unfolding by_model
    total-by_model window seen column measure e h =
        total-ordered (desc (λ m. m.requests)) column (model_row db) (λ g. measure g.1)
          (group_by model_key same_pair (in_window window seen)) e
        ∙ h

    total-metrics_timeseries :
        (window bucket_seconds : ℕ) (seen : Seen F) (column : BucketRow → ℕ)
        (measure : List (LogRow F) → ℕ)
        → ((g : ℕ × List (LogRow F)) → column (bucket_row db g) ≡ measure g.1)
        → total
            (λ g. measure g.1)
            (group_by (bucket_of bucket_seconds) (◌==◌) (in_window window seen))
          ≡ measure (in_window window seen)
        → total column (metrics_timeseries db window bucket_seconds seen)
          ≡ measure (in_window window seen)
    unfolding metrics_timeseries
    total-metrics_timeseries window bucket_seconds seen column measure e h =
        total-ordered (asc (λ b. b.bucket)) column (bucket_row db) (λ g. measure g.1)
          (group_by (bucket_of bucket_seconds) (◌==◌) (in_window window seen)) e
        ∙ h

    -- If the statements see one moment, the three counts by status, the rows by model, the buckets
    -- and, for the errors, the rows by type add up to the totals of the summary, the tokens too.
    pub metrics_totals :
        (window bucket_seconds : ℕ) (seen : Seen F)
        → let summary = metrics_summary db window seen seen in
          let whole = summary.whole in
          let models = summary.by_model in
          let buckets = metrics_timeseries db window bucket_seconds seen in
          (whole.success + whole.errors + whole.cancelled ≡ whole.total_requests)
          × (total (λ m. m.requests) models ≡ whole.total_requests)
          × (total (λ m. m.errors) models ≡ whole.errors)
          × (total (λ m. m.tokens) models ≡ whole.total_tokens)
          × (total (λ b. b.requests) buckets ≡ whole.total_requests)
          × (total (λ b. b.errors) buckets ≡ whole.errors)
          × (total (λ b. b.cancelled) buckets ≡ whole.cancelled)
          × (total (λ b. b.tokens) buckets ≡ whole.total_tokens)
          × (total (λ t. t.count) (metrics_errors window seen seen).by_type ≡ whole.errors)
    unfolding metrics_summary metrics_errors summary_row model_row bucket_row count_status
        sum_tokens
    metrics_totals window bucket_seconds seen =
        let rows = in_window window seen in
        let in_models = total-by_model window seen in
        let in_buckets = total-metrics_timeseries window bucket_seconds seen in
        (
          count_status-all rows,
          in_models (λ m. m.requests) length (λ g. refl) (length-group_by model_key same_pair rows),
          in_models (λ m. m.errors) (count_status is_error) (λ g. refl)
              (count_if-group_by model_key same_pair (λ row. is_error row.status) rows),
          in_models (λ m. m.tokens) sum_tokens (λ g. refl)
              (total-group_by model_key same_pair (λ row. or_zero row.total_tokens) rows),
          in_buckets (λ b. b.requests) length (λ g. refl)
              (length-group_by (bucket_of bucket_seconds) (◌==◌) rows),
          in_buckets (λ b. b.errors) (count_status is_error) (λ g. refl)
              (count_if-group_by (bucket_of bucket_seconds) (◌==◌) (λ row. is_error row.status)
                rows),
          in_buckets (λ b. b.cancelled) (count_status is_cancelled) (λ g. refl)
              (count_if-group_by (bucket_of bucket_seconds) (◌==◌) (λ row. is_cancelled row.status)
                rows),
          in_buckets (λ b. b.tokens) sum_tokens (λ g. refl)
              (total-group_by (bucket_of bucket_seconds) (◌==◌) (λ row. or_zero row.total_tokens)
                rows),
          total-by_type window seen,
        )
