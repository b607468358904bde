-- ===== src/Ingestion/Endpoints/Tests.antt =====
-- The theorems on the dashboards and their endpoints, applied to a table of three calls.
use inferlog.Prelude.{List, ℕ, suc, length, ◌+◌, false, ◌≡◌, Option, none, some, [], ◌∷◌}
use inferlog.Prelude.Int.{pos}
use inferlog.Prelude.Json.{Fields}
use inferlog.Prelude.Queries.{total, IsOrdered, desc}
use inferlog.Prelude.Groups.Views.{IsGrouped}
use inferlog.Prelude.Text.{Text, codes}
use inferlog.Sdk.Events.{Status}
use inferlog.Ingestion.Api.{Access}
use inferlog.Ingestion.Processing.{LogRow}
use inferlog.Ingestion.Dashboards.Rows.{Aggregates, Seen, same_pair}
use inferlog.Ingestion.Dashboards as Db
use inferlog.Ingestion.Dashboards.{model_key}
use inferlog.Ingestion.Dashboards.Described.{recent_rows, share_of}
use inferlog.Ingestion.Dashboards.Totals.{metrics_totals}
use inferlog.Ingestion.Dashboards.ByModel.{metrics_summary-IsGrouped}
use mathlib.Core.List.Perm
use inferlog.Prelude.{ap, refl}
use inferlog.Prelude.Bags.{total-Perm}
use inferlog.Ingestion.Table.{has_row}
use inferlog.Ingestion.Dashboards.Order.{without_cost, upsert_all}
use inferlog.Ingestion.Dashboards.Inserts.{shares_of, metrics_summary-upsert_all}
use inferlog.Ingestion.Endpoints.{metrics_timeseries, recent_logs}
use inferlog.Ingestion.Endpoints.Served.{IsLogReply, recent_logs-IsLogReply}

abbrev row_at : ℕ → ℕ → Status → Text → LogRow ℕ
row_at request_id started_at status model = record {
  request_id = request_id;
  conversation_id = some 1;
  service = codes "chat";
  provider = codes "mock";
  model = model;
  status = status;
  streamed = false;
  started_at = started_at;
  completed_at = started_at;
  latency_ms = 3;
  ttft_ms = none;
  prompt_tokens = none;
  completion_tokens = none;
  total_tokens = some 5;
  tokens_per_second = none;
  estimated_cost_usd = some 2;
  error_type = none;
  error_message = none;
  input_preview = none;
  output_preview = none;
  pii_redaction_count = 0;
  sdk_version = none;
  schema_version = pos 1;
  client_metadata = Fields.end;
  received_at = started_at;
}

-- Two calls in one minute, and one later.
abbrev seen : Seen ℕ
seen = record {
  now = 200_000_000;
  table =
      row_at 1 100_000_000 Status.success (codes "m-1")
      ∷ row_at 2 110_000_000 Status.error (codes "m-2")
      ∷ row_at 3 190_000_000 Status.success (codes "m-1")
      ∷ [];
}

-- The percentile is the sum of the latencies here, and the costs are added.
abbrev database : Aggregates ℕ
database = record {
  percentile = λ p latencies. some (total (λ n. n) latencies);
  sum_cost = λ costs. some (total (λ c. c) costs);
  no_cost = 0;
}

metrics_totals_example :
    let summary = Db.metrics_summary database 60 seen seen in
    let whole = summary.whole in
    let models = summary.by_model in
    let buckets = Db.metrics_timeseries database 60 60 seen in
    (whole.success + whole.errors + whole.cancelled ≡ whole.total_requests)
    × (total (λ m. m.requests) models ≡ whole.total_requests)
    × (total (λ m. m.errors) models ≡ whole.errors)
    × (total (λ m. m.tokens) models ≡ whole.total_tokens)
    × (total (λ b. b.requests) buckets ≡ whole.total_requests)
    × (total (λ b. b.errors) buckets ≡ whole.errors)
    × (total (λ b. b.cancelled) buckets ≡ whole.cancelled)
    × (total (λ b. b.tokens) buckets ≡ whole.total_tokens)
    × (total (λ t. t.count) (Db.metrics_errors 60 seen seen).by_type ≡ whole.errors)
metrics_totals_example = metrics_totals database 60 60 seen

metrics_summary-IsGrouped_example :
    let models = (Db.metrics_summary database 60 seen seen).by_model in
    IsGrouped model_key same_pair
      (share_of database)
      (λ m. (m.provider, m.model))
      (recent_rows 60 seen)
      models
    × IsOrdered (desc (λ m. m.requests)) models
metrics_summary-IsGrouped_example = metrics_summary-IsGrouped database 60 seen seen

-- Texts of one character or more are identifiers, by their length.
abbrev read_uuid : Text → Option ℕ
read_uuid [] = none
read_uuid (c ∷ text) = some (suc (length text))

recent_logs-IsLogReply_example :
    IsLogReply read_uuid Access.granted
      (some (pos 2))
      (some (codes "success"))
      (some (codes "1"))
      (some seen)
      (recent_logs read_uuid Access.granted
        (some (pos 2))
        (some (codes "success"))
        (some (codes "1"))
        (some seen))
recent_logs-IsLogReply_example =
    recent_logs-IsLogReply read_uuid Access.granted (some (pos 2)) (some (codes "success"))
      (some (codes "1")) (some seen)

abbrev first_row : LogRow ℕ
first_row = row_at 7 195_000_000 Status.success (codes "m-1")

abbrev second_row : LogRow ℕ
second_row = row_at 8 196_000_000 Status.error (codes "m-2")

abbrev seen_with : List (LogRow ℕ) → Seen ℕ
seen_with rows = record { now = 200_000_000; table = upsert_all rows seen.table }

metrics_summary-upsert_all_example :
    let one = seen_with (first_row ∷ second_row ∷ []) in
    let other = seen_with (second_row ∷ first_row ∷ []) in
    let summary = Db.metrics_summary database 60 one one in
    let summary' = Db.metrics_summary database 60 other other in
    (without_cost 0 summary.whole ≡ without_cost 0 summary'.whole)
    × (shares_of database (codes "mock", codes "m-1") summary.by_model
        ≡ shares_of database (codes "mock", codes "m-1") summary'.by_model)
unfolding has_row
metrics_summary-upsert_all_example =
    metrics_summary-upsert_all database (λ p xs ys h. ap some (total-Perm (λ n. n) h)) 60
      200_000_000 seen.table (first_row ∷ second_row ∷ []) (second_row ∷ first_row ∷ [])
      (codes "mock", codes "m-1") (Perm.swap second_row first_row []) (refl, (refl, tt))
