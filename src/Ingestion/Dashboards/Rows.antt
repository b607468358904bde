-- ===== src/Ingestion/Dashboards/Rows.antt =====
-- The rows that the queries of ingestion/app/db.py give, and the columns and tests in them.
use inferlog.Prelude.{
  ℕ, ◌+◌, ◌*◌, ◌/◌, ◌≡◌, ◌↔◌, Bool, true, false, ◌&&◌, Option, none, some, List, [], ◌∷◌, length,
  arith, Bool-cases,
}
use inferlog.Prelude.Text.{Text, codes, text_eq, text_eq_iff}
use inferlog.Prelude.Queries.{total}
use inferlog.Sdk.Events.{Status}
use inferlog.Ingestion.Processing.{LogRow}

-- The aggregates over floats. No rows give `none`, which is NULL.
pub record Aggregates (F : Type 0) : Type 0 where
  pub percentile : ℕ → List ℕ → Option ℕ
  pub sum_cost : List F → Option F
  pub no_cost : F

-- What a query sees.
pub record Seen (F : Type 0) : Type 0 where
  pub now : ℕ
  pub table : List (LogRow F)

-- The values of a column that are not NULL.
unfoldable pub known {ℓ κ} : {A : Type ℓ} {B : Type κ} → (A → Option B) → List A → List B
known column [] = []
known column (x ∷ xs) =
    let rest = known column xs in elim (column x) [ none ↦ rest | some value ↦ value ∷ rest ]

abbrev pub or_zero : Option ℕ → ℕ
or_zero none = 0
or_zero (some n) = n

-- `coalesce(avg(column)::int, 0)`: the cast rounds a half up.
unfoldable pub average : List ℕ → ℕ
average [] = 0
average (n ∷ ns) = (2 * total (λ m. m) (n ∷ ns) + length (n ∷ ns)) / (2 * length (n ∷ ns))

abbrev pub is_error : Status → Bool
is_error Status.error = true
is_error _ = false

abbrev pub is_success : Status → Bool
is_success Status.success = true
is_success _ = false

abbrev pub is_cancelled : Status → Bool
is_cancelled Status.cancelled = true
is_cancelled _ = false

abbrev pub status_text : Status → Text
status_text Status.success = codes "success"
status_text Status.error = codes "error"
status_text Status.cancelled = codes "cancelled"

abbrev pub minute : ℕ
minute = 60_000_000

abbrev pub second : ℕ
second = 1_000_000

-- `GROUP BY` takes two NULLs for one value.
abbrev pub same_text? : Option Text → Option Text → Bool
same_text? none none = true
same_text? none (some b) = false
same_text? (some a) none = false
same_text? (some a) (some b) = text_eq a b

abbrev pub same_pair : Text × Text → Text × Text → Bool
same_pair (a, b) (c, d) = text_eq a c && text_eq b d

abbrev pub or_unknown : Option Text → Text
or_unknown none = codes "unknown"
or_unknown (some t) = t

pub record SummaryRow (F : Type 0) : Type 0 where
  pub total_requests : ℕ
  pub success : ℕ
  pub errors : ℕ
  pub cancelled : ℕ
  pub avg_latency_ms : ℕ
  pub p50_latency_ms : ℕ
  pub p95_latency_ms : ℕ
  pub p99_latency_ms : ℕ
  pub avg_ttft_ms : ℕ
  pub total_tokens : ℕ
  pub total_cost_usd : F

pub record ModelRow (F : Type 0) : Type 0 where
  pub provider : Text
  pub model : Text
  pub requests : ℕ
  pub errors : ℕ
  pub avg_latency_ms : ℕ
  pub tokens : ℕ
  pub cost_usd : F

pub record BucketRow : Type 0 where
  pub bucket : ℕ
  pub requests : ℕ
  pub errors : ℕ
  pub cancelled : ℕ
  pub avg_latency_ms : ℕ
  pub p95_latency_ms : ℕ
  pub tokens : ℕ

pub record TypeRow : Type 0 where
  pub error_type : Text
  pub count : ℕ

pub record ErrorRow : Type 0 where
  pub request_id : ℕ
  pub provider : Text
  pub model : Text
  pub error_type : Option Text
  pub error_message : Option Text
  pub started_at : ℕ

-- What `metrics_summary` returns.
pub record Metrics (F : Type 0) : Type 0 where
  pub window_minutes : ℕ
  pub whole : SummaryRow F
  pub by_model : List (ModelRow F)

-- What `metrics_errors` returns.
pub record Errors : Type 0 where
  pub window_minutes : ℕ
  pub by_type : List TypeRow
  pub recent : List ErrorRow

pub same_pair_iff : (a b : Text × Text) → (same_pair a b ≡ true) ↔ (a ≡ b)
same_pair_iff (a, b) (c, d) =
    ground
      (arith, text_eq_iff a c, text_eq_iff b d, Bool-cases (text_eq a c), Bool-cases (text_eq b d))

pub same_text?_iff : (a b : Option Text) → (same_text? a b ≡ true) ↔ (a ≡ b)
same_text?_iff none none = ground arith
same_text?_iff none (some b) = ground arith
same_text?_iff (some a) none = ground arith
same_text?_iff (some a) (some b) = ground (arith, text_eq_iff a b)
