-- ===== src/Ingestion/Dashboards/Described.antt =====
-- What a row of the dashboards of ingestion/app/db.py is to say of the calls it is made of, described
-- by the calls that are counted, and the window that the calls are taken from.
use inferlog.Prelude.{
  ℕ, ◌+◌, ◌*◌, ◌≡◌, refl, sym, Bool, true, Option, none, some, List, [], ◌∷◌, map, leb, length,
  filter, arith, false, ◌==◌,
}
use inferlog.Prelude.Queries.{total}
use inferlog.Prelude.Text.{Text, text_eq}
use inferlog.Sdk.Events.{Status}
use inferlog.Ingestion.Processing.{LogRow}
use inferlog.Ingestion.Dashboards.Rows.{
  Aggregates, Seen, BucketRow, ModelRow, known, average, is_error, is_cancelled, status_text,
}
use inferlog.Ingestion.Dashboards.{count_status, sum_tokens, bucket_row, model_row, passes}

module _ {F : Type 0} where
  -- The calls that started in the last minutes, to the microsecond.
  abbrev pub recent_rows : ℕ → Seen F → List (LogRow F)
  recent_rows minutes seen =
      filter (λ row. leb seen.now (row.started_at + minutes * 60_000_000)) seen.table

  -- The calls with a status.
  abbrev pub with_error : List (LogRow F) → List (LogRow F)
  with_error rows = filter (λ row. elim row.status [ Status.error ↦ true | _ ↦ false ]) rows

  abbrev pub with_cancelled : List (LogRow F) → List (LogRow F)
  with_cancelled rows = filter (λ row. elim row.status [ Status.cancelled ↦ true | _ ↦ false ]) rows

  -- The tokens of a call, 0 where they are not known.
  abbrev pub tokens_of : LogRow F → ℕ
  tokens_of row = elim row.total_tokens [ none ↦ 0 | some n ↦ n ]

  abbrev pub point_of : Aggregates F → ℕ × List (LogRow F) → BucketRow
  point_of db (bucket, rows) = record {
    bucket = bucket;
    requests = length rows;
    errors = length (with_error rows);
    cancelled = length (with_cancelled rows);
    avg_latency_ms = average (map (λ row. row.latency_ms) rows);
    p95_latency_ms = elim (db.percentile 95 (map (λ row. row.latency_ms) rows)) [
      | none ↦ 0
      | some n ↦ n
    ];
    tokens = total tokens_of rows;
  }

  abbrev pub share_of : Aggregates F → (Text × Text) × List (LogRow F) → ModelRow F
  share_of db ((provider, model), rows) = record {
    provider = provider;
    model = model;
    requests = length rows;
    errors = length (with_error rows);
    avg_latency_ms = average (map (λ row. row.latency_ms) rows);
    tokens = total tokens_of rows;
    cost_usd = elim (db.sum_cost (known (λ row. row.estimated_cost_usd) rows)) [
      | none ↦ db.no_cost
      | some cost ↦ cost
    ];
  }

  with_error-count :
      (rows : List (LogRow F)) → count_status is_error rows ≡ length (with_error rows)
  unfolding count_status inferlog.Prelude.count_if inferlog.Prelude.filter
  with_error-count [] = refl
  with_error-count (row ∷ rows) = ground (arith, with_error-count rows)

  with_cancelled-count :
      (rows : List (LogRow F)) → count_status is_cancelled rows ≡ length (with_cancelled rows)
  unfolding count_status inferlog.Prelude.count_if inferlog.Prelude.filter
  with_cancelled-count [] = refl
  with_cancelled-count (row ∷ rows) = ground (arith, with_cancelled-count rows)

  tokens_of-total : (rows : List (LogRow F)) → sum_tokens rows ≡ total tokens_of rows
  unfolding sum_tokens
  tokens_of-total [] = refl
  tokens_of-total (row ∷ rows) = ground (arith, tokens_of-total rows)

  pub bucket_row-eq :
      (db : Aggregates F) (g : ℕ × List (LogRow F)) → bucket_row db g ≡ point_of db g
  unfolding bucket_row
  bucket_row-eq db (bucket, rows) =
      ground (arith, with_error-count rows, with_cancelled-count rows, tokens_of-total rows)

  pub model_row-eq :
      (db : Aggregates F) (g : (Text × Text) × List (LogRow F)) → model_row db g ≡ share_of db g
  unfolding model_row
  model_row-eq db ((provider, model), rows) =
      ground (arith, with_error-count rows, tokens_of-total rows)

  -- The calls with a status, where one is asked for, and those of a conversation.
  abbrev pub of_status : Option Text → List (LogRow F) → List (LogRow F)
  of_status none rows = rows
  of_status (some wanted) rows = filter (λ row. text_eq (status_text row.status) wanted) rows

  abbrev pub of_conversation : Option ℕ → List (LogRow F) → List (LogRow F)
  of_conversation none rows = rows
  of_conversation (some wanted) rows =
      filter (λ row. elim row.conversation_id [ none ↦ false | some id ↦ id == wanted ]) rows

  pub passes-eq :
      (status : Option Text) (conversation_id : Option ℕ) (rows : List (LogRow F))
      → filter (passes status conversation_id) rows
        ≡ of_status status (of_conversation conversation_id rows)
  unfolding inferlog.Prelude.filter
  passes-eq none none [] = refl
  passes-eq none (some id) [] = refl
  passes-eq (some wanted) none [] = refl
  passes-eq (some wanted) (some id) [] = refl
  passes-eq none none (row ∷ rows) = ground (arith, passes-eq none none rows)
  passes-eq none (some id) (row ∷ rows) = ground (arith, passes-eq none (some id) rows)
  passes-eq (some wanted) none (row ∷ rows) = ground (arith, passes-eq (some wanted) none rows)
  passes-eq (some wanted) (some id) (row ∷ rows) =
      ground (arith, passes-eq (some wanted) (some id) rows)
