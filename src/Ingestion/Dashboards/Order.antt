-- ===== src/Ingestion/Dashboards/Order.antt =====
-- The order in which workers insert rows, and the summary of the dashboards.
use mathlib.Core.Path.{subst}
use mathlib.Core.Logic.{∥∥₁_elim}
use mathlib.Core.List.{Perm, Permᴰ, Perm-prop}
use mathlib.Core.List.Perm
use inferlog.Prelude.{
  ℕ, ◌+◌, ◌*◌, ◌/◌, ◌≡◌, refl, sym, ap, ◌∙◌, Bool, true, false, not, ◌||◌, Option, none, some, List,
  [], ◌∷◌, ◌++◌, map, length, filter, count_if, ◌==◌, leb, append-nil, append_assoc, if◌then◌else◌,
  arith, Bool-cases, Option-cases, inl, inr, is_some,
}
use inferlog.Prelude.Queries.{total, count_if-total}
use inferlog.Prelude.Bags.{total-Perm, length-Perm, filter-Perm}
use inferlog.Ingestion.Processing.{LogRow}
use inferlog.Ingestion.Table.{has_row, has_row-append, upsert_log, IsKeyed}
use inferlog.Ingestion.Dashboards.Rows.{
  Aggregates, SummaryRow, known, average, or_zero, is_success, is_error, is_cancelled,
}
use inferlog.Ingestion.Dashboards.{
  in_window, is_within, count_status, sum_tokens, latencies, summary_row,
}

-- The average as a function of a sum and a count.
average-total : (ns : List ℕ) → average ns ≡ (2 * total (λ m. m) ns + length ns) / (2 * length ns)
unfolding average
average-total [] = refl
average-total (n ∷ ns) = refl

average-eq :
    (ms ns : List ℕ)
    → total (λ m. m) ms ≡ total (λ m. m) ns
    → length ms ≡ length ns
    → average ms ≡ average ns
average-eq ms ns e f = rw (average-total ms, average-total ns, e, f) refl

module _ {F : Type 0} where
  count_if-Perm :
      (p : LogRow F → Bool) {xs ys : List (LogRow F)} → Perm xs ys → count_if p xs ≡ count_if p ys
  count_if-Perm p {xs} {ys} h =
      count_if-total p xs ∙ total-Perm (λ x. if p x then 1 else 0) h ∙ sym (count_if-total p ys)

  total-known :
      (column : LogRow F → Option ℕ) (rows : List (LogRow F))
      → total (λ m. m) (known column rows) ≡ total (λ row. or_zero (column row)) rows
  unfolding known
  total-known column [] = refl
  total-known column (row ∷ rows) =
      ground (arith, Option-cases (column row), total-known column rows)

  length-known :
      (column : LogRow F → Option ℕ) (rows : List (LogRow F))
      → length (known column rows) ≡ count_if (λ row. is_some (column row)) rows
  unfolding known inferlog.Prelude.count_if
  length-known column [] = refl
  length-known column (row ∷ rows) =
      ground (arith, Option-cases (column row), length-known column rows)

  average-known-Perm :
      (column : LogRow F → Option ℕ) {xs ys : List (LogRow F)}
      → Perm xs ys
      → average (known column xs) ≡ average (known column ys)
  average-known-Perm column {xs} {ys} h =
      average-eq (known column xs) (known column ys)
        (total-known column xs
          ∙ total-Perm (λ row. or_zero (column row)) h
          ∙ sym (total-known column ys))
        (length-known column xs
          ∙ count_if-Perm (λ row. is_some (column row)) h
          ∙ sym (length-known column ys))

  pub average-latencies-Perm :
      {xs ys : List (LogRow F)} → Perm xs ys → average (latencies xs) ≡ average (latencies ys)
  average-latencies-Perm {xs} {ys} h =
      let p = Perm.map (λ (row : LogRow F). row.latency_ms) h in
      average-eq (latencies xs) (latencies ys) (total-Perm (λ m. m) p) (length-Perm p)

  -- The summary but for the sum of the costs, which floats make depend on the order.
  abbrev pub without_cost : F → SummaryRow F → SummaryRow F
  without_cost cost row = record row { total_cost_usd = cost }

  pub summary_row-Perm :
      (db : Aggregates F)
      → ((p : ℕ) (xs ys : List ℕ) → Perm xs ys → db.percentile p xs ≡ db.percentile p ys)
      → {xs ys : List (LogRow F)} → Perm xs ys
      → without_cost db.no_cost (summary_row db xs) ≡ without_cost db.no_cost (summary_row db ys)
  unfolding summary_row count_status sum_tokens
  summary_row-Perm db documented {xs} {ys} h =
      let p = Perm.map (λ (row : LogRow F). row.latency_ms) h in
      let at = λ (k : ℕ). documented k (latencies xs) (latencies ys) p in
      rw
        (
          length-Perm h,
          count_if-Perm (λ row. is_success row.status) h,
          count_if-Perm (λ row. is_error row.status) h,
          count_if-Perm (λ row. is_cancelled row.status) h,
          average-latencies-Perm h,
          at 50,
          at 95,
          at 99,
          average-known-Perm (λ row. row.ttft_ms) h,
          total-Perm (λ row. or_zero row.total_tokens) h,
        )
        refl

  -- The inserts of some rows, one after another.
  abbrev pub upsert_all : List (LogRow F) → List (LogRow F) → List (LogRow F)
  upsert_all [] table = table
  upsert_all (row ∷ rows) table = upsert_all rows (upsert_log row table).0

  is_new : List (LogRow F) → LogRow F → Bool
  is_new table row = not (has_row row.request_id table)

  filter-is_new :
      (table rows : List (LogRow F)) (row : LogRow F)
      → has_row row.request_id rows ≡ false
      → filter (is_new (table ++ (row ∷ []))) rows ≡ filter (is_new table) rows
  unfolding is_new inferlog.Prelude.filter has_row
  filter-is_new table [] row h = refl
  filter-is_new table (x ∷ xs) row h =
      let rest = filter-is_new table xs row (ground arith) in
      rw (has_row-append x.request_id table (row ∷ [])) (ground (arith, rest))

  upsert_all-filter :
      (rows table : List (LogRow F))
      → IsKeyed rows
      → upsert_all rows table ≡ table ++ filter (is_new table) rows
  unfolding is_new inferlog.Prelude.filter upsert_log
  upsert_all-filter [] table h = sym (append-nil table)
  upsert_all-filter (row ∷ rows) table h = elim (Bool-cases (has_row row.request_id table)) [
    | inl e ↦ rw e (upsert_all-filter rows table h.1)
    | inr e ↦ rw e (
        upsert_all-filter rows (table ++ (row ∷ [])) h.1
        ∙ ap (λ l. (table ++ (row ∷ [])) ++ l) (filter-is_new table rows row h.0)
        ∙ append_assoc table (row ∷ []) (filter (is_new table) rows))
  ]

  has_row-Permᴰ :
      (key : ℕ) {xs ys : List (LogRow F)} → Permᴰ xs ys → has_row key xs ≡ has_row key ys
  unfolding has_row
  has_row-Permᴰ key Permᴰ.nil = refl
  has_row-Permᴰ key (Permᴰ.cons e p) = rw (e, has_row-Permᴰ key p) refl
  has_row-Permᴰ key (Permᴰ.swap {a'} {b'} e e') =
      rw (e, e')
        (ground (arith, Bool-cases (a'.request_id == key), Bool-cases (b'.request_id == key)))
  has_row-Permᴰ key (Permᴰ.trans p q) = has_row-Permᴰ key p ∙ has_row-Permᴰ key q

  IsKeyed-Permᴰ : {xs ys : List (LogRow F)} → Permᴰ xs ys → IsKeyed xs → IsKeyed ys
  unfolding has_row
  IsKeyed-Permᴰ Permᴰ.nil h = h
  IsKeyed-Permᴰ (Permᴰ.cons {b} {l₁} e p) h = (
    sym (has_row-Permᴰ b.request_id p) ∙ subst (λ r. has_row r.request_id l₁ ≡ false) e h.0,
    IsKeyed-Permᴰ p h.1,
  )
  IsKeyed-Permᴰ (Permᴰ.swap {b} {a'} {b'} {l} e e') h =
      let first = subst (λ r. IsKeyed (r ∷ b ∷ l)) e h in
      let (apart, (lone, rest)) = subst (λ r. IsKeyed (b' ∷ r ∷ l)) e' first in
      (
        ground (arith, Bool-cases (a'.request_id == b'.request_id)),
        (ground (arith, Bool-cases (a'.request_id == b'.request_id)), rest),
      )
  IsKeyed-Permᴰ (Permᴰ.trans p q) h = IsKeyed-Permᴰ q (IsKeyed-Permᴰ p h)

  -- Rows with different identifiers leave the same rows in the table, in whatever order they come.
  upsert_all-Perm :
      (table : List (LogRow F)) {rows rows' : List (LogRow F)}
      → Perm rows rows'
      → IsKeyed rows
      → Perm (upsert_all rows table) (upsert_all rows' table)
  upsert_all-Perm table {rows} {rows'} p h = ∥∥₁_elim p Perm-prop λ d.
      subst (λ l. Perm l (upsert_all rows' table)) (sym (upsert_all-filter rows table h))
        (subst (Perm (table ++ filter (is_new table) rows))
          (sym (upsert_all-filter rows' table (IsKeyed-Permᴰ d h)))
          (Perm.append_left table (filter-Perm (is_new table) p)))

  -- At one moment, the rows of the window do not depend on the order of the inserts.
  pub in_window-upsert_all :
      (window now : ℕ) (table rows rows' : List (LogRow F))
      → Perm rows rows'
      → IsKeyed rows
      → Perm
          (in_window window (record { now = now; table = upsert_all rows table }))
          (in_window window (record { now = now; table = upsert_all rows' table }))
  unfolding in_window
  in_window-upsert_all window now table rows rows' p h =
      filter-Perm (is_within now window) (upsert_all-Perm table p h)
