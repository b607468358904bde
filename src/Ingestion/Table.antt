-- ===== src/Ingestion/Table.antt =====
-- ingestion/app/db.py, the write path: `inference_logs` with its primary key `request_id`.
use inferlog.Prelude.{
  ℕ, ◌≡◌, inl, inr, refl, Bool, true, false, ◌||◌, List, [], ◌∷◌, ◌++◌, ◌==◌, if◌then◌else◌, arith,
  Bool-cases, sym, ap, ◌∙◌, append-nil, append_assoc,
}
use inferlog.Ingestion.Processing.{LogRow}

module _ {F : Type 0} where
  unfoldable pub has_row : ℕ → List (LogRow F) → Bool
  has_row key [] = false
  has_row key (row ∷ rows) = (row.request_id == key) || has_row key rows

  -- `INSERT … ON CONFLICT (request_id) DO NOTHING`, and whether the row was new.
  unfoldable pub upsert_log : LogRow F → List (LogRow F) → List (LogRow F) × Bool
  upsert_log row table =
      if has_row row.request_id table then (table, false) else (table ++ (row ∷ []), true)

  -- No two rows have one `request_id`.
  abbrev pub IsKeyed : List (LogRow F) → Type 0
  IsKeyed [] = Unit
  IsKeyed (row ∷ rows) = (has_row row.request_id rows ≡ false) × IsKeyed rows

  -- A table that has the rows of `old` first, in their order and unchanged.
  abbrev pub Extends : List (LogRow F) → List (LogRow F) → Type 0
  Extends old table = (new : List (LogRow F)) × (table ≡ old ++ new)

  pub has_row-append :
      (key : ℕ) (xs ys : List (LogRow F))
      → has_row key (xs ++ ys) ≡ (has_row key xs || has_row key ys)
  unfolding has_row
  has_row-append key [] ys = refl
  has_row-append key (x ∷ xs) ys =
      ground (arith, has_row-append key xs ys, Bool-cases (x.request_id == key))

  append-IsKeyed :
      (xs : List (LogRow F)) (row : LogRow F)
      → IsKeyed xs
      → has_row row.request_id xs ≡ false
      → IsKeyed (xs ++ (row ∷ []))
  unfolding has_row
  append-IsKeyed [] row h k = (refl, tt)
  append-IsKeyed (x ∷ xs) row h k = (
    ground (
      arith,
      has_row-append x.request_id xs (row ∷ []),
      Bool-cases (x.request_id == row.request_id),
    ),
    append-IsKeyed xs row h.1 (ground (arith, Bool-cases (x.request_id == row.request_id))),
  )

  pub upsert_log-IsKeyed :
      (row : LogRow F) (table : List (LogRow F)) → IsKeyed table → IsKeyed (upsert_log row table).0
  unfolding upsert_log
  upsert_log-IsKeyed row table h = elim (Bool-cases (has_row row.request_id table)) [
    | inl e ↦ rw e h
    | inr e ↦ rw e (append-IsKeyed table row h e)
  ]

  pub upsert_log-Extends :
      (row : LogRow F) (table : List (LogRow F)) → Extends table (upsert_log row table).0
  unfolding upsert_log
  upsert_log-Extends row table = elim (Bool-cases (has_row row.request_id table)) [
    | inl e ↦ rw e ([], sym (append-nil table))
    | inr e ↦ rw e (row ∷ [], refl)
  ]

  pub has_row-upsert_log :
      (row : LogRow F) (table : List (LogRow F))
      → has_row row.request_id (upsert_log row table).0 ≡ true
  unfolding upsert_log has_row
  has_row-upsert_log row table = ground (
    arith,
    has_row-append row.request_id table (row ∷ []),
    Bool-cases (has_row row.request_id table),
  )

  pub upsert_log-again :
      (row : LogRow F) (table : List (LogRow F))
      → has_row row.request_id table ≡ true
      → (upsert_log row table).0 ≡ table
  unfolding upsert_log
  upsert_log-again row table h = rw h

  pub has_row-upsert_log_mono :
      (key : ℕ) (row : LogRow F) (table : List (LogRow F))
      → has_row key table ≡ true
      → has_row key (upsert_log row table).0 ≡ true
  unfolding upsert_log
  has_row-upsert_log_mono key row table h =
      ground (arith, has_row-append key table (row ∷ []), Bool-cases (has_row row.request_id table))

  pub Extends-upsert_log :
      (old table : List (LogRow F)) (row : LogRow F)
      → Extends old table
      → Extends old (upsert_log row table).0
  Extends-upsert_log old table row (new, e) =
      let (more, f) = upsert_log-Extends row table in
      (new ++ more, f ∙ ap (λ t. t ++ more) e ∙ append_assoc old new more)
