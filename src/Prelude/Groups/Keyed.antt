-- ===== src/Prelude/Groups/Keyed.antt =====
-- GROUP BY: the result rows of one key.
use mathlib.Core.Path.{◌≡◌, refl, sym, ◌∙◌, subst}
use mathlib.Core.Logic.{inl, inr, ◌⊎◌, ◌↔◌}
use mathlib.Core.Bool.{Bool, true, false}
use mathlib.Core.List.{List, [], ◌∷◌}
use native.Mathlib.Omega.{arith}
use inferlog.Prelude.Tests.{Bool-cases}
use inferlog.Prelude.Lists.{count_if, filter, All, is_empty}
use inferlog.Prelude.Each.{All-imp}
use inferlog.Prelude.Groups.Views.{IsGrouped}

module _ {ℓ} {B : Type ℓ} (q : B → Bool) where
  filter-none : (l : List B) → All (λ b. q b ≡ false) l → filter q l ≡ []
  unfolding inferlog.Prelude.Lists.filter
  filter-none [] h = refl
  filter-none (b ∷ l) h = rw h.0 (filter-none l h.1)

  filter-zero : (l : List B) → count_if q l ≡ 0 → filter q l ≡ []
  unfolding inferlog.Prelude.Lists.filter inferlog.Prelude.Lists.count_if
  filter-zero [] h = refl
  filter-zero (b ∷ l) h = ground (arith, filter-zero l)

  count-kept :
      (b : B) (l : List B)
      → q b ≡ true
      → count_if q (b ∷ l) ≡ 1
      → (filter q (b ∷ l) ≡ b ∷ filter q l) × (count_if q l ≡ 0)
  unfolding inferlog.Prelude.Lists.filter inferlog.Prelude.Lists.count_if
  count-kept b l e h = (ground arith, ground arith)

  count-left :
      (b : B) (l : List B)
      → q b ≡ false
      → (filter q (b ∷ l) ≡ filter q l) × (count_if q (b ∷ l) ≡ count_if q l)
  unfolding inferlog.Prelude.Lists.filter inferlog.Prelude.Lists.count_if
  count-left b l e = (ground arith, ground arith)

  -- What is kept once, and can only be one value.
  filter-one :
      (c : B) (l : List B)
      → count_if q l ≡ 1
      → All (λ b. (q b ≡ false) ⊎ (b ≡ c)) l
      → filter q l ≡ c ∷ []
  unfolding inferlog.Prelude.Lists.count_if
  filter-one c [] h k = ground arith
  filter-one c (b ∷ l) h k = elim (Bool-cases (q b)) [
    | inr e ↦ let (left, same) = count-left b l e in left ∙ filter-one c l (sym same ∙ h) k.1
    | inl e ↦
        let (kept, others) = count-kept b l e h in
        let b≡c : b ≡ c = elim k.0 [ inl f ↦ ground arith | inr f ↦ f ] in
        kept ∙ rw (filter-zero l others, b≡c) refl
  ]

-- The first one that is kept.
filter-first {ℓ κ} :
    {A : Type ℓ} (q : A → Bool) (P : A → Type κ) (l : List A) (x : A) (xs : List A)
    → All P l
    → filter q l ≡ x ∷ xs
    → P x × (q x ≡ true)
unfolding inferlog.Prelude.Lists.filter
filter-first q P [] x xs h e = ground arith
filter-first q P (a ∷ l) x xs h e = elim (Bool-cases (q a)) [
  | inl f ↦ let a≡x : a ≡ x = ground arith in subst (λ y. P y × (q y ≡ true)) a≡x (h.0, f)
  | inr f ↦ filter-first q P l x xs h.1 (ground arith)
]

-- The result rows with a key: one, of the rows with that key, if there are any.
abbrev pub made_of {ℓ κ μ} :
    {A : Type ℓ} {K : Type κ} {B : Type μ} → (K × List A → B) → K → List A → List B
made_of row k [] = []
made_of row k (x ∷ xs) = row (k, x ∷ xs) ∷ []

module _ {ℓ κ μ} {A : Type ℓ} {K : Type κ} {B : Type μ} (key : A → K) (same : K → K → Bool)
    (row : K × List A → B) (key_of : B → K)
    (same_iff : (j k : K) → (same j k ≡ true) ↔ (j ≡ k)) where
  keyed :
      (rows : List A) (result : List B) (k : K) (own : List A)
      → IsGrouped key same row key_of rows result
      → filter (λ x. same k (key x)) rows ≡ own
      → filter (λ b. same (key_of b) k) result ≡ made_of row k own
  keyed rows result k [] g e =
      filter-none (λ b. same (key_of b) k) result
        (All-imp _ _ result
          (λ b h. elim (Bool-cases (same (key_of b) k)) [
            | inr f ↦ f
            | inl f ↦
                let empty : is_empty (filter (λ x. same (key_of b) (key x)) rows) ≡ true =
                  rw ((same_iff (key_of b) k).0 f, e) refl in
                let filled = h.1 in cc
          ])
          g.0)
  keyed rows result k (x ∷ xs) g e =
      let (once, f) = filter-first (λ y. same k (key y)) _ rows x xs g.1 e in
      let k≡key : k ≡ key x = (same_iff k (key x)).0 f in
      filter-one (λ b. same (key_of b) k) (row (k, x ∷ xs)) result
        (subst (λ j. count_if (λ b. same (key_of b) j) result ≡ 1) (sym k≡key) once)
        (All-imp _ _ result
          (λ b h. elim (Bool-cases (same (key_of b) k)) [
            | inr f ↦ inl f
            | inl f ↦
                let here = (same_iff (key_of b) k).0 f in
                inr (
                  subst (λ own. b ≡ row (k, own)) e
                    (subst (λ j. b ≡ row (j, filter (λ y. same j (key y)) rows)) here h.0))
          ])
          g.0)

  -- In a result that is grouped, a key has one row, made of its rows, or none where it has no rows.
  pub filter-IsGrouped :
      (rows : List A) (result : List B) (k : K)
      → IsGrouped key same row key_of rows result
      → filter (λ b. same (key_of b) k) result ≡ made_of row k (filter (λ x. same k (key x)) rows)
  filter-IsGrouped rows result k g = keyed rows result k _ g refl
