-- ===== src/Prelude/Groups/Views.antt =====
-- GROUP BY with ORDER BY: what the rows of the result are.
use Prim.Native.Nat.{suc}
use mathlib.Core.Path.{◌≡◌, refl, sym, ap, ◌∙◌}
use mathlib.Core.Logic.{inl, inr, ◌↔◌}
use mathlib.Core.Bool.{Bool, true, false}
use mathlib.Core.List.{List, [], ◌∷◌, map}
use native.Mathlib.Omega.{arith}
use inferlog.Prelude.Tests.{if◌then◌else◌, Bool-cases}
use inferlog.Prelude.Lists.{count_if, filter, All, is_empty}
use inferlog.Prelude.Each.{All-imp, All-map, All-and}
use inferlog.Prelude.Queries.{IsOrdered, place, order_by}
use inferlog.Prelude.Groups.{add_row, group_by, group_by-IsExact, All-order_by}
use inferlog.Prelude.Groups.Present.{count_if-group_by-key}

count_if-map {ℓ κ} :
    {A : Type ℓ} {B : Type κ} (p : B → Bool) (f : A → B) (xs : List A)
    → count_if p (map f xs) ≡ count_if (λ x. p (f x)) xs
unfolding inferlog.Prelude.Lists.count_if
count_if-map p f [] = refl
count_if-map p f (x ∷ xs) = ap (λ n. if p (f x) then suc n else n) (count_if-map p f xs)

count_if-ext {ℓ} :
    {A : Type ℓ} (p q : A → Bool)
    → ((x : A) → p x ≡ q x)
    → (xs : List A) → count_if p xs ≡ count_if q xs
unfolding inferlog.Prelude.Lists.count_if
count_if-ext p q h [] = refl
count_if-ext p q h (x ∷ xs) = rw (h x) (ap (λ n. if q x then suc n else n) (count_if-ext p q h xs))

module _ {ℓ} {A : Type ℓ} (before : A → A → Bool) where
  count_if-place :
      (q : A → Bool) (x : A) (xs : List A) → count_if q (place before x xs) ≡ count_if q (x ∷ xs)
  unfolding inferlog.Prelude.Queries.place inferlog.Prelude.Lists.count_if
  count_if-place q x [] = refl
  count_if-place q x (y ∷ ys) =
      ground (arith, count_if-place q x ys, Bool-cases (q x), Bool-cases (q y))

  count_if-order_by : (q : A → Bool) (xs : List A) → count_if q (order_by before xs) ≡ count_if q xs
  unfolding inferlog.Prelude.Queries.order_by inferlog.Prelude.Lists.count_if
  count_if-order_by q [] = refl
  count_if-order_by q (x ∷ xs) =
      count_if-place q x (order_by before xs)
      ∙ ap (λ n. if q x then suc n else n) (count_if-order_by q xs)

module _ {ℓ κ μ} {A : Type ℓ} {K : Type κ} {B : Type μ} (key : A → K) (same : K → K → Bool)
    (row : K × List A → B) (key_of : B → K) where
  -- Each row of the result is made of the rows with its key, of which there are some, and each row
  -- has its key in exactly one row of the result.
  abbrev pub IsGrouped : List A → List B → Type μ
  IsGrouped rows result =
      All
        (λ b.
          let own = filter (λ x. same (key_of b) (key x)) rows in
          (b ≡ row (key_of b, own)) × (is_empty own ≡ false))
        result
      × All (λ x. count_if (λ b. same (key_of b) (key x)) result ≡ 1) rows

  add_row-filled :
      (x : A) (groups : List (K × List A))
      → All (λ g. is_empty g.1 ≡ false) groups
      → All (λ g. is_empty g.1 ≡ false) (add_row key same x groups)
  unfolding add_row
  add_row-filled x [] h = (refl, tt)
  add_row-filled x ((k, xs) ∷ groups) h = elim (Bool-cases (same k (key x))) [
    | inl e ↦ rw e (refl, h.1)
    | inr e ↦ rw e (h.0, add_row-filled x groups h.1)
  ]

  group_by-filled : (rows : List A) → All (λ g. is_empty g.1 ≡ false) (group_by key same rows)
  unfolding group_by
  group_by-filled [] = tt
  group_by-filled (x ∷ xs) = add_row-filled x (group_by key same xs) (group_by-filled xs)

  module _ (same_iff : (j k : K) → (same j k ≡ true) ↔ (j ≡ k))
      (key_of-row : (g : K × List A) → key_of (row g) ≡ g.0) where
    -- What a result row is, of a group that is exact and has rows.
    made :
        (rows : List A) (g : K × List A)
        → (g.1 ≡ filter (λ x. same g.0 (key x)) rows) × (is_empty g.1 ≡ false)
        → let own = filter (λ x. same (key_of (row g)) (key x)) rows in
          (row g ≡ row (key_of (row g), own)) × (is_empty own ≡ false)
    made rows (k, xs) (e, h) =
        rw (key_of-row (k, xs)) (ap (λ l. row (k, l)) e, sym (ap is_empty e) ∙ h)

    pub order_by-IsGrouped :
        (before : B → B → Bool) (rows : List A)
        → IsGrouped rows (order_by before (map row (group_by key same rows)))
    order_by-IsGrouped before rows =
        let groups = group_by key same rows in
        (
          All-order_by _ before (map row groups) (
              All-map _ row groups (
                All-imp _ _ groups (made rows) (
                  All-and _ _ groups (group_by-IsExact key same same_iff rows)
                    (group_by-filled rows)))),
          All-imp _ _ rows
              (λ x e.
                count_if-order_by before (λ b. same (key_of b) (key x)) (map row groups)
                ∙ count_if-map (λ b. same (key_of b) (key x)) row groups
                ∙ count_if-ext (λ g. same (key_of (row g)) (key x)) (λ g. same g.0 (key x))
                    (λ g. ap (λ k. same k (key x)) (key_of-row g)) groups
                ∙ e)
              (count_if-group_by-key key same same_iff rows),
        )
