-- ===== src/Prelude/Groups.antt =====
-- GROUP BY: the rows under each value of a key, the groups in an order that SQL leaves open.
pub mod Present
pub mod Views
pub mod Keyed
use Prim.Native.Nat.{ℕ, ◌+◌}
use mathlib.Core.Path.{◌≡◌, refl, sym, ap, ◌∙◌, subst}
use mathlib.Core.Logic.{inl, inr, ◌↔◌}
use mathlib.Core.Bool.{Bool, true, false, true≢false}
use mathlib.Core.List.{
  List, [], ◌∷◌, Mem, Perm, Pairwise, Pairwise-singleton, mem-cons_self, mem-cons_of_mem,
  forall_mem-cons,
}
use mathlib.Core.List.Perm
use native.Mathlib.Omega.{arith}
use inferlog.Prelude.Tests.{if◌then◌else◌, Bool-cases}
use inferlog.Prelude.Lists.{length, filter, count_if, All}
use inferlog.Prelude.Queries.{total, total-ext, length-total, count_if-total, place, order_by}

-- What holds of every row holds of the rows in order.
module _ {ℓ κ} {A : Type ℓ} (P : A → Type κ) (may_precede : A → A → Bool) where
  All-place : (x : A) (xs : List A) → P x → All P xs → All P (place may_precede x xs)
  unfolding inferlog.Prelude.Queries.place
  All-place x [] p h = (p, tt)
  All-place x (y ∷ ys) p h = elim (Bool-cases (may_precede x y)) [
    | inl e ↦ rw e (p, h)
    | inr e ↦ rw e (h.0, All-place x ys p h.1)
  ]

  pub All-order_by : (xs : List A) → All P xs → All P (order_by may_precede xs)
  unfolding inferlog.Prelude.Queries.order_by
  All-order_by [] h = tt
  All-order_by (x ∷ xs) h = All-place x (order_by may_precede xs) h.0 (All-order_by xs h.1)

All-imp_mem {ℓ κ μ ν} :
    {A : Type ℓ} (P : A → Type κ) (Q : A → Type μ) (R : A → Type ν) (xs : List A)
    → ((x : A) → P x → Q x → R x)
    → All P xs
    → ((x : A) → Mem x xs → Q x)
    → All R xs
All-imp_mem P Q R [] f h k = tt
All-imp_mem P Q R (x ∷ xs) f h k =
    (f x h.0 (k x mem-cons_self), All-imp_mem P Q R xs f h.1 (λ y m. k y (mem-cons_of_mem x m)))

module _ {ℓ κ} {A : Type ℓ} {K : Type κ} (key : A → K) (same : K → K → Bool) where
  add_row : A → List (K × List A) → List (K × List A)
  add_row x [] = (key x, x ∷ []) ∷ []
  add_row x ((k, xs) ∷ groups) =
      let rest = add_row x groups in if same k (key x) then (k, x ∷ xs) ∷ groups else (k, xs) ∷ rest

  unfoldable pub group_by : List A → List (K × List A)
  unfolding add_row
  group_by [] = []
  group_by (x ∷ xs) = add_row x (group_by xs)

  -- No two groups have one key.
  abbrev pub IsApart : List (K × List A) → Type (ℓ ⊔ κ)
  IsApart = Pairwise (λ g h. same g.0 h.0 ≡ false)

  -- Each group has exactly the rows with its key, in their order.
  abbrev pub IsExact : List A → List (K × List A) → Type ℓ
  IsExact rows = All (λ g. g.1 ≡ filter (λ x. same g.0 (key x)) rows)

  total-add_row :
      (f : A → ℕ) (x : A) (groups : List (K × List A))
      → total (λ g. total f g.1) (add_row x groups) ≡ f x + total (λ g. total f g.1) groups
  unfolding add_row
  total-add_row f x [] = omega arith
  total-add_row f x ((k, xs) ∷ groups) = ground (arith, total-add_row f x groups)

  -- The sums of the groups make up the sum of the rows.
  pub total-group_by :
      (f : A → ℕ) (rows : List A) → total (λ g. total f g.1) (group_by rows) ≡ total f rows
  unfolding group_by
  total-group_by f [] = refl
  total-group_by f (x ∷ xs) =
      total-add_row f x (group_by xs) ∙ ap (λ n. f x + n) (total-group_by f xs)

  pub length-group_by : (rows : List A) → total (λ g. length g.1) (group_by rows) ≡ length rows
  length-group_by rows =
      total-ext (λ g. length-total g.1) (group_by rows)
      ∙ total-group_by (λ x. 1) rows
      ∙ sym (length-total rows)

  pub count_if-group_by :
      (p : A → Bool) (rows : List A) → total (λ g. count_if p g.1) (group_by rows) ≡ count_if p rows
  count_if-group_by p rows =
      total-ext (λ g. count_if-total p g.1) (group_by rows)
      ∙ total-group_by (λ x. if p x then 1 else 0) rows
      ∙ sym (count_if-total p rows)

  -- What `Pairwise.cons` asks of a new first group.
  abbrev IsOther : K → List (K × List A) → Type (ℓ ⊔ κ)
  IsOther k groups = (g : K × List A) → Mem g groups → same k g.0 ≡ false

  IsOther-cons :
      (k : K) (g : K × List A) (groups : List (K × List A))
      → same k g.0 ≡ false
      → IsOther k groups
      → IsOther k (g ∷ groups)
  IsOther-cons k g groups h b = (forall_mem-cons (λ g. hlevel)).1 (h, b)

  IsOther-head :
      (k : K) (g : K × List A) (groups : List (K × List A))
      → IsOther k (g ∷ groups)
      → (same k g.0 ≡ false) × IsOther k groups
  IsOther-head k g groups b = (b g mem-cons_self, λ h m. b h (mem-cons_of_mem g m))

  add_row-IsOther :
      (k : K) (x : A) (groups : List (K × List A))
      → same k (key x) ≡ false
      → IsOther k groups
      → IsOther k (add_row x groups)
  unfolding add_row
  add_row-IsOther k x [] h b = IsOther-cons k (key x, x ∷ []) [] h b
  add_row-IsOther k x ((j, xs) ∷ groups) h b =
      let (first, others) = IsOther-head k (j, xs) groups b in
      elim (Bool-cases (same j (key x))) [
        | inl e ↦ rw e (IsOther-cons k (j, x ∷ xs) groups first others)
        | inr e ↦
            rw e (
              IsOther-cons k (j, xs) (add_row x groups) first (add_row-IsOther k x groups h others))
      ]

  add_row-IsApart :
      (x : A) (groups : List (K × List A)) → IsApart groups → IsApart (add_row x groups)
  unfolding add_row
  add_row-IsApart x [] h = Pairwise-singleton _ (key x, x ∷ [])
  add_row-IsApart x ((k, xs) ∷ groups) (Pairwise.cons below h) =
      elim (Bool-cases (same k (key x))) [
        | inl e ↦ rw e (Pairwise.cons below h)
        | inr e ↦
            rw e (Pairwise.cons (add_row-IsOther k x groups e below) (add_row-IsApart x groups h))
      ]

  pub group_by-IsApart : (rows : List A) → IsApart (group_by rows)
  unfolding group_by
  group_by-IsApart [] = Pairwise.nil
  group_by-IsApart (x ∷ xs) = add_row-IsApart x (group_by xs) (group_by-IsApart xs)

  -- The rows of the group with a key.
  rows_of : K → List (K × List A) → List A
  rows_of k [] = []
  rows_of k ((j, xs) ∷ groups) = if same j k then xs else rows_of k groups

  module _ (same_iff : (j k : K) → (same j k ≡ true) ↔ (j ≡ k)) where
    same_refl : (k : K) → same k k ≡ true
    same_refl k = (same_iff k k).1 refl

    apart : (j k : K) → same k j ≡ false → same j k ≡ false
    apart j k h = elim (Bool-cases (same j k)) [
      | inl e ↦ absurd (true≢false (sym ((same_iff k j).1 (sym ((same_iff j k).0 e))) ∙ h))
      | inr e ↦ e
    ]

    rows_of-add_row-own :
        (x : A) (groups : List (K × List A))
        → rows_of (key x) (add_row x groups) ≡ x ∷ rows_of (key x) groups
    unfolding rows_of add_row
    rows_of-add_row-own x [] = rw (same_refl (key x)) refl
    rows_of-add_row-own x ((k, xs) ∷ groups) = elim (Bool-cases (same k (key x))) [
      | inl e ↦ rw (e, e) refl
      | inr e ↦ rw (e, e) (rows_of-add_row-own x groups)
    ]

    rows_of-add_row-other :
        (j : K) (x : A) (groups : List (K × List A))
        → same j (key x) ≡ false
        → rows_of j (add_row x groups) ≡ rows_of j groups
    unfolding rows_of add_row
    rows_of-add_row-other j x [] h = rw (apart (key x) j h) refl
    rows_of-add_row-other j x ((k, xs) ∷ groups) h = elim (Bool-cases (same k (key x))) [
      | inl e ↦
          let other =
            apart k j (subst (λ i. same j i ≡ false) (sym ((same_iff k (key x)).0 e)) h) in
          rw e (rw other refl)
      | inr e ↦
          rw e (ap (λ rest. if same k j then xs else rest) (rows_of-add_row-other j x groups h))
    ]

    rows_of-group_by :
        (k : K) (rows : List A) → rows_of k (group_by rows) ≡ filter (λ x. same k (key x)) rows
    unfolding rows_of group_by filter
    rows_of-group_by k [] = refl
    rows_of-group_by k (x ∷ xs) = elim (Bool-cases (same k (key x))) [
      | inl e ↦ rw e (
          subst (λ i. rows_of i (add_row x (group_by xs)) ≡ x ∷ rows_of i (group_by xs))
            (sym ((same_iff k (key x)).0 e)) (rows_of-add_row-own x (group_by xs))
          ∙ ap (◌∷◌ x) (rows_of-group_by k xs))
      | inr e ↦ rw e (rows_of-add_row-other k x (group_by xs) e ∙ rows_of-group_by k xs)
    ]

    rows_of-apart :
        (groups : List (K × List A)) → IsApart groups → All (λ g. g.1 ≡ rows_of g.0 groups) groups
    unfolding rows_of
    rows_of-apart [] h = tt
    rows_of-apart ((k, xs) ∷ groups) (Pairwise.cons below h) = (
      rw (same_refl k) refl,
      All-imp_mem (λ g. g.1 ≡ rows_of g.0 groups) (λ g. same k g.0 ≡ false)
          (λ g. g.1 ≡ rows_of g.0 ((k, xs) ∷ groups)) groups (λ g e b. rw b e)
          (rows_of-apart groups h) below,
    )

    pub group_by-IsExact : (rows : List A) → IsExact rows (group_by rows)
    group_by-IsExact rows =
        All-imp_mem (λ g. g.1 ≡ rows_of g.0 (group_by rows)) (λ g. Mem g (group_by rows))
          (λ g. g.1 ≡ filter (λ x. same g.0 (key x)) rows) (group_by rows)
          (λ g e u. e ∙ rows_of-group_by g.0 rows)
          (rows_of-apart (group_by rows) (group_by-IsApart rows)) (λ g m. m)
