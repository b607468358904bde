-- ===== src/Prelude/Queries.antt =====
-- What a query of SQL does to its rows: ORDER BY, LIMIT, GROUP BY and the sums of the groups.
--
-- SQL leaves the order of rows that tie open, and that of the groups; here rows that tie keep their
-- order. No theorem depends on which order it is.
use Prim.Native.Nat.{ℕ, suc, ◌+◌, min}
use mathlib.Core.Path.{◌≡◌, refl, sym, ap, ◌∙◌, subst}
use mathlib.Core.Logic.{inl, inr}
use mathlib.Core.Bool.{Bool, true, false}
use mathlib.Core.List.{
  List, [], ◌∷◌, ◌++◌, Mem, Perm, Pairwise, Pairwise-singleton, forall_mem-cons,
}
use mathlib.Core.List.Perm
use native.Mathlib.Omega.{arith}
use inferlog.Prelude.Tests.{if◌then◌else◌, leb, Bool-cases}
use inferlog.Prelude.Lists.{length, count_if, take, drop, take-append-drop, length-take}

-- `sum(f)`
abbrev pub total {ℓ} : {A : Type ℓ} → (A → ℕ) → List A → ℕ
total f [] = 0
total f (x ∷ xs) = f x + total f xs

pub total-ext {ℓ} :
    {A : Type ℓ} {f g : A → ℕ} → ((x : A) → f x ≡ g x) → (xs : List A) → total f xs ≡ total g xs
total-ext h [] = refl
total-ext h (x ∷ xs) = omega (arith, h x, total-ext h xs)

-- A count is a sum of ones.
pub length-total {ℓ} : {A : Type ℓ} (xs : List A) → length xs ≡ total (λ x. 1) xs
length-total [] = refl
length-total (x ∷ xs) = omega (arith, length-total xs)

pub count_if-total {ℓ} :
    {A : Type ℓ} (p : A → Bool) (xs : List A) → count_if p xs ≡ total (λ x. if p x then 1 else 0) xs
unfolding inferlog.Prelude.Lists.count_if
count_if-total p [] = refl
count_if-total p (x ∷ xs) = ground (arith, count_if-total p xs)

-- `ORDER BY`: one row put in its place at a time, before the rows that it may stand before.
module _ {ℓ} {A : Type ℓ} (may_precede : A → A → Bool) where
  unfoldable pub place : A → List A → List A
  place x [] = x ∷ []
  place x (y ∷ ys) = let later = place x ys in if may_precede x y then x ∷ y ∷ ys else y ∷ later

  unfoldable pub order_by : List A → List A
  unfolding place
  order_by [] = []
  order_by (x ∷ xs) = place x (order_by xs)

  -- No row stands behind one that it has to precede.
  abbrev pub IsOrdered : List A → Type ℓ
  IsOrdered = Pairwise (λ a b. may_precede a b ≡ true)

  -- The rows that `ORDER BY … LIMIT limit` gives of some rows: with the ones that are left out they
  -- are all the rows, in order, and there are `limit` of them if there are as many rows.
  abbrev pub IsPage : ℕ → List A → List A → Type ℓ
  IsPage limit rows page =
      (rest : List A) × Perm (page ++ rest) rows
      × IsOrdered (page ++ rest)
      × (length page ≡ min limit (length rows))

  place-Perm : (x : A) (xs : List A) → Perm (place x xs) (x ∷ xs)
  unfolding place
  place-Perm x [] = Perm.rfl
  place-Perm x (y ∷ ys) = elim (Bool-cases (may_precede x y)) [
    | inl e ↦ rw e Perm.rfl
    | inr e ↦ rw e (Perm.trans (Perm.cons y (place-Perm x ys)) (Perm.swap x y ys))
  ]

  pub order_by-Perm : (xs : List A) → Perm (order_by xs) xs
  unfolding order_by
  order_by-Perm [] = Perm.rfl
  order_by-Perm (x ∷ xs) = Perm.trans (place-Perm x (order_by xs)) (Perm.cons x (order_by-Perm xs))

  length-place : (x : A) (xs : List A) → length (place x xs) ≡ suc (length xs)
  unfolding place
  length-place x [] = refl
  length-place x (y ∷ ys) = ground (arith, length-place x ys)

  length-order_by : (xs : List A) → length (order_by xs) ≡ length xs
  unfolding order_by
  length-order_by [] = refl
  length-order_by (x ∷ xs) = length-place x (order_by xs) ∙ ap (λ n. suc n) (length-order_by xs)

  total-place : (f : A → ℕ) (x : A) (xs : List A) → total f (place x xs) ≡ f x + total f xs
  unfolding place
  total-place f x [] = refl
  total-place f x (y ∷ ys) = ground (arith, total-place f x ys)

  pub total-order_by : (f : A → ℕ) (xs : List A) → total f (order_by xs) ≡ total f xs
  unfolding order_by
  total-order_by f [] = refl
  total-order_by f (x ∷ xs) =
      total-place f x (order_by xs) ∙ ap (λ n. f x + n) (total-order_by f xs)

  -- What follows needs that of two rows one may precede the other, and that this is transitive.
  module _ (either : (a b : A) → may_precede a b ≡ false → may_precede b a ≡ true)
      (transitive : (a b c : A)
        → may_precede a b ≡ true
        → may_precede b c ≡ true
        → may_precede a c ≡ true) where
    place-below :
        (x y : A) (ys : List A)
        → may_precede y x ≡ true
        → ((z : A) → Mem z ys → may_precede y z ≡ true)
        → (z : A) → Mem z (place x ys)
        → may_precede y z ≡ true
    place-below x y ys h k z m =
        (forall_mem-cons (λ a. hlevel)).1 (h, k) z ((Perm.mem_iff (place-Perm x ys)).0 m)

    place-IsOrdered : (x : A) {xs : List A} → IsOrdered xs → IsOrdered (place x xs)
    unfolding place
    place-IsOrdered x Pairwise.nil = Pairwise-singleton _ x
    place-IsOrdered x (Pairwise.cons {a = y} {l = ys} below s) =
        elim (Bool-cases (may_precede x y)) [
          | inl e ↦ rw e (
              Pairwise.cons
                ((forall_mem-cons (λ a. hlevel)).1 (e, λ z m. transitive x y z e (below z m)))
                (Pairwise.cons below s))
          | inr e ↦
              rw e (Pairwise.cons (place-below x y ys (either x y e) below) (place-IsOrdered x s))
        ]

    pub order_by-IsOrdered : (xs : List A) → IsOrdered (order_by xs)
    unfolding order_by
    order_by-IsOrdered [] = Pairwise.nil
    order_by-IsOrdered (x ∷ xs) = place-IsOrdered x (order_by-IsOrdered xs)

    pub take-IsPage : (limit : ℕ) (rows : List A) → IsPage limit rows (take limit (order_by rows))
    take-IsPage limit rows =
        let split = take-append-drop limit (order_by rows) in
        (
          drop limit (order_by rows),
          subst (λ l. Perm l rows) (sym split) (order_by-Perm rows),
          subst IsOrdered (sym split) (order_by-IsOrdered rows),
          length-take limit (order_by rows) ∙ ap (min limit) (length-order_by rows),
        )

-- `ORDER BY key DESC` and `ORDER BY key`
module _ {ℓ} {A : Type ℓ} (key : A → ℕ) where
  abbrev pub desc : A → A → Bool
  desc a b = leb (key b) (key a)

  abbrev pub asc : A → A → Bool
  asc a b = leb (key a) (key b)

  pub order_by-desc : (xs : List A) → IsOrdered desc (order_by desc xs)
  order_by-desc = order_by-IsOrdered desc (λ a b h. ground arith) (λ a b c h k. ground arith)

  pub order_by-asc : (xs : List A) → IsOrdered asc (order_by asc xs)
  order_by-asc = order_by-IsOrdered asc (λ a b h. ground arith) (λ a b c h k. ground arith)

  pub take-desc :
      (limit : ℕ) (rows : List A) → IsPage desc limit rows (take limit (order_by desc rows))
  take-desc = take-IsPage desc (λ a b h. ground arith) (λ a b c h k. ground arith)
