-- ===== src/Prelude/Groups/Present.antt =====
-- GROUP BY: every row is in exactly one group.
use Prim.Native.Nat.{ℕ, ◌≤◌}
use mathlib.Core.Path.{◌≡◌, refl, sym, subst}
use mathlib.Core.Logic.{inl, inr, ◌↔◌}
use mathlib.Core.Bool.{Bool, true, false}
use mathlib.Core.List.{List, [], ◌∷◌}
use native.Mathlib.Omega.{arith}
use inferlog.Prelude.Tests.{if◌then◌else◌, ◌==◌, Bool-cases}
use inferlog.Prelude.Lists.{count_if, All}
use inferlog.Prelude.Each.{All-imp}
use inferlog.Prelude.Groups.{add_row, group_by}

module _ {ℓ κ} {A : Type ℓ} {K : Type κ} (key : A → K) (same : K → K → Bool)
    (same_iff : (j k : K) → (same j k ≡ true) ↔ (j ≡ k)) where
  -- How many groups have a key.
  found : K → List (K × List A) → ℕ
  found k = count_if (λ g. same g.0 k)

  found-add_row-other :
      (k : K) (x : A) (groups : List (K × List A))
      → same (key x) k ≡ false
      → found k (add_row key same x groups) ≡ found k groups
  unfolding found count_if add_row
  found-add_row-other k x [] h = rw h refl
  found-add_row-other k x ((j, xs) ∷ groups) h =
      ground (arith, found-add_row-other k x groups h, Bool-cases (same j k))

  found-add_row-own :
      (x : A) (groups : List (K × List A))
      → found (key x) (add_row key same x groups)
        ≡ (if found (key x) groups == 0 then 1 else found (key x) groups)
  unfolding found count_if add_row
  found-add_row-own x [] = rw ((same_iff (key x) (key x)).1 refl) refl
  found-add_row-own x ((j, xs) ∷ groups) = elim (Bool-cases (same j (key x))) [
    | inl e ↦ ground arith
    | inr e ↦ ground (arith, found-add_row-own x groups)
  ]

  found-once : (k : K) (rows : List A) → found k (group_by key same rows) ≤ 1
  unfolding group_by found count_if
  found-once k [] = omega arith
  found-once k (x ∷ xs) = elim (Bool-cases (same (key x) k)) [
    | inl e ↦
        subst (λ j. found j (add_row key same x (group_by key same xs)) ≤ 1)
          ((same_iff (key x) k).0 e)
          (ground (arith, found-add_row-own x (group_by key same xs), found-once (key x) xs))
    | inr e ↦ omega (arith, found-add_row-other k x (group_by key same xs) e, found-once k xs)
  ]

  found-added :
      (x y : A) (groups : List (K × List A))
      → found (key y) groups ≡ 1
      → found (key y) (add_row key same x groups) ≡ 1
  found-added x y groups h = elim (Bool-cases (same (key x) (key y))) [
    | inl e ↦
        let k = (same_iff (key x) (key y)).0 e in
        subst (λ j. found j (add_row key same x groups) ≡ 1) k
          (ground (arith, found-add_row-own x groups, subst (λ j. found j groups ≡ 1) (sym k) h))
    | inr e ↦ omega (arith, found-add_row-other (key y) x groups e)
  ]

  pub count_if-group_by-key :
      (rows : List A)
      → All (λ x. count_if (λ g. same g.0 (key x)) (group_by key same rows) ≡ 1) rows
  unfolding group_by found
  count_if-group_by-key [] = tt
  count_if-group_by-key (x ∷ xs) = (
    ground (arith, found-add_row-own x (group_by key same xs), found-once (key x) xs),
    All-imp (λ y. found (key y) (group_by key same xs) ≡ 1)
        (λ y. found (key y) (add_row key same x (group_by key same xs)) ≡ 1) xs
        (λ y. found-added x y (group_by key same xs)) (count_if-group_by-key xs),
  )
