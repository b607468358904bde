-- ===== src/Prelude/Bags.antt =====
-- What does not depend on the order of a list.
use Prim.Native.Nat.{ℕ}
use native.Mathlib.Nat.{ℕ_set}
use mathlib.Core.Path.{◌≡◌, refl, ap, ◌∙◌}
use mathlib.Core.Logic.{inl, inr, ∥∥₁_elim}
use mathlib.Core.Bool.{Bool}
use mathlib.Core.List.{List, Perm, Permᴰ, Perm-prop}
use mathlib.Core.List.Perm
use native.Mathlib.Omega.{arith}
use inferlog.Prelude.Tests.{Bool-cases}
use inferlog.Prelude.Lists.{filter, length}
use inferlog.Prelude.Queries.{total, length-total}

total-Permᴰ {ℓ} : {A : Type ℓ} (f : A → ℕ) {xs ys : List A} → Permᴰ xs ys → total f xs ≡ total f ys
total-Permᴰ f Permᴰ.nil = refl
total-Permᴰ f (Permᴰ.cons e p) = omega (arith, ap f e, total-Permᴰ f p)
total-Permᴰ f (Permᴰ.swap e e') = omega (arith, ap f e, ap f e')
total-Permᴰ f (Permᴰ.trans p q) = total-Permᴰ f p ∙ total-Permᴰ f q

pub total-Perm {ℓ} :
    {A : Type ℓ} (f : A → ℕ) {xs ys : List A} → Perm xs ys → total f xs ≡ total f ys
total-Perm f p = ∥∥₁_elim p (ℕ_set _ _) (total-Permᴰ f)

pub length-Perm {ℓ} : {A : Type ℓ} {xs ys : List A} → Perm xs ys → length xs ≡ length ys
length-Perm {xs} {ys} p = omega (arith, length-total xs, length-total ys, total-Perm (λ x. 1) p)

filter-Permᴰ {ℓ} :
    {A : Type ℓ} (q : A → Bool) {xs ys : List A} → Permᴰ xs ys → Perm (filter q xs) (filter q ys)
unfolding inferlog.Prelude.Lists.filter
filter-Permᴰ q Permᴰ.nil = Perm.nil
filter-Permᴰ q (Permᴰ.cons {b} e p) = elim (Bool-cases (q b)) [
  | inl h ↦ rw (e, h) (Perm.cons b (filter-Permᴰ q p))
  | inr h ↦ rw (e, h) (filter-Permᴰ q p)
]
filter-Permᴰ q (Permᴰ.swap {a'} {b'} e e') = elim (Bool-cases (q a')) [
  | inl h ↦ elim (Bool-cases (q b')) [
    | inl k ↦ rw (e, e', h, k) (Perm.swap _ _ _)
    | inr k ↦ rw (e, e', h, k) Perm.rfl
  ]
  | inr h ↦ elim (Bool-cases (q b')) [
    | inl k ↦ rw (e, e', h, k) Perm.rfl
    | inr k ↦ rw (e, e', h, k) Perm.rfl
  ]
]
filter-Permᴰ q (Permᴰ.trans p r) = Perm.trans (filter-Permᴰ q p) (filter-Permᴰ q r)

pub filter-Perm {ℓ} :
    {A : Type ℓ} (q : A → Bool) {xs ys : List A} → Perm xs ys → Perm (filter q xs) (filter q ys)
filter-Perm q p = ∥∥₁_elim p Perm-prop (filter-Permᴰ q)
