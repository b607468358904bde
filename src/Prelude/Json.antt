-- ===== src/Prelude/Json.antt =====
-- Values of Python that JSON can carry, and dictionaries in insertion order.
--
-- A dictionary of the program is a value of `Fields`. A floating-point number is an opaque
-- number, with 0 for zero: its arithmetic is a parameter of the code that adds two of them.
use Prim.Native.Nat.{ℕ, zero, suc, ◌+◌, ◌≤◌}
use mathlib.Core.Path.{◌≡◌, refl}
use mathlib.Core.Bool.{Bool, true, false, not}
use mathlib.Core.List.{[], ◌∷◌}
use mathlib.Core.Logic.{inl, inr}
use mathlib.Core.Option.{Option, none, some}
use native.Mathlib.Omega.{arith}
use inferlog.Prelude.Tests.{if◌then◌else◌, ◌==◌, Bool-cases}
use inferlog.Prelude.Int.{ℤ, pos, negsuc}
use inferlog.Prelude.Text.{Text, text_eq, text_eq_iff}

mutual
  pub data Json : Type 0 where
    null : Json
    bool : Bool → Json
    int : ℤ → Json
    float : ℕ → Json
    str : Text → Json
    arr : Items → Json
    obj : Fields → Json

  pub data Items : Type 0 where
    nil : Items
    cons : Json → Items → Items

  pub data Fields : Type 0 where
    end : Fields
    field : Text → Json → Fields → Fields

-- `d.get(k)` as an option: `none` if the key is missing.
unfoldable pub lookup : Text → Fields → Option Json
lookup k Fields.end = none
lookup k (Fields.field j v d) = if text_eq j k then some v else lookup k d

-- `d.get(k, default)`
unfoldable pub get_or : Text → Fields → Json → Json
unfolding lookup
get_or k d default = elim (lookup k d) [ none ↦ default | some v ↦ v ]

-- `d.get(k)`
unfoldable pub get : Text → Fields → Json
unfolding get_or
get k d = get_or k d null

-- `d[k] = v`: a key that is there keeps its place.
unfoldable pub insert : Text → Json → Fields → Fields
insert k v Fields.end = Fields.field k v Fields.end
insert k v (Fields.field j w d) =
    if text_eq j k then Fields.field j v d else Fields.field j w (insert k v d)

-- `{**d, **e}`
unfoldable pub merge : Fields → Fields → Fields
unfolding insert
merge d Fields.end = d
merge d (Fields.field k v e) = merge (insert k v d) e

-- `len(d)`
abbrev pub size : Fields → ℕ
size Fields.end = 0
size (Fields.field k v d) = suc (size d)

-- `d.items()[:n]`
unfoldable pub take_items : ℕ → Fields → Fields
take_items zero d = Fields.end
take_items (suc n) Fields.end = Fields.end
take_items (suc n) (Fields.field k v d) = Fields.field k v (take_items n d)

-- `bool(v)`
unfoldable pub truthy : Json → Bool
truthy null = false
truthy (bool b) = b
truthy (int (pos n)) = not (n == 0)
truthy (int (negsuc n)) = true
truthy (float n) = not (n == 0)
truthy (str []) = false
truthy (str (c ∷ s)) = true
truthy (arr Items.nil) = false
truthy (arr (Items.cons v vs)) = true
truthy (obj Fields.end) = false
truthy (obj (Fields.field k v d)) = true

-- `v is None`
abbrev pub is_none : Json → Bool
is_none null = true
is_none _ = false

pub lookup-insert :
    (k j : Text) (v : Json) (d : Fields)
    → lookup j (insert k v d) ≡ (if text_eq k j then some v else lookup j d)
unfolding lookup insert
lookup-insert k j v Fields.end = refl
lookup-insert k j v (Fields.field i w d) =
    ground (arith, text_eq_iff k j, text_eq_iff i k, text_eq_iff i j, lookup-insert k j v d)

pub size-take_items-le : (n : ℕ) (d : Fields) → size (take_items n d) ≤ n
unfolding take_items
size-take_items-le zero d = omega arith
size-take_items-le (suc n) Fields.end = omega arith
size-take_items-le (suc n) (Fields.field k v d) = omega (arith, size-take_items-le n d)

pub size-insert-le : (k : Text) (v : Json) (d : Fields) → size (insert k v d) ≤ size d + 1
unfolding insert
size-insert-le k v Fields.end = omega arith
size-insert-le k v (Fields.field j w d) = ground (arith, size-insert-le k v d)

-- No key stands twice, as in every dictionary of Python.
abbrev pub IsDistinct : Fields → Type 0
IsDistinct Fields.end = Unit
IsDistinct (Fields.field k v d) = (lookup k d ≡ none) × IsDistinct d

abbrev pub or_else {ℓ} : {A : Type ℓ} → Option A → Option A → Option A
or_else (some a) b = some a
or_else none b = b

-- In a merge the second dictionary wins.
pub lookup-merge :
    (k : Text) (d e : Fields)
    → IsDistinct e
    → lookup k (merge d e) ≡ or_else (lookup k e) (lookup k d)
unfolding lookup merge
lookup-merge k d Fields.end h = refl
lookup-merge k d (Fields.field j v e) h = elim (Bool-cases (text_eq j k)) [
  | inl same ↦
      let found : lookup k e ≡ none = rw (← (text_eq_iff j k).0 same) h.0 in
      ground (arith, lookup-merge k (insert j v d) e h.1, lookup-insert j k v d)
  | inr other ↦ ground (arith, lookup-merge k (insert j v d) e h.1, lookup-insert j k v d)
]
