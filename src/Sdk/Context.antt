-- ===== src/Sdk/Context.antt =====
-- sdk/inferlog/context.py: tags for every event of a scope.
--
-- The context variable is the current task's dictionary of tags, passed along as state.
use inferlog.Prelude.{◌≡◌, refl, inl, inr, Bool-cases, Option, none, some, if◌then◌else◌, arith}
use inferlog.Prelude.Json.{
  Json, null, Fields, lookup, merge, is_none, IsDistinct, lookup-merge, or_else,
}
use inferlog.Prelude.Text.{Text, text_eq, text_eq_iff}

-- `{k: v for k, v in tags.items() if v is not None}`
unfoldable pub without_none : Fields → Fields
without_none Fields.end = Fields.end
without_none (Fields.field k v d) =
    let rest = without_none d in if is_none v then rest else Fields.field k v rest

unfoldable pub merged_tags : Fields → Fields → Fields
unfolding without_none merge
merged_tags current tags = merge current (without_none tags)

-- `with context(**tags): body`. The `finally` resets the variable however the body ends, so what the
-- body leaves in it is gone; `A` holds the body's result or exception.
unfoldable pub context {ℓ} : {A : Type ℓ} → Fields → (Fields → A × Fields) → Fields → A × Fields
unfolding merged_tags
context tags body current = let (result, _) = body (merged_tags current tags) in (result, current)

-- A tag of None counts as absent.
abbrev pub given : Option Json → Option Json
given (some null) = none
given v = v

without_none-absent :
    (k : Text) (tags : Fields) → lookup k tags ≡ none → lookup k (without_none tags) ≡ none
unfolding lookup without_none
without_none-absent k Fields.end h = refl
without_none-absent k (Fields.field j v d) h = ground (arith, without_none-absent k d)

without_none-IsDistinct : (tags : Fields) → IsDistinct tags → IsDistinct (without_none tags)
unfolding without_none
without_none-IsDistinct Fields.end h = tt
without_none-IsDistinct (Fields.field k v d) h =
    ground (arith, without_none-IsDistinct d h.1, without_none-absent k d h.0)

lookup-without_none :
    (k : Text) (tags : Fields)
    → IsDistinct tags
    → lookup k (without_none tags) ≡ given (lookup k tags)
unfolding lookup without_none
lookup-without_none k Fields.end h = refl
lookup-without_none k (Fields.field j v d) h = elim (Bool-cases (text_eq j k)) [
  | inl same ↦
      let found : lookup k d ≡ none = rw (← (text_eq_iff j k).0 same) h.0 in
      ground (arith, without_none-absent k d found)
  | inr other ↦ ground (arith, lookup-without_none k d h.1)
]

-- Inside a `context` a tag that it gives, and that is not None, has the given value; every other tag
-- has the value that it has outside.
lookup-merged_tags :
    (k : Text) (current tags : Fields)
    → IsDistinct tags
    → lookup k (merged_tags current tags) ≡ or_else (given (lookup k tags)) (lookup k current)
unfolding merged_tags
lookup-merged_tags k current tags h =
    rw (lookup-merge k current (without_none tags) (without_none-IsDistinct tags h))
      (rw (lookup-without_none k tags h))
