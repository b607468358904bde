-- ===== src/Sdk/Events/Dicts.antt =====
-- `_cap_dict`.
use inferlog.Prelude.{
  ℕ, zero, suc, ◌+◌, ◌-◌, ◌≤◌, ◌≡◌, refl, ◌⊎◌, inl, inr, Bool-cases, ltb, if◌then◌else◌, arith,
}
use inferlog.Prelude.Json.{
  Json, Fields, size, take_items, insert, size-take_items-le, size-insert-le,
}
use inferlog.Prelude.Python.{Python}
use inferlog.Prelude.Text.{Text, text_eq}
use inferlog.Sdk.Events.Caps.{max_tag_keys, max_dict_bytes, cap_value, IsCapped, cap_value-IsCapped}

-- `d.popitem()`: the last item goes.
unfoldable pub pop_item : Fields → Fields
pop_item Fields.end = Fields.end
pop_item (Fields.field k v Fields.end) = Fields.end
pop_item (Fields.field k v (Fields.field k' v' d)) =
    Fields.field k v (pop_item (Fields.field k' v' d))

-- Every value of a dictionary.
abbrev pub Values : (Json → Type 0) → Fields → Type 0
Values P Fields.end = Unit
Values P (Fields.field k v d) = P v × Values P d

module _ (py : Python) where
  -- `{str(k): _cap_value(v) for k, v in items}`
  unfoldable pub cap_items : Fields → Fields → Fields
  cap_items Fields.end capped = capped
  cap_items (Fields.field k v d) capped = cap_items d (insert k (cap_value py v) capped)

  -- The `while` loop on fuel: every round takes an item away, so `size capped` rounds suffice.
  unfoldable pub trim : ℕ → Fields → Fields
  unfolding pop_item
  trim zero capped = capped
  trim (suc fuel) Fields.end = Fields.end
  trim (suc fuel) (Fields.field k v d) =
      let rest = trim fuel (pop_item (Fields.field k v d)) in
      if ltb max_dict_bytes (py.dumps_size (Fields.field k v d)) then rest else Fields.field k v d

  unfoldable pub cap_dict : Fields → Fields
  unfolding cap_items trim
  cap_dict Fields.end = Fields.end
  cap_dict (Fields.field k v d) =
      let capped = cap_items (take_items max_tag_keys (Fields.field k v d)) Fields.end in
      trim (size capped) capped

size-pop_item : (d : Fields) → size (pop_item d) ≡ size d - 1
unfolding pop_item
size-pop_item Fields.end = omega arith
size-pop_item (Fields.field k v Fields.end) = omega arith
size-pop_item (Fields.field k v (Fields.field k' v' d)) =
    omega (arith, size-pop_item (Fields.field k' v' d))

Values-pop_item : (P : Json → Type 0) (d : Fields) → Values P d → Values P (pop_item d)
unfolding pop_item
Values-pop_item P Fields.end h = tt
Values-pop_item P (Fields.field k v Fields.end) h = tt
Values-pop_item P (Fields.field k v (Fields.field k' v' d)) h =
    (h.0, Values-pop_item P (Fields.field k' v' d) h.1)

Values-insert :
    (P : Json → Type 0) (k : Text) (v : Json) (d : Fields)
    → P v
    → Values P d
    → Values P (insert k v d)
unfolding insert
Values-insert P k v Fields.end p h = (p, tt)
Values-insert P k v (Fields.field j w d) p h = elim (Bool-cases (text_eq j k)) [
  | inl e ↦ rw e (p, h.1)
  | inr e ↦ rw e (h.0, Values-insert P k v d p h.1)
]

module _ (py : Python) where
  Values-cap_items :
      (d capped : Fields) → Values IsCapped capped → Values IsCapped (cap_items py d capped)
  unfolding cap_items
  Values-cap_items Fields.end capped h = h
  Values-cap_items (Fields.field k v d) capped h =
      Values-cap_items d (insert k (cap_value py v) capped)
        (Values-insert IsCapped k (cap_value py v) capped (cap_value-IsCapped py v) h)

  size-cap_items-le : (d capped : Fields) → size (cap_items py d capped) ≤ size d + size capped
  unfolding cap_items
  size-cap_items-le Fields.end capped = omega arith
  size-cap_items-le (Fields.field k v d) capped = omega (
    arith,
    size-cap_items-le d (insert k (cap_value py v) capped),
    size-insert-le k (cap_value py v) capped,
  )

  -- What `_cap_dict` promises of its result.
  pub record IsCappedDict (d : Fields) : Type 0 where
    pub keys : size d ≤ max_tag_keys
    pub values : Values IsCapped d
    pub bytes : (d ≡ Fields.end) ⊎ (py.dumps_size d ≤ max_dict_bytes)

  trim-IsCappedDict :
      (fuel : ℕ) (d : Fields)
      → size d ≤ fuel
      → size d ≤ max_tag_keys
      → Values IsCapped d
      → IsCappedDict (trim py fuel d)
  unfolding trim
  trim-IsCappedDict zero Fields.end f s h = record { keys = s; values = h; bytes = inl refl }
  trim-IsCappedDict zero (Fields.field k v d) f s h = absurd (omega arith)
  trim-IsCappedDict (suc fuel) Fields.end f s h = record { keys = s; values = h; bytes = inl refl }
  trim-IsCappedDict (suc fuel) (Fields.field k v d) f s h =
      let e = Fields.field k v d in
      elim (Bool-cases (ltb max_dict_bytes (py.dumps_size e))) [
        | inl big ↦ rw big (
            trim-IsCappedDict fuel (pop_item e) (omega (arith, size-pop_item e))
              (omega (arith, size-pop_item e)) (Values-pop_item IsCapped e h))
        | inr fits ↦ rw fits (record { keys = s; values = h; bytes = inr (ground arith) })
      ]

  -- Whatever tags or metadata a caller hands in, the result has at most 32 keys, its values are
  -- scalars or texts of at most 256 characters, and unless it is empty its JSON has at most 4096
  -- bytes.
  pub cap_dict-IsCappedDict : (d : Fields) → IsCappedDict (cap_dict py d)
  unfolding cap_dict
  cap_dict-IsCappedDict Fields.end = record { keys = omega arith; values = tt; bytes = inl refl }
  cap_dict-IsCappedDict (Fields.field k v d) =
      let items = take_items max_tag_keys (Fields.field k v d) in
      trim-IsCappedDict (size (cap_items py items Fields.end)) (cap_items py items Fields.end)
        (omega arith)
        (omega (
          arith,
          size-cap_items-le items Fields.end,
          size-take_items-le max_tag_keys (Fields.field k v d),
        ))
        (Values-cap_items items Fields.end tt)
