-- ===== src/Sdk/Parsers/Values.antt =====
-- Access to decoded JSON as the parsers write it, `_safe_json` and `_last_user_text`.
use inferlog.Prelude.{
  Bool, true, false, ◌&&◌, ◌||◌, Option, none, some, List, [], ◌∷◌, ◌++◌, reverse, if◌then◌else◌,
}
use inferlog.Prelude.Int.{ℤ, pos, ◌+ℤ◌}
use inferlog.Prelude.Json.{
  Json, null, bool, int, float, str, arr, obj, Items, Fields, get, get_or, truthy, is_none,
}
use inferlog.Prelude.Python.{Python}
use inferlog.Prelude.Text.{Text, codes, text_eq, strip, join}

-- `none` is an exception.
infixl 5 ◌>>=◌
abbrev pub ◌>>=◌ {ℓ κ} : {A : Type ℓ} {B : Type κ} → Option A → (A → Option B) → Option B
none >>= f = none
some a >>= f = f a

abbrev pub to_list : Items → List Json
to_list Items.nil = []
to_list (Items.cons v vs) = v ∷ to_list vs

-- `v.get(k)` and `v.get(k, default)`: only a dictionary has the method.
unfoldable pub get_attr : Text → Json → Option Json
unfolding get
get_attr k (obj d) = some (get k d)
get_attr k _ = none

unfoldable pub get_attr_or : Text → Json → Json → Option Json
unfolding get_or
get_attr_or k (obj d) default = some (get_or k d default)
get_attr_or k _ default = none

-- `v or default`
unfoldable pub or_value : Json → Json → Json
unfolding truthy
or_value v default = if truthy v then v else default

-- `v or {}`
abbrev pub or_empty : Json → Json
or_empty v = or_value v (obj Fields.end)

abbrev pub is_text : Text → Json → Bool
is_text t (str s) = text_eq s t
is_text t _ = false

-- `True` and `False` are the integers 1 and 0.
abbrev pub number : Json → Option ℤ
number (int n) = some n
number (bool true) = some (pos 1)
number (bool false) = some (pos 0)
number _ = none

abbrev pub append_items : Items → Items → Items
append_items Items.nil ys = ys
append_items (Items.cons x xs) ys = Items.cons x (append_items xs ys)

abbrev pub is_float : Json → Bool
is_float (float n) = true
is_float _ = false

abbrev pub is_number : Json → Bool
is_number (float n) = true
is_number (int n) = true
is_number (bool b) = true
is_number _ = false

module _ (py : Python) where
  -- `a + b` of two decoded values.
  unfoldable pub add : Json → Json → Option Json
  add (str a) (str b) = some (str (a ++ b))
  add (arr a) (arr b) = some (arr (append_items a b))
  add a b =
      if (is_float a || is_float b) && (is_number a && is_number b)
      then some (py.float_add a b)
      else (number a >>= λ n. number b >>= λ m. some (int (n +ℤ m)))

  -- `_safe_json`; None is `null`, as it is for the text `null`.
  unfoldable pub safe_json : Text → Json
  safe_json [] = null
  safe_json (c ∷ content) = elim (py.loads (c ∷ content)) [ some v ↦ v | none ↦ null ]

  -- `str(v)`
  unfoldable pub to_str : Json → Text
  to_str (str t) = t
  to_str v = py.str_of v

  -- The texts of a multimodal content list.
  unfoldable pub text_parts : List Json → List Text
  text_parts [] = []
  text_parts (obj p ∷ parts) =
      let rest = text_parts parts in
      if is_none (get (codes "type") p) || is_text (codes "text") (get (codes "type") p)
      then to_str (get_or (codes "text") p (str [])) ∷ rest
      else rest
  text_parts (other ∷ parts) = text_parts parts

  -- The content of one message of the user: `none` goes on with the loop, `some` returns.
  unfoldable pub user_content : Json → Option (Option Text)
  user_content (str t) = some (some t)
  user_content (arr parts) = elim (strip (join (codes " ") (text_parts (to_list parts)))) [
    | [] ↦ some none
    | c ∷ t ↦ some (some (c ∷ t))
  ]
  user_content _ = none

  -- The loop, over the messages from the last to the first.
  unfoldable pub last_user_loop : List Json → Option Text
  last_user_loop [] = none
  last_user_loop (obj msg ∷ earlier) =
      let rest = last_user_loop earlier in
      if is_text (codes "user") (get (codes "role") msg)
      then elim (user_content (get (codes "content") msg)) [ some found ↦ found | none ↦ rest ]
      else rest
  last_user_loop (other ∷ earlier) = last_user_loop earlier

  -- Of other values than a list the loop finds nothing or the exception is caught: None both times.
  unfoldable pub last_user_text : Json → Option Text
  last_user_text (arr messages) = last_user_loop (reverse (to_list messages))
  last_user_text _ = none
