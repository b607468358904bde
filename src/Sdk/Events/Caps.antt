-- ===== src/Sdk/Events/Caps.antt =====
-- `_cap_str` and `_cap_value`, with the constants.
use inferlog.Prelude.{
  ℕ, ◌-◌, ◌≤◌, ◌<◌, ◌≡◌, refl, ap, Option, none, some, [], ◌∷◌, ◌++◌, leb, if◌then◌else◌, length,
  take, length-append, length-take, arith,
}
use inferlog.Prelude.Json.{Json, null, bool, int, float, str, arr, obj}
use inferlog.Prelude.Python.{Python}
use inferlog.Prelude.Text.{Text}

abbrev pub max_error_chars : ℕ
max_error_chars = 2000

abbrev pub max_tag_keys : ℕ
max_tag_keys = 32

abbrev pub max_value_chars : ℕ
max_value_chars = 256

abbrev pub max_dict_bytes : ℕ
max_dict_bytes = 4096

-- Over a text that is there.
unfoldable pub cap_text : Text → ℕ → Text
cap_text value limit =
    if leb (length value) limit then value else take (limit - 1) value ++ 0x2026 ∷ []

unfoldable pub cap_str : Option Text → ℕ → Option Text
unfolding cap_text
cap_str none limit = none
cap_str (some value) limit = some (cap_text value limit)

module _ (py : Python) where
  unfoldable pub cap_value : Json → Json
  unfolding cap_text
  cap_value (str value) = str (cap_text value max_value_chars)
  cap_value null = null
  cap_value (bool b) = bool b
  cap_value (int n) = int n
  cap_value (float n) = float n
  cap_value (arr items) = str (cap_text (py.str_of (arr items)) max_value_chars)
  cap_value (obj fields) = str (cap_text (py.str_of (obj fields)) max_value_chars)

-- A capped text is within a positive limit.
pub length-cap_text-le :
    (value : Text) (limit : ℕ) → 0 < limit → length (cap_text value limit) ≤ limit
unfolding cap_text
length-cap_text-le value limit h =
    ground
      (arith, length-append (take (limit - 1) value) (0x2026 ∷ []), length-take (limit - 1) value)

-- Of a capped text, all but the last place are a front of the original, and a text within the
-- limit is left alone.
pub take-cap_text :
    (value : Text) (limit : ℕ)
    → (length value ≤ limit → cap_text value limit ≡ value)
      × (limit < length value → cap_text value limit ≡ take (limit - 1) value ++ 0x2026 ∷ [])
unfolding cap_text
take-cap_text value limit = ((λ h. ground arith), (λ h. ground arith))

-- A scalar, or a text of at most 256 characters.
abbrev pub IsCapped : Json → Type 0
IsCapped (str value) = length value ≤ max_value_chars
IsCapped (arr items) = ⊥
IsCapped (obj fields) = ⊥
IsCapped _ = Unit

pub cap_value-IsCapped : (py : Python) (v : Json) → IsCapped (cap_value py v)
unfolding cap_value
cap_value-IsCapped py null = tt
cap_value-IsCapped py (bool b) = tt
cap_value-IsCapped py (int n) = tt
cap_value-IsCapped py (float n) = tt
cap_value-IsCapped py (str value) = length-cap_text-le value max_value_chars (omega arith)
cap_value-IsCapped py (arr items) =
    length-cap_text-le (py.str_of (arr items)) max_value_chars (omega arith)
cap_value-IsCapped py (obj fields) =
    length-cap_text-le (py.str_of (obj fields)) max_value_chars (omega arith)

-- A value within the cap is left alone, with its type.
pub cap_value_of_IsCapped : (py : Python) (v : Json) → IsCapped v → cap_value py v ≡ v
unfolding cap_value
cap_value_of_IsCapped py null h = refl
cap_value_of_IsCapped py (bool b) h = refl
cap_value_of_IsCapped py (int n) h = refl
cap_value_of_IsCapped py (float n) h = refl
cap_value_of_IsCapped py (str value) h = ap str ((take-cap_text value max_value_chars).0 h)
cap_value_of_IsCapped py (arr items) h = absurd h
cap_value_of_IsCapped py (obj fields) h = absurd h
