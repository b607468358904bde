-- ===== src/Prelude/Text.antt =====
-- Python's `str` and `bytes` as lists of code points, or of bytes, with the methods that the
-- program calls. `lower` is modelled on ASCII letters, the only ones in the names that it is
-- called on.
use Prim.Native.Char.{code}
use Prim.Native.Nat.{ℕ, ◌+◌}
use Prim.Native.String.{String}
use mathlib.Core.Path.{◌≡◌, refl, sym}
use mathlib.Core.Bool.{Bool, true, false, ◌&&◌, ◌||◌}
use mathlib.Core.List.{List, [], ◌∷◌, ◌++◌, map, reverse, append_assoc, append-nil}
use mathlib.Core.Logic.{◌↔◌}
use native.Mathlib.Omega.{arith}
use inferlog.Prelude.Tests.{leb, ◌==◌, if◌then◌else◌}

abbrev pub Text : Type 0
Text = List ℕ

-- The code points of a literal.
abbrev pub codes : String → Text
codes String.[] = []
codes (String.◌∷◌ c s) = code c ∷ codes s

-- `s == t`
unfoldable pub text_eq : Text → Text → Bool
text_eq [] [] = true
text_eq [] (d ∷ t) = false
text_eq (c ∷ s) [] = false
text_eq (c ∷ s) (d ∷ t) = c == d && text_eq s t

text_eq→≡ : (s t : Text) → text_eq s t ≡ true → s ≡ t
unfolding text_eq
text_eq→≡ [] [] h = refl
text_eq→≡ [] (d ∷ t) h = ground arith
text_eq→≡ (c ∷ s) [] h = ground arith
text_eq→≡ (c ∷ s) (d ∷ t) h = ground (arith, text_eq→≡ s t)

text_eq_refl : (s : Text) → text_eq s s ≡ true
unfolding text_eq
text_eq_refl [] = refl
text_eq_refl (c ∷ s) = ground (arith, text_eq_refl s)

pub text_eq_iff : (s t : Text) → (text_eq s t ≡ true) ↔ (s ≡ t)
text_eq_iff s t = (text_eq→≡ s t, λ e. rw e (text_eq_refl t))

-- `s.startswith(prefix)`, the prefix first.
unfoldable pub starts_with : Text → Text → Bool
starts_with [] s = true
starts_with (p ∷ ps) [] = false
starts_with (p ∷ ps) (c ∷ s) = p == c && starts_with ps s

-- `s.endswith(suffix)`
unfoldable pub ends_with : Text → Text → Bool
unfolding starts_with
ends_with suffix s = starts_with (reverse suffix) (reverse s)

-- `part in s`
unfoldable pub contains : Text → Text → Bool
unfolding starts_with
contains part [] = starts_with part []
contains part (c ∷ s) = starts_with part (c ∷ s) || contains part s

-- The characters that `bytes.strip()` removes.
unfoldable pub is_byte_space : ℕ → Bool
is_byte_space c = (leb 9 c && leb c 13) || c == 32

-- The characters that `str.strip()` and `str.split()` take for white space.
unfoldable pub is_space : ℕ → Bool
is_space c =
    (leb 9 c && leb c 13)
    || (leb 28 c && leb c 32)
    || c == 0x85
    || c == 0xa0
    || c == 0x1680
    || (leb 0x2000 c && leb c 0x200a)
    || c == 0x2028
    || c == 0x2029
    || c == 0x202f
    || c == 0x205f
    || c == 0x3000

module _ (space : ℕ → Bool) where
  unfoldable pub strip_left : Text → Text
  strip_left [] = []
  strip_left (c ∷ s) = if space c then strip_left s else c ∷ s

  unfoldable pub strip_by : Text → Text
  unfolding strip_left
  strip_by s = reverse (strip_left (reverse (strip_left s)))

-- `str.strip()` and `bytes.strip()`
unfoldable pub strip : Text → Text
unfolding strip_by is_space
strip = strip_by is_space

unfoldable pub strip_bytes : Text → Text
unfolding strip_by is_byte_space
strip_bytes = strip_by is_byte_space

unfoldable pub lower : Text → Text
lower = map (λ c. if leb b'A' c && leb c b'Z' then c + 32 else c)

-- `sep.join(parts)`
unfoldable pub join : Text → List Text → Text
join sep [] = []
join sep (s ∷ []) = s
join sep (s ∷ t ∷ ts) = s ++ (sep ++ join sep (t ∷ ts))

pub join_nil-cons : (t : Text) (ts : List Text) → join [] (t ∷ ts) ≡ t ++ join [] ts
unfolding join
join_nil-cons t [] = sym (append-nil t)
join_nil-cons t (u ∷ ts) = refl

pub join_nil-append :
    (parts : List Text) (t : Text) → join [] (parts ++ (t ∷ [])) ≡ join [] parts ++ t
unfolding join
join_nil-append [] t = refl
join_nil-append (s ∷ []) t = refl
join_nil-append (s ∷ u ∷ parts) t =
    rw (join_nil-append (u ∷ parts) t) (sym (append_assoc s (join [] (u ∷ parts)) t))

abbrev word_before : Text → List Text → List Text
word_before word words = elim word [ [] ↦ words | c ∷ t ↦ (c ∷ t) ∷ words ]

-- The words of a text, after the part of a word that has been read.
unfoldable split_after : Text → Text → List Text
unfolding is_space
split_after word [] = word_before word []
split_after word (c ∷ s) = elim (is_space c) [
  | true ↦ word_before word (split_after [] s)
  | false ↦ split_after (word ++ (c ∷ [])) s
]

-- `str.split()`
unfoldable pub split : Text → List Text
unfolding split_after
split s = split_after [] s
