-- ===== src/Sdk/Parsers/Streams/Feed.antt =====
-- The `feed` loop that the three stream parsers share, and that its fuel suffices.
use inferlog.Prelude.{
  ℕ, zero, suc, ◌≤◌, ◌<◌, ◌≡◌, refl, Bool, true, false, Bool-cases, inl, inr, Option, none, some,
  [], ◌∷◌, ◌++◌, ◌==◌, if◌then◌else◌, length, arith, Option-cases,
}
use inferlog.Prelude.Python.{Python}
use inferlog.Prelude.Text.{Text}
use inferlog.Sdk.Parsers.Streams.Lines.{
  Observed, Fed, fed, raised, Format, handle_line, nothing_observed,
}

pub record StreamParser : Type 0 where
  pub observed : Observed
  pub buffer : Text

-- `StreamParser.__init__`
abbrev pub new_parser : StreamParser
new_parser = record { observed = nothing_observed; buffer = [] }

-- The parser after a call of `feed`, and whether the call ended without an exception.
pub record AfterFeed : Type 0 where
  pub parser : StreamParser
  pub ok : Bool

-- `buffer.split(b"\n", 1)`, `none` if there is no line break.
unfoldable pub split_line : Text → Option (Text × Text)
split_line [] = none
split_line (c ∷ text) =
    let rest = split_line text in
    if c == 10
    then some ([], text)
    else elim rest [ none ↦ none | some (line, after) ↦ some (c ∷ line, after) ]

module _ (handle : Text → Observed → Fed) where
  -- The `while` loop on fuel.
  unfoldable pub feed_lines : ℕ → StreamParser → AfterFeed
  feed_lines zero p = record { parser = p; ok = true }
  feed_lines (suc fuel) p = elim (split_line p.buffer) [
    | none ↦ record { parser = p; ok = true }
    | some (line, after) ↦ elim (handle line p.observed) [
      | fed o ↦ feed_lines fuel (record { observed = o; buffer = after })
      | raised o ↦ record { parser = record { observed = o; buffer = after }; ok = false }
    ]
  ]

  unfoldable pub feed_with : Text → StreamParser → AfterFeed
  unfolding feed_lines
  feed_with chunk p =
      let buffer = p.buffer ++ chunk in feed_lines (length buffer) (record p { buffer = buffer })

unfoldable pub feed : Python → Format → Text → StreamParser → AfterFeed
unfolding feed_with handle_line
feed py format = feed_with (handle_line py format)

pub split_line-append :
    (buffer more line after : Text)
    → split_line buffer ≡ some (line, after)
    → split_line (buffer ++ more) ≡ some (line, after ++ more)
unfolding split_line
split_line-append [] more line after h = cc
split_line-append (c ∷ buffer) more line after h = elim (Bool-cases (c == 10)) [
  | inl e ↦ ground arith
  | inr e ↦ elim (Option-cases (split_line buffer)) [
    | inl n ↦ ground arith
    | inr ((l, a), s) ↦ ground (arith, split_line-append buffer more l a s)
  ]
]

pub length-after-lt :
    (buffer line after : Text)
    → split_line buffer ≡ some (line, after)
    → length after < length buffer
unfolding split_line
length-after-lt [] line after h = cc
length-after-lt (c ∷ buffer) line after h = elim (Bool-cases (c == 10)) [
  | inl e ↦ ground arith
  | inr e ↦ elim (Option-cases (split_line buffer)) [
    | inl n ↦ ground arith
    | inr ((l, a), s) ↦ ground (arith, length-after-lt buffer l a s)
  ]
]

pub split_line-none_of_empty : (buffer : Text) → length buffer ≤ 0 → split_line buffer ≡ none
unfolding split_line
split_line-none_of_empty [] h = refl
split_line-none_of_empty (c ∷ buffer) h = absurd (omega arith)

module _ (handle : Text → Observed → Fed) where
  -- What a round does, given the first line.
  pub feed_lines_fed :
      (fuel : ℕ) (p : StreamParser) (line after : Text) (o : Observed)
      → split_line p.buffer ≡ some (line, after)
      → handle line p.observed ≡ fed o
      → feed_lines handle (suc fuel) p
        ≡ feed_lines handle fuel (record { observed = o; buffer = after })
  unfolding feed_lines
  feed_lines_fed fuel p line after o s h = ground arith

  pub feed_lines_raised :
      (fuel : ℕ) (p : StreamParser) (line after : Text) (o : Observed)
      → split_line p.buffer ≡ some (line, after)
      → handle line p.observed ≡ raised o
      → feed_lines handle (suc fuel) p
        ≡ record { parser = record { observed = o; buffer = after }; ok = false }
  unfolding feed_lines
  feed_lines_raised fuel p line after o s h = ground arith

  pub feed_lines_end :
      (fuel : ℕ) (p : StreamParser)
      → split_line p.buffer ≡ none
      → feed_lines handle fuel p ≡ record { parser = p; ok = true }
  unfolding feed_lines
  feed_lines_end zero p s = refl
  feed_lines_end (suc fuel) p s = ground arith
