-- ===== src/Sdk/Parsers/Streams/Growth.antt =====
-- What a stream parser has seen is never taken back, also by a line that raises.
use inferlog.Prelude.{
  ℕ, zero, suc, ◌≤◌, ◌≡◌, ap, true, inl, inr, none, ◌++◌, length, arith, Option-cases,
}
use inferlog.Prelude.Python.{Python}
use inferlog.Prelude.Text.{Text}
use inferlog.Sdk.Parsers.Streams.Lines.{Observed, Fed, state, Format, handle_line}
use inferlog.Sdk.Parsers.Streams.Feed.{
  StreamParser, split_line, feed_lines, feed_with, feed, length-after-lt, split_line-none_of_empty,
  feed_lines_fed, feed_lines_raised, feed_lines_end,
}
use inferlog.Sdk.Parsers.Streams.Chunks.{Fed-cases}
use mathlib.Core.Bool.{false≢true}
pub use inferlog.Sdk.Parsers.Streams.GrowthRules.{Grows}
use inferlog.Sdk.Parsers.Streams.GrowthRules.{Growing, Grows-refl, Grows-trans}
use inferlog.Sdk.Parsers.Streams.GrowthLines.{handle_line-Growing}

module _ (handle : Text → Observed → Fed) (growing : (line : Text) → Growing (handle line)) where
  feed_lines-Grows :
      (fuel : ℕ) (p : StreamParser) → Grows p.observed (feed_lines handle fuel p).parser.observed
  feed_lines-Grows zero p = unfold feed_lines in Grows-refl p.observed
  feed_lines-Grows (suc fuel) p = elim (Option-cases (split_line p.buffer)) [
    | inl s ↦ rw (feed_lines_end handle (suc fuel) p s) (Grows-refl p.observed)
    | inr ((line, after), s) ↦ elim (Fed-cases (handle line p.observed)) [
      | inl (o, h) ↦ rw (feed_lines_fed handle fuel p line after o s h) (
          Grows-trans (rw (ap state h) at (growing line p.observed))
            (feed_lines-Grows fuel (record { observed = o; buffer = after })))
      | inr (o, h) ↦
          rw (feed_lines_raised handle fuel p line after o s h)
            (rw (ap state h) at (growing line p.observed))
    ]
  ]

  -- With the buffer's length for fuel the loop comes to an end of the buffer, or to an exception.
  feed_lines_done :
      (fuel : ℕ) (p : StreamParser)
      → length p.buffer ≤ fuel
      → (feed_lines handle fuel p).ok ≡ true
      → split_line (feed_lines handle fuel p).parser.buffer ≡ none
  feed_lines_done zero p f ok =
      let s = split_line-none_of_empty p.buffer f in rw (feed_lines_end handle zero p s) s
  feed_lines_done (suc fuel) p f ok = elim (Option-cases (split_line p.buffer)) [
    | inl s ↦ rw (feed_lines_end handle (suc fuel) p s) s
    | inr ((line, after), s) ↦ elim (Fed-cases (handle line p.observed)) [
      | inl (o, h) ↦
          let shorter = length-after-lt p.buffer line after s in
          let e = feed_lines_fed handle fuel p line after o s h in
          rw e (
            feed_lines_done fuel (record { observed = o; buffer = after }) (omega arith)
              (rw e at ok))
      | inr (o, h) ↦
          absurd (false≢true (rw (feed_lines_raised handle fuel p line after o s h) at ok))
    ]
  ]

-- However the body is cut and whatever its lines hold, a call of `feed` only adds to the output
-- text and never takes back that the end was seen; and if it ends without an exception, every
-- complete line of the buffer has been handled.
pub feed-Grows :
    (py : Python) (format : Format) (chunk : Text) (p : StreamParser)
    → Grows p.observed (feed py format chunk p).parser.observed
      × ((feed py format chunk p).ok ≡ true
          → split_line (feed py format chunk p).parser.buffer ≡ none)
unfolding feed feed_with
feed-Grows py format chunk p =
    let buffer = p.buffer ++ chunk in
    (
      feed_lines-Grows (handle_line py format) (handle_line-Growing py format) (length buffer)
          (record p { buffer = buffer }),
      feed_lines_done (handle_line py format) (handle_line-Growing py format) (length buffer)
          (record p { buffer = buffer }) (omega arith),
    )
