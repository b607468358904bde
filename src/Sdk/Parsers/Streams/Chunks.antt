-- ===== src/Sdk/Parsers/Streams/Chunks.antt =====
-- Chunk boundaries do not matter: `feed` on two chunks in turn is `feed` on both at once.
use inferlog.Prelude.{
  ℕ, zero, suc, ◌≤◌, ◌≡◌, refl, sym, ◌∙◌, ap, true, ◌⊎◌, inl, inr, ◌++◌, length, length-append,
  arith, Option-cases, append_assoc,
}
use mathlib.Core.Bool.{false≢true}
use inferlog.Prelude.Python.{Python}
use inferlog.Prelude.Text.{Text}
use inferlog.Sdk.Parsers.Streams.Lines.{Observed, Fed, fed, raised, Format, handle_line}
use inferlog.Sdk.Parsers.Streams.Feed.{
  StreamParser, split_line, feed_lines, feed_with, feed, split_line-append, length-after-lt,
  feed_lines_fed, feed_lines_raised, feed_lines_end, split_line-none_of_empty,
}

pub Fed-cases : (r : Fed) → ((o : Observed) × (r ≡ fed o)) ⊎ ((o : Observed) × (r ≡ raised o))
Fed-cases (fed o) = inl (o, refl)
Fed-cases (raised o) = inr (o, refl)

module _ (handle : Text → Observed → Fed) where
  -- Fuel past the length of the buffer changes nothing.
  feed_lines_fuel :
      (f g : ℕ) (p : StreamParser)
      → length p.buffer ≤ f
      → length p.buffer ≤ g
      → feed_lines handle f p ≡ feed_lines handle g p
  feed_lines_fuel zero g p hf hg =
      let s = split_line-none_of_empty p.buffer hf in
      feed_lines_end handle zero p s ∙ sym (feed_lines_end handle g p s)
  feed_lines_fuel (suc f) zero p hf hg =
      let s = split_line-none_of_empty p.buffer hg in
      feed_lines_end handle (suc f) p s ∙ sym (feed_lines_end handle zero p s)
  feed_lines_fuel (suc f) (suc g) p hf hg = elim (Option-cases (split_line p.buffer)) [
    | inl s ↦ feed_lines_end handle (suc f) p s ∙ sym (feed_lines_end handle (suc g) p s)
    | inr ((line, after), s) ↦
        let shorter = length-after-lt p.buffer line after s in
        elim (Fed-cases (handle line p.observed)) [
          | inl (o, h) ↦
              feed_lines_fed handle f p line after o s h
              ∙ feed_lines_fuel f g (record { observed = o; buffer = after }) (omega arith)
                  (omega arith)
              ∙ sym (feed_lines_fed handle g p line after o s h)
          | inr (o, h) ↦
              feed_lines_raised handle f p line after o s h
              ∙ sym (feed_lines_raised handle g p line after o s h)
        ]
  ]

  -- More text behind the buffer is handled as if it came in a later call.
  feed_lines-append :
      (f g k : ℕ) (p : StreamParser) (q : StreamParser) (more : Text)
      → length p.buffer ≤ f
      → feed_lines handle f p ≡ record { parser = q; ok = true }
      → length (p.buffer ++ more) ≤ g
      → length (q.buffer ++ more) ≤ k
      → feed_lines handle g (record p { buffer = p.buffer ++ more })
        ≡ feed_lines handle k (record q { buffer = q.buffer ++ more })
  feed_lines-append zero g k p q more hf r hg hk =
      let s = split_line-none_of_empty p.buffer hf in
      let same : p ≡ q = ap (λ a. a.parser) (sym (feed_lines_end handle zero p s) ∙ r) in
      (feed_lines_fuel g k (record p { buffer = p.buffer ++ more }) hg (rw same hk))
      ∙ ap (λ (x : StreamParser). feed_lines handle k (record x { buffer = x.buffer ++ more })) same
  feed_lines-append (suc f) g k p q more hf r hg hk = elim (Option-cases (split_line p.buffer)) [
    | inl s ↦
        let same : p ≡ q = ap (λ a. a.parser) (sym (feed_lines_end handle (suc f) p s) ∙ r) in
        (feed_lines_fuel g k (record p { buffer = p.buffer ++ more }) hg (rw same hk))
        ∙ ap (λ (x : StreamParser). feed_lines handle k (record x { buffer = x.buffer ++ more }))
            same
    | inr ((line, after), s) ↦
        let shorter = length-after-lt p.buffer line after s in
        elim (Fed-cases (handle line p.observed)) [
          | inl (o, h) ↦
              let p' : StreamParser = record { observed = o; buffer = after } in
              let whole : StreamParser = record p { buffer = p.buffer ++ more } in
              feed_lines_fuel g (suc g) whole hg (omega arith)
              ∙ feed_lines_fed handle g whole line (after ++ more) o
                  (split_line-append p.buffer more line after s) h
              ∙ feed_lines-append f g k p' q more (omega arith)
                  (sym (feed_lines_fed handle f p line after o s h) ∙ r)
                  (omega (arith, length-append after more, length-append p.buffer more)) hk
          | inr (o, h) ↦ absurd (
              false≢true (ap (λ a. a.ok) (sym (feed_lines_raised handle f p line after o s h) ∙ r)))
        ]
  ]

  feed_with-append :
      (first second : Text) (p q : StreamParser)
      → feed_with handle first p ≡ record { parser = q; ok = true }
      → feed_with handle second q ≡ feed_with handle (first ++ second) p
  unfolding feed_with
  feed_with-append first second p q r =
      let p' : StreamParser = record p { buffer = p.buffer ++ first } in
      sym (
        feed_lines-append (length (p.buffer ++ first)) (length ((p.buffer ++ first) ++ second))
          (length (q.buffer ++ second)) p' q second (omega arith) r (omega arith) (omega arith))
      ∙ ap (λ (b : Text). feed_lines handle (length b) (record p { buffer = b }))
          (append_assoc p.buffer first second)

-- If the first of two chunks is handled without an exception, the second one then leaves the parser,
-- and ends, as one call on the two chunks joined would: it does not matter where the network cuts
-- the body, for any of the three stream formats.
pub feed-append :
    (py : Python) (format : Format) (first second : Text) (p q : StreamParser)
    → feed py format first p ≡ record { parser = q; ok = true }
    → feed py format second q ≡ feed py format (first ++ second) p
unfolding feed
feed-append py format = feed_with-append (handle_line py format)
