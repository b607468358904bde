-- ===== src/Sdk/Redaction.antt =====
-- sdk/inferlog/redaction.py: the redactor that runs before an event leaves the process.
--
-- The regular expressions are kept as their source texts. Python's `re` is a parameter:
-- `subn pattern replacement text` is the text with every match replaced, and their number.
use inferlog.Prelude.{
  ℕ, ◌+◌, ◌≡◌, refl, ap, ◌∙◌, Bool, true, false, Option, none, some, List, [], ◌∷◌, ◌++◌,
  if◌then◌else◌, arith, Bool-cases, inl, inr,
}
use mathlib.Core.Option
use inferlog.Prelude.Text.{Text, codes}

-- A label and the source of its regular expression.
abbrev pub Pattern : Type 0
Pattern = Text × Text

abbrev pub Subn : Type 0
Subn = Text → Text → Text → Text × ℕ

abbrev pub default_patterns : List Pattern
default_patterns =
    (codes "EMAIL", codes "\\b[A-Za-z0-9._%+-]+@[A-Za-z0-9.-]+\\.[A-Za-z]{2,}\\b")
    ∷ (codes "API_KEY", codes "\\b(?:sk|pk|rk)-[A-Za-z0-9_-]{16,}\\b")
    ∷ (codes "SSN", codes "\\b\\d{3}-\\d{2}-\\d{4}\\b")
    ∷ (codes "CARD", codes "\\b\\d{4}[ -]?\\d{4}[ -]?\\d{4}[ -]?\\d{1,4}\\b")
    ∷ (codes "PHONE", codes "\\b(?:\\+?\\d{1,2}[ .-]?)?\\(?\\d{3}\\)?[ .-]?\\d{3}[ .-]?\\d{4}\\b")
    ∷ (codes "IP", codes "\\b(?:\\d{1,3}\\.){3}\\d{1,3}\\b")
    ∷ []

-- `custom` stands for the customer's own callable, if there is one; it gives `none` where it raises.
pub record Redactor : Type 0 where
  pub enabled : Bool
  pub custom : Option (Text → Option (Text × ℕ))
  pub patterns : List Pattern

-- `Redactor.__init__`
unfoldable pub make_redactor : Bool → List Pattern → Option (Text → Option (Text × ℕ)) → Redactor
make_redactor enabled extra_patterns custom = record {
  enabled = enabled;
  custom = custom;
  patterns = default_patterns ++ extra_patterns;
}

-- f"[REDACTED_{label}]"
abbrev pub replacement : Text → Text
replacement label = codes "[REDACTED_" ++ (label ++ codes "]")

module _ (subn : Subn) where
  -- The loop over the patterns: the text and the total so far.
  unfoldable pub apply_patterns : List Pattern → Text → ℕ → Text × ℕ
  apply_patterns [] text total = (text, total)
  apply_patterns ((label, pattern) ∷ patterns) text total =
      let (text', count) = subn pattern (replacement label) text in
      apply_patterns patterns text' (total + count)

  -- `redact` of a text that is there and not empty.
  unfoldable pub redact_text : Redactor → Text → Option (Text × ℕ)
  unfolding apply_patterns
  redact_text r text = elim r.custom [
    | some custom ↦ custom text
    | none ↦ some (apply_patterns r.patterns text 0)
  ]

  -- `redact`; `none` is an exception of the custom callable.
  unfoldable pub redact : Redactor → Option Text → Option (Option Text × ℕ)
  unfolding redact_text
  redact r none = some (none, 0)
  redact r (some []) = some (some [], 0)
  redact r (some (c ∷ text)) =
      if r.enabled
      then Option.map (λ p. (some p.0, p.1)) (redact_text r (c ∷ text))
      else some (some (c ∷ text), 0)

  -- A pass that starts from a total adds its own count to it.
  pub apply_patterns_total :
      (patterns : List Pattern) (text : Text) (total : ℕ)
      → apply_patterns patterns text total
        ≡ ((apply_patterns patterns text 0).0, total + (apply_patterns patterns text 0).1)
  unfolding apply_patterns
  apply_patterns_total [] text total = ground arith
  apply_patterns_total ((label, pattern) ∷ patterns) text total =
      let (text', count) = subn pattern (replacement label) text in
      ground (
        arith,
        apply_patterns_total patterns text' (total + count),
        apply_patterns_total patterns text' (0 + count),
      )

  apply_patterns-append :
      (ps qs : List Pattern) (text : Text) (total : ℕ)
      → let (text', total') = apply_patterns ps text total in
        apply_patterns (ps ++ qs) text total ≡ apply_patterns qs text' total'
  unfolding apply_patterns
  apply_patterns-append [] qs text total = refl
  apply_patterns-append ((label, pattern) ∷ ps) qs text total =
      let (text', count) = subn pattern (replacement label) text in
      apply_patterns-append ps qs text' (total + count)

  -- Extra patterns see only what the default pass has already redacted, and the count is the sum of
  -- the two passes' counts.
  pub redact_extra :
      (extra : List Pattern) (c : ℕ) (text : Text)
      → let (text', n) = apply_patterns default_patterns (c ∷ text) 0 in
        let (text'', m) = apply_patterns extra text' 0 in
        (redact (make_redactor true [] none) (some (c ∷ text)) ≡ some (some text', n))
        × (redact (make_redactor true extra none) (some (c ∷ text)) ≡ some (some text'', n + m))
  unfolding redact make_redactor
  redact_extra extra c text =
      let d = apply_patterns default_patterns (c ∷ text) 0 in
      (
        refl,
        ap (λ p. some (some p.0, p.1))
            (apply_patterns-append default_patterns extra (c ∷ text) 0
              ∙ apply_patterns_total extra d.0 d.1),
      )

  -- A disabled redactor hands every text on unchanged and counts nothing.
  pub redact_disabled :
      (r : Redactor) (text : Option Text) → r.enabled ≡ false → redact r text ≡ some (text, 0)
  unfolding redact
  redact_disabled r none h = refl
  redact_disabled r (some []) h = refl
  redact_disabled r (some (c ∷ text)) h = rw h

  -- The regular expressions never raise.
  pub redact_total :
      (r : Redactor) (text : Option Text)
      → r.custom ≡ none
      → (p : Option Text × ℕ) × (redact r text ≡ some p)
  unfolding redact
  redact_total r none h = ((none, 0), refl)
  redact_total r (some []) h = ((some [], 0), refl)
  redact_total r (some (c ∷ text)) h = elim (Bool-cases r.enabled) [
    | inl e ↦
        let p = apply_patterns r.patterns (c ∷ text) 0 in ((some p.0, p.1), rw (e, h, redact_text))
    | inr e ↦ ((some (c ∷ text), 0), rw e)
  ]
