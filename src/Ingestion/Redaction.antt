-- ===== src/Ingestion/Redaction.antt =====
-- ingestion/app/redaction.py: the service's own pass, with the same patterns as the SDK.
use inferlog.Prelude.{ℕ, ◌+◌, ◌≡◌, refl, true, Option, none, some, List, [], ◌∷◌, ap, sym}
use inferlog.Prelude.Text.{Text, codes}
use inferlog.Sdk.Redaction as Sdk
use inferlog.Sdk.Redaction.{Pattern, Subn, replacement, make_redactor}

abbrev pub patterns : List Pattern
patterns =
    (codes "EMAIL", codes "\\b[A-Za-z0-9._%+-]+@[A-Za-z0-9.-]+\\.[A-Za-z]{2,}\\b")
    ∷ (codes "API_KEY", codes "\\b(?:sk|pk|rk)-[A-Za-z0-9_-]{16,}\\b")
    ∷ (codes "SSN", codes "\\b\\d{3}-\\d{2}-\\d{4}\\b")
    ∷ (codes "CARD", codes "\\b\\d{4}[ -]?\\d{4}[ -]?\\d{4}[ -]?\\d{1,4}\\b")
    ∷ (codes "PHONE", codes "\\b(?:\\+?\\d{1,2}[ .-]?)?\\(?\\d{3}\\)?[ .-]?\\d{3}[ .-]?\\d{4}\\b")
    ∷ (codes "IP", codes "\\b(?:\\d{1,3}\\.){3}\\d{1,3}\\b")
    ∷ []

module _ (subn : Subn) where
  unfoldable pub redact_loop : List Pattern → Text → ℕ → Text × ℕ
  redact_loop [] text total = (text, total)
  redact_loop ((label, pattern) ∷ ps) text total =
      let (text', count) = subn pattern (replacement label) text in
      redact_loop ps text' (total + count)

  unfoldable pub redact : Option Text → Option Text × ℕ
  redact none = (none, 0)
  redact (some []) = (some [], 0)
  redact (some (c ∷ text)) =
      let (text', total) = redact_loop patterns (c ∷ text) 0 in (some text', total)

  pub redact_loop-apply_patterns :
      (ps : List Pattern) (text : Text) (total : ℕ)
      → redact_loop ps text total ≡ Sdk.apply_patterns subn ps text total
  unfolding redact_loop Sdk.apply_patterns
  redact_loop-apply_patterns [] text total = refl
  redact_loop-apply_patterns ((label, pattern) ∷ ps) text total =
      let (text', count) = subn pattern (replacement label) text in
      redact_loop-apply_patterns ps text' (total + count)

  -- The service's second pass redacts every text exactly as the SDK's default redactor does, with the
  -- same count.
  pub redact-eq-sdk :
      (text : Option Text) → Sdk.redact subn (make_redactor true [] none) text ≡ some (redact text)
  unfolding redact Sdk.redact Sdk.redact_text make_redactor
  redact-eq-sdk none = refl
  redact-eq-sdk (some []) = refl
  redact-eq-sdk (some (c ∷ text)) =
      ap (λ p. some (some p.0, p.1)) (sym (redact_loop-apply_patterns patterns (c ∷ text) 0))
