-- ===== src/Ingestion/Enrich.antt =====
-- ingestion/app/enrich.py. There are no floats here: their type and operations are a parameter.
use inferlog.Prelude.{
  ℕ, zero, suc, ◌+◌, ◌≡◌, ◌⊎◌, refl, ◌&&◌, Option, none, some, List, [], ◌∷◌, if◌then◌else◌, arith,
  is_some,
}
use inferlog.Prelude.Text.{Text, codes, text_eq}

-- `of_nat` and `hundredths` make a float of an integer and of a literal with two decimals.
pub record Floats : Type 1 where
  pub Float : Type 0
  pub of_nat : ℕ → Float
  pub hundredths : ℕ → Float
  pub add : Float → Float → Float
  pub mul : Float → Float → Float
  pub div : Float → Float → Float
  pub round : Float → ℕ → Float

-- The price list: the input and the output rate in hundredths of a dollar for a million tokens.
abbrev pub pricing : List (Text × (ℕ × ℕ))
pricing =
    (codes "gpt-4.1", (200, 800))
    ∷ (codes "gpt-4.1-mini", (40, 160))
    ∷ (codes "gpt-4o-mini", (15, 60))
    ∷ (codes "claude-sonnet-4-5", (300, 1500))
    ∷ (codes "mock-1", (0, 0))
    ∷ []

unfoldable pub lookup_rate : Text → List (Text × (ℕ × ℕ)) → Option (ℕ × ℕ)
lookup_rate model [] = none
lookup_rate model ((name, rate) ∷ rates) =
    if text_eq name model then some rate else lookup_rate model rates

unfoldable pub total_tokens : Option ℕ → Option ℕ → Option ℕ → Option ℕ
total_tokens prompt completion (some reported) = some reported
total_tokens (some prompt) (some completion) none = some (prompt + completion)
total_tokens _ _ none = none

module _ (fl : Floats) where
  open fl use {Float, of_nat, hundredths, add, mul, div, round}

  unfoldable pub cost_at : Option (ℕ × ℕ) → Option ℕ → Option ℕ → Option Float
  cost_at (some (input_rate, output_rate)) (some prompt) (some completion) = some (
      round
        (add (mul (div (of_nat prompt) (of_nat 1_000_000)) (hundredths input_rate))
          (mul (div (of_nat completion) (of_nat 1_000_000)) (hundredths output_rate)))
        6)
  cost_at _ _ _ = none

  unfoldable pub estimate_cost : Text → Option ℕ → Option ℕ → Option Float
  estimate_cost model prompt completion = cost_at (lookup_rate model pricing) prompt completion

  unfoldable pub tokens_per_second : Option ℕ → ℕ → Option Float
  tokens_per_second none latency_ms = none
  tokens_per_second (some zero) latency_ms = none
  tokens_per_second (some (suc n)) zero = none
  tokens_per_second (some (suc n)) (suc latency_ms) =
      some (round (div (of_nat (suc n)) (div (of_nat (suc latency_ms)) (of_nat 1000))) 2)

  cost_at-known :
      (rate : Option (ℕ × ℕ)) (prompt completion : Option ℕ)
      → is_some (cost_at rate prompt completion)
        ≡ (is_some rate && (is_some prompt && is_some completion))
  unfolding cost_at
  cost_at-known none prompt completion = refl
  cost_at-known (some rate) none completion = refl
  cost_at-known (some rate) (some p) none = refl
  cost_at-known (some (i, o)) (some p) (some c) = refl

  -- A cost is estimated exactly if the model has a price and both counts are known.
  pub estimate_cost-known :
      (model : Text) (prompt completion : Option ℕ)
      → is_some (estimate_cost model prompt completion)
        ≡ (is_some (lookup_rate model pricing) && (is_some prompt && is_some completion))
  unfolding estimate_cost
  estimate_cost-known model prompt completion =
      cost_at-known (lookup_rate model pricing) prompt completion

-- A reported total is kept; otherwise a total is the sum, and known exactly if both counts are.
pub total_tokens_cases :
    (prompt completion reported : Option ℕ)
    → ((n : ℕ) → reported ≡ some n → total_tokens prompt completion reported ≡ some n)
      × ((p c : ℕ)
          → reported ≡ none
          → prompt ≡ some p
          → completion ≡ some c
          → total_tokens prompt completion reported ≡ some (p + c))
      × (reported ≡ none
          → (prompt ≡ none) ⊎ (completion ≡ none)
          → total_tokens prompt completion reported ≡ none)
unfolding total_tokens
total_tokens_cases prompt completion reported =
    ((λ n h. ground arith), (λ p c h k l. ground arith), (λ h k. ground arith))
