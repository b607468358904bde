-- ===== src/Sdk/Parsers/Responses.antt =====
-- The `parse_response` methods of the built-in handlers.
use inferlog.Prelude.{
  ◌≡◌, ◌||◌, Option, none, some, List, [], ◌∷◌, if◌then◌else◌, ◌⊎◌, inl, inr, Option-cases,
}
use inferlog.Prelude.Json.{Json, null, str, arr, obj, Items, get, get_or, truthy, is_none}
use inferlog.Prelude.Python.{Python}
use inferlog.Prelude.Text.{Text, codes, join}
use inferlog.Sdk.Parsers.Values.{
  ◌>>=◌, to_list, get_attr, or_value, or_empty, is_text, add, safe_json, to_str,
}

-- None is `null`.
pub record ResponseMeta : Type 0 where
  pub output_text : Json
  pub prompt_tokens : Json
  pub completion_tokens : Json
  pub total_tokens : Json

abbrev pub empty_meta : ResponseMeta
empty_meta = record {
  output_text = null;
  prompt_tokens = null;
  completion_tokens = null;
  total_tokens = null;
}

-- `v[0]` on what is not empty; a string gives its first character, and other values raise.
unfoldable pub first_of_value : Json → Option Json
first_of_value (arr (Items.cons v vs)) = some v
first_of_value (str (c ∷ t)) = some (str (c ∷ []))
first_of_value _ = none

-- `choices[0].get("message") or {}` and its content, if there are choices.
unfoldable pub first_choice_text : Json → Option Json
unfolding first_of_value get_attr
first_choice_text choices =
    if truthy choices
    then (do
      choice ← first_of_value choices
      msg ← get_attr (codes "message") choice
      get_attr (codes "content") (or_empty msg))
    else some null

-- What holds of the value, if there is one.
abbrev Ensures {ℓ κ} : {A : Type ℓ} → (A → Type κ) → Option A → Type κ
Ensures P none = Unit
Ensures P (some a) = P a

>>=-Ensures {ℓ κ μ} :
    {A : Type ℓ} {B : Type κ} (P : B → Type μ) (m : Option A) (f : A → Option B)
    → ((a : A) → Ensures P (f a))
    → Ensures P (m >>= f)
>>=-Ensures P none f h = tt
>>=-Ensures P (some a) f h = h a

module _ (py : Python) where
  unfoldable pub parse_openai_response : Text → Option ResponseMeta
  unfolding get_attr safe_json first_choice_text
  parse_openai_response content = do
    let body = or_empty (safe_json py content)
    choices ← get_attr (codes "choices") body
    text ← first_choice_text choices
    usage ← get_attr (codes "usage") body
    prompt ← get_attr (codes "prompt_tokens") (or_empty usage)
    completion ← get_attr (codes "completion_tokens") (or_empty usage)
    total ← get_attr (codes "total_tokens") (or_empty usage)
    some (record {
      output_text = text;
      prompt_tokens = prompt;
      completion_tokens = completion;
      total_tokens = total;
    })

  -- The texts of the blocks of type `text`.
  unfoldable pub text_blocks : List Json → List Text
  text_blocks [] = []
  text_blocks (obj block ∷ blocks) =
      let rest = text_blocks blocks in
      if is_text (codes "text") (get (codes "type") block)
      then to_str py (get_or (codes "text") block (str [])) ∷ rest
      else rest
  text_blocks (other ∷ blocks) = text_blocks blocks

  -- `for block in body.get("content") or []`: a string or a dictionary has no blocks that are
  -- dictionaries; what cannot be iterated raises.
  abbrev blocks_of : Json → Option (List Json)
  blocks_of (arr items) = some (to_list items)
  blocks_of (str t) = some []
  blocks_of (obj d) = some []
  blocks_of v = if truthy v then none else some []

  -- `(prompt + completion) if (prompt is not None and completion is not None) else None`
  unfoldable pub sum_if_known : Json → Json → Option Json
  unfolding add
  sum_if_known prompt completion =
      if is_none prompt || is_none completion then some null else add py prompt completion

  -- `text or None`
  abbrev text_or_none : Text → Json
  text_or_none [] = null
  text_or_none (c ∷ t) = str (c ∷ t)

  unfoldable pub parse_anthropic_response : Text → Option ResponseMeta
  unfolding get_attr safe_json text_blocks sum_if_known
  parse_anthropic_response content = do
    let body = or_empty (safe_json py content)
    found ← get_attr (codes "content") body
    blocks ← blocks_of found
    usage ← get_attr (codes "usage") body
    prompt ← get_attr (codes "input_tokens") (or_empty usage)
    completion ← get_attr (codes "output_tokens") (or_empty usage)
    total ← sum_if_known prompt completion
    some (record {
      output_text = text_or_none (join [] (text_blocks blocks));
      prompt_tokens = prompt;
      completion_tokens = completion;
      total_tokens = total;
    })

  unfoldable pub parse_ollama_response : Text → Option ResponseMeta
  unfolding get_attr safe_json sum_if_known or_value
  parse_ollama_response content = do
    let body = or_empty (safe_json py content)
    msg ← get_attr (codes "message") body
    text ← get_attr (codes "content") (or_empty msg)
    response ← get_attr (codes "response") body
    prompt ← get_attr (codes "prompt_eval_count") body
    completion ← get_attr (codes "eval_count") body
    total ← sum_if_known prompt completion
    some (record {
      output_text = or_value text response;
      prompt_tokens = prompt;
      completion_tokens = completion;
      total_tokens = total;
    })

  abbrev IsSummed : ResponseMeta → Type 0
  IsSummed m = sum_if_known m.prompt_tokens m.completion_tokens ≡ some m.total_tokens

  summed :
      (text prompt completion : Json)
      → Ensures IsSummed (
          sum_if_known prompt completion >>= λ total. some (record {
            output_text = text;
            prompt_tokens = prompt;
            completion_tokens = completion;
            total_tokens = total;
          }))
  summed text prompt completion = elim (Option-cases (sum_if_known prompt completion)) [
    | inl e ↦ rw (e, ◌>>=◌) tt
    | inr (total, e) ↦ rw (e, ◌>>=◌) e
  ]

  anthropic-IsSummed : (content : Text) → Ensures IsSummed (parse_anthropic_response content)
  unfolding parse_anthropic_response
  anthropic-IsSummed content =
      let body = or_empty (safe_json py content) in
      >>=-Ensures IsSummed (get_attr (codes "content") body) _ λ found.
        >>=-Ensures IsSummed (blocks_of found) _ λ blocks.
          >>=-Ensures IsSummed (get_attr (codes "usage") body) _ λ usage.
            >>=-Ensures IsSummed (get_attr (codes "input_tokens") (or_empty usage)) _ λ prompt.
              >>=-Ensures IsSummed (get_attr (codes "output_tokens") (or_empty usage)) _
                λ completion. summed (text_or_none (join [] (text_blocks blocks))) prompt completion

  ollama-IsSummed : (content : Text) → Ensures IsSummed (parse_ollama_response content)
  unfolding parse_ollama_response
  ollama-IsSummed content =
      let body = or_empty (safe_json py content) in
      >>=-Ensures IsSummed (get_attr (codes "message") body) _ λ msg.
        >>=-Ensures IsSummed (get_attr (codes "content") (or_empty msg)) _ λ text.
          >>=-Ensures IsSummed (get_attr (codes "response") body) _ λ response.
            >>=-Ensures IsSummed (get_attr (codes "prompt_eval_count") body) _ λ prompt.
              >>=-Ensures IsSummed (get_attr (codes "eval_count") body) _
                λ completion. summed (or_value text response) prompt completion

  -- Of a response of Anthropic or Ollama that is parsed, the total is the sum of the two counts, and
  -- None if one of them is None.
  pub total_tokens-sum :
      (content : Text) (m : ResponseMeta)
      → (parse_anthropic_response content ≡ some m) ⊎ (parse_ollama_response content ≡ some m)
      → sum_if_known m.prompt_tokens m.completion_tokens ≡ some m.total_tokens
  total_tokens-sum content m (inl h) = rw h at (anthropic-IsSummed content)
  total_tokens-sum content m (inr h) = rw h at (ollama-IsSummed content)
