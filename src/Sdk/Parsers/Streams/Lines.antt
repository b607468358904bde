-- ===== src/Sdk/Parsers/Streams/Lines.antt =====
-- What each stream parser does with one line of the body.
use inferlog.Prelude.{
  Bool, true, false, ◌||◌, Option, none, some, List, [], ◌∷◌, ◌++◌, if◌then◌else◌, drop,
}
use inferlog.Prelude.Json.{Json, null, str, arr, Items, truthy, is_none}
use inferlog.Prelude.Python.{Python}
use inferlog.Prelude.Text.{Text, codes, text_eq, strip_bytes, starts_with}
use inferlog.Sdk.Parsers.Values.{
  to_list, get_attr, get_attr_or, or_value, or_empty, is_text, add, safe_json, to_str,
}

-- The fields of a `StreamParser` but the buffer. None is `null`.
pub record Observed : Type 0 where
  pub output_text : Text
  pub prompt_tokens : Json
  pub completion_tokens : Json
  pub total_tokens : Json
  pub completed : Bool

abbrev pub nothing_observed : Observed
nothing_observed = record {
  output_text = [];
  prompt_tokens = null;
  completion_tokens = null;
  total_tokens = null;
  completed = false;
}

-- The state after a line, and whether an exception cut its handling short.
pub data Fed : Type 0 where
  fed : Observed → Fed
  raised : Observed → Fed

abbrev pub state : Fed → Observed
state (fed o) = o
state (raised o) = o

-- Go on with a value, or raise.
abbrev pub with_value {ℓ} : {A : Type ℓ} → Option A → (A → Observed → Fed) → Observed → Fed
with_value none k o = raised o
with_value (some a) k o = k a o

-- `continue` on a line with nothing to read.
abbrev pub with_line : Option Text → (Text → Observed → Fed) → Observed → Fed
with_line none k o = fed o
with_line (some text) k o = k text o

infixl 5 ◌andthen◌
abbrev pub ◌andthen◌ : Fed → (Observed → Fed) → Fed
fed o andthen k = k o
raised o andthen k = raised o

-- `self.output_text += content`: only a string can be added to it.
unfoldable pub add_output : Json → Observed → Fed
add_output (str t) o = fed (record o { output_text = o.output_text ++ t })
add_output _ o = raised o

-- `for x in v or []`, for what is iterated with `x.get(...)` at once: of other values than a list
-- the iteration or the first `get` raises.
abbrev pub items_or_empty : Json → Option (List Json)
items_or_empty (arr items) = some (to_list items)
items_or_empty v = if truthy v then none else some []

unfoldable pub openai_choice : Json → Observed → Fed
unfolding add_output get_attr or_value
openai_choice choice = with_value (get_attr (codes "delta") choice) λ delta.
    with_value (get_attr (codes "content") (or_empty delta))
      λ content o. if truthy content then add_output content o else fed o

unfoldable pub openai_choices : List Json → Observed → Fed
unfolding openai_choice
openai_choices [] o = fed o
openai_choices (choice ∷ choices) o = openai_choice choice o andthen openai_choices choices

unfoldable pub openai_usage : Json → Observed → Fed
unfolding get_attr
openai_usage usage o =
    if truthy usage
    then with_value (get_attr (codes "prompt_tokens") usage)
        (λ prompt. with_value (get_attr (codes "completion_tokens") usage) λ completion.
          with_value (get_attr (codes "total_tokens") usage) λ total o'. fed (record o' {
            prompt_tokens = prompt;
            completion_tokens = completion;
            total_tokens = total;
          }))
        o
    else fed o

-- `for choice in obj.get("choices", []) or []`
unfoldable pub openai_output : Json → Observed → Fed
unfolding openai_choices get_attr_or
openai_output v =
    with_value (get_attr_or (codes "choices") v (arr Items.nil))
      λ choices. with_value (items_or_empty choices) openai_choices

unfoldable pub openai_tokens : Json → Observed → Fed
unfolding openai_usage get_attr
openai_tokens v = with_value (get_attr (codes "usage") v) openai_usage

-- What follows `if obj is None: continue`.
unfoldable pub openai_object : Json → Observed → Fed
unfolding openai_output openai_tokens
openai_object v o = openai_output v o andthen openai_tokens v

-- `if obj is None: continue`
abbrev pub unless_none : (Json → Observed → Fed) → Json → Observed → Fed
unless_none handle v o = if is_none v then fed o else handle v o

-- `line.startswith(b"data:")` and `line[5:].strip()`
unfoldable pub sse_data : Text → Option Text
unfolding strip_bytes starts_with
sse_data line =
    let stripped = strip_bytes line in
    if starts_with (codes "data:") stripped then some (strip_bytes (drop 5 stripped)) else none

-- `if not line: continue`
abbrev pub nonempty : Text → Option Text
nonempty [] = none
nonempty (c ∷ text) = some (c ∷ text)

module _ (py : Python) where
  unfoldable pub openai_line : Text → Observed → Fed
  unfolding sse_data openai_object safe_json text_eq
  openai_line line = with_line (sse_data line) λ text o.
      if text_eq text (codes "[DONE]")
      then fed (record o { completed = true })
      else unless_none openai_object (safe_json py text) o

  unfoldable pub message_start : Json → Observed → Fed
  unfolding get_attr or_value
  message_start v = with_value (get_attr (codes "message") v) λ msg.
      with_value (get_attr (codes "usage") (or_empty msg)) λ usage.
        with_value (get_attr (codes "input_tokens") (or_empty usage))
          λ n o. if is_none n then fed o else fed (record o { prompt_tokens = n })

  unfoldable pub content_block_delta : Json → Observed → Fed
  unfolding get_attr get_attr_or or_value to_str
  content_block_delta v = with_value (get_attr (codes "delta") v) λ delta.
      with_value (get_attr (codes "type") (or_empty delta)) λ type.
        with_value (get_attr_or (codes "text") (or_empty delta) (str [])) λ text o.
          if is_text (codes "text_delta") type
          then fed (record o { output_text = o.output_text ++ to_str py text })
          else fed o

  -- `self.total_tokens = self.prompt_tokens + self.completion_tokens`
  unfoldable pub set_total : Observed → Fed
  unfolding add
  set_total o =
      with_value (add py o.prompt_tokens o.completion_tokens)
        (λ total o'. fed (record o' { total_tokens = total })) o

  unfoldable pub message_delta : Json → Observed → Fed
  unfolding get_attr or_value set_total
  message_delta v = with_value (get_attr (codes "usage") v) λ usage.
      with_value (get_attr (codes "output_tokens") (or_empty usage)) λ n o.
        let o' = record o { completion_tokens = n } in
        if is_none n then fed o else if is_none o.prompt_tokens then fed o' else set_total o'

  -- The branches on the `type` of an object.
  unfoldable pub anthropic_event : Json → Json → Observed → Fed
  unfolding message_start content_block_delta message_delta
  anthropic_event v etype o =
      if is_text (codes "message_start") etype
      then message_start v o
      else if is_text (codes "content_block_delta") etype
      then content_block_delta v o
      else if is_text (codes "message_delta") etype
      then message_delta v o
      else if is_text (codes "message_stop") etype
      then fed (record o { completed = true })
      else fed o

  unfoldable pub anthropic_object : Json → Observed → Fed
  unfolding anthropic_event get_attr
  anthropic_object v = with_value (get_attr (codes "type") v) (anthropic_event v)

  unfoldable pub anthropic_line : Text → Observed → Fed
  unfolding sse_data anthropic_object safe_json
  anthropic_line line =
      with_line (sse_data line) λ text. unless_none anthropic_object (safe_json py text)

  -- The part of `_OllamaStreamParser.feed` under `if obj.get("done")`.
  unfoldable pub store_counts : Json → Json → Observed → Observed
  store_counts prompt completion o =
      let o₁ = record o { completed = true } in
      let o₂ = if is_none prompt then o₁ else record o₁ { prompt_tokens = prompt } in
      if is_none completion then o₂ else record o₂ { completion_tokens = completion }

  unfoldable pub total_if_known : Observed → Fed
  unfolding set_total
  total_if_known o =
      if is_none o.prompt_tokens || is_none o.completion_tokens then fed o else set_total o

  unfoldable pub ollama_done : Json → Json → Observed → Fed
  unfolding store_counts total_if_known
  ollama_done prompt completion o = total_if_known (store_counts prompt completion o)

  unfoldable pub ollama_output : Json → Observed → Fed
  unfolding get_attr get_attr_or or_value to_str
  ollama_output v = with_value (get_attr (codes "message") v) λ msg.
      with_value (get_attr (codes "content") (or_empty msg)) λ content.
        with_value (get_attr_or (codes "response") v (str [])) λ response o.
          let text = or_value content response in
          if truthy text
          then fed (record o { output_text = o.output_text ++ to_str py text })
          else fed o

  unfoldable pub ollama_end : Json → Observed → Fed
  unfolding ollama_done get_attr
  ollama_end v = with_value (get_attr (codes "done") v) λ finished.
      with_value (get_attr (codes "prompt_eval_count") v) λ prompt.
        with_value (get_attr (codes "eval_count") v)
          λ completion o. if truthy finished then ollama_done prompt completion o else fed o

  unfoldable pub ollama_object : Json → Observed → Fed
  unfolding ollama_output ollama_end
  ollama_object v o = ollama_output v o andthen ollama_end v

  unfoldable pub ollama_line : Text → Observed → Fed
  unfolding ollama_object safe_json strip_bytes
  ollama_line line =
      with_line (nonempty (strip_bytes line)) λ text. unless_none ollama_object (safe_json py text)

-- The class of a stream parser; the OpenAI-compatible handler makes the OpenAI one.
pub data Format : Type 0 where
  openai anthropic ollama : Format

unfoldable pub handle_line : Python → Format → Text → Observed → Fed
unfolding openai_line anthropic_line ollama_line
handle_line py openai = openai_line py
handle_line py anthropic = anthropic_line py
handle_line py ollama = ollama_line py
