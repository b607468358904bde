-- ===== src/Gateway/Llm.antt =====
-- gateway/app/llm.py: the catalog, the choice of the providers and of the models, and the chunks that
-- each provider makes of what its client sends.
use inferlog.Prelude.{
  ℕ, ◌+◌, ◌≡◌, refl, Bool, true, false, not, ◌&&◌, ◌||◌, Option, none, some, List, [], ◌∷◌, ◌++◌,
  find?, filter, if◌then◌else◌, is_empty, is_some, arith, Bool-cases,
}
use inferlog.Prelude.Text.{Text, codes, text_eq}
use inferlog.Prelude.Int.{pos}
use inferlog.Prelude.Json.{Json}
use inferlog.Sdk.Client
use inferlog.Gateway.Store.{Role}

pub record ModelOption : Type 0 where
  pub provider : Text
  pub model : Text
  pub label : Text

abbrev pub openai : Text
openai = codes "openai"

abbrev pub anthropic : Text
anthropic = codes "anthropic"

abbrev pub mock : Text
mock = codes "mock"

abbrev pub model_option : Text → Text → Text → ModelOption
model_option provider model label = record { provider = provider; model = model; label = label }

unfoldable pub catalog : List ModelOption
catalog =
    model_option openai (codes "gpt-4o-mini") (codes "GPT-4o mini")
    ∷ model_option openai (codes "gpt-4.1-mini") (codes "GPT-4.1 mini")
    ∷ model_option openai (codes "gpt-4.1") (codes "GPT-4.1")
    ∷ model_option anthropic (codes "claude-sonnet-4-5") (codes "Claude Sonnet 4.5")
    ∷ model_option mock (codes "mock-1") (codes "Mock model (offline)")
    ∷ []

pub record ChatMessage : Type 0 where
  pub role : Role
  pub content : Text

pub record Usage : Type 0 where
  pub prompt_tokens : Option ℕ
  pub completion_tokens : Option ℕ
  pub total_tokens : Option ℕ

pub record StreamChunk : Type 0 where
  pub text : Text
  pub usage : Option Usage

-- What the client of OpenAI yields: the contents of its choices, and the usage.
pub record OpenaiChunk : Type 0 where
  pub choices : List (Option Text)
  pub usage : Option Usage

-- `chunk.choices[0].delta.content or ""`, with `""` where there is no choice.
unfoldable pub openai_text : OpenaiChunk → Text
openai_text chunk = elim chunk.choices [ [] ↦ [] | none ∷ rest ↦ [] | some text ∷ rest ↦ text ]

-- `OpenAIChatProvider.stream`
unfoldable pub openai_stream : List OpenaiChunk → List StreamChunk
unfolding openai_text
openai_stream [] = []
openai_stream (chunk ∷ rest) =
    let later = openai_stream rest in
    if not (is_empty (openai_text chunk)) || is_some chunk.usage
    then record { text = openai_text chunk; usage = chunk.usage } ∷ later
    else later

-- The events of Anthropic's stream that the provider looks at.
pub data AnthropicEvent : Type 0 where
  message_start : ℕ → AnthropicEvent
  text_delta : Text → AnthropicEvent
  message_delta : ℕ → AnthropicEvent
  other_event : AnthropicEvent

abbrev pub summed : ℕ → ℕ → Usage
summed prompt completion = record {
  prompt_tokens = some prompt;
  completion_tokens = some completion;
  total_tokens = some (prompt + completion);
}

-- The loop of `AnthropicChatProvider.stream`, with its `prompt_tokens`.
unfoldable pub anthropic_loop : ℕ → List AnthropicEvent → List StreamChunk
anthropic_loop prompt [] = []
anthropic_loop prompt (message_start tokens ∷ rest) = anthropic_loop tokens rest
anthropic_loop prompt (text_delta text ∷ rest) =
    record { text = text; usage = none } ∷ anthropic_loop prompt rest
anthropic_loop prompt (message_delta tokens ∷ rest) =
    record { text = []; usage = some (summed prompt tokens) } ∷ anthropic_loop prompt rest
anthropic_loop prompt (other_event ∷ rest) = anthropic_loop prompt rest

unfoldable pub anthropic_stream : List AnthropicEvent → List StreamChunk
unfolding anthropic_loop
anthropic_stream events = anthropic_loop 0 events

abbrev pub is_system : ChatMessage → Bool
is_system m = elim m.role [ Role.system ↦ true | _ ↦ false ]

-- The request to Anthropic: its `system` text, and its turns.
unfoldable pub anthropic_request : List ChatMessage → Text × List ChatMessage
anthropic_request messages = (
  elim (find? is_system messages) [ none ↦ [] | some m ↦ m.content ],
  filter (λ m. not (is_system m)) messages,
)

-- A count of the SDK's usage, and `None` for what is no count.
unfoldable pub as_count : Json → Option ℕ
as_count (Json.int (pos n)) = some n
as_count _ = none

unfoldable pub adapt_usage : Client.Usage → Usage
unfolding as_count
adapt_usage u = record {
  prompt_tokens = as_count u.prompt_tokens;
  completion_tokens = as_count u.completion_tokens;
  total_tokens = as_count u.total_tokens;
}

abbrev pub adapt_chunk : Client.StreamChunk → StreamChunk
adapt_chunk c = record {
  text = c.text;
  usage = elim c.usage [ none ↦ none | some u ↦ some (adapt_usage u) ];
}

-- `MockChatProvider.stream`
unfoldable pub mock_stream : List Client.StreamChunk → List StreamChunk
mock_stream [] = []
mock_stream (c ∷ rest) = adapt_chunk c ∷ mock_stream rest

-- `Settings` of gateway/app/config.py, where the program reads them.
pub record Settings : Type 0 where
  pub openai_api_key : Text
  pub anthropic_api_key : Text
  pub context_window : ℕ
  pub default_system_prompt : Text

-- The names that `LLMRuntime.build` registers.
unfoldable pub build : Settings → List Text
build settings =
    (mock ∷ [])
    ++ ((if is_empty settings.openai_api_key then [] else openai ∷ [])
        ++ (if is_empty settings.anthropic_api_key then [] else anthropic ∷ []))

-- `name in self._providers`
unfoldable pub registered : Text → List Text → Bool
registered name [] = false
registered name (p ∷ providers) = text_eq p name || registered name providers

unfoldable pub available_models : List Text → List ModelOption
unfolding registered
available_models providers = filter (λ m. registered m.provider providers) catalog

unfoldable pub resolve : Text → List Text → Option ModelOption
unfolding available_models
resolve model_id providers = find? (λ m. text_eq m.model model_id) (available_models providers)

-- `models[-1]`; `none` is the IndexError of an empty list.
unfoldable pub last_model : List ModelOption → Option ModelOption
last_model [] = none
last_model (m ∷ []) = some m
last_model (m ∷ n ∷ rest) = last_model (n ∷ rest)

unfoldable pub default_model : List Text → Option ModelOption
unfolding available_models last_model
default_model providers =
    let models = available_models providers in
    elim (find? (λ m. not (text_eq m.provider mock)) models) [
      | some m ↦ some m
      | none ↦ last_model models
    ]

-- Whether `LLMRuntime.stream` finds the provider; otherwise it raises a ValueError.
unfoldable pub dispatches : Text → List Text → Bool
unfolding registered
dispatches provider providers = registered provider providers

find?-filter {ℓ} :
    {A : Type ℓ} (p q : A → Bool) (xs : List A) (x : A)
    → find? q (filter p xs) ≡ some x
    → (p x ≡ true) × (q x ≡ true)
unfolding find? filter
find?-filter p q [] x h = ground arith
find?-filter p q (y ∷ ys) x h =
    ground (arith, find?-filter p q ys x, Bool-cases (p y), Bool-cases (q y))

-- A model that `resolve` returns is the one asked for, and its provider is registered.
pub resolve-dispatches :
    (model_id : Text) (providers : List Text) (m : ModelOption)
    → resolve model_id providers ≡ some m
    → (dispatches m.provider providers ≡ true) × (text_eq m.model model_id ≡ true)
unfolding resolve available_models dispatches
resolve-dispatches model_id providers m h = find?-filter _ _ catalog m h

-- The default model is there, resolves to itself, and is a mock exactly in the given case.
abbrev pub IsDefault : Settings → Bool → ModelOption → Type 0
IsDefault settings keyless m =
    (default_model (build settings) ≡ some m)
    × (resolve m.model (build settings) ≡ some m)
    × (text_eq m.provider mock ≡ keyless)

unfoldable with_keys : Text → Text → ℕ → Text → Settings
with_keys openai_key anthropic_key window prompt = record {
  openai_api_key = openai_key;
  anthropic_api_key = anthropic_key;
  context_window = window;
  default_system_prompt = prompt;
}

IsDefault-by_keys :
    (openai_key anthropic_key : Text) (window : ℕ) (prompt : Text)
    → (m : ModelOption) × IsDefault
        (with_keys openai_key anthropic_key window prompt)
        (is_empty openai_key && is_empty anthropic_key)
        m
unfolding with_keys default_model resolve available_models build catalog registered last_model find?
    filter text_eq
IsDefault-by_keys [] [] w p =
    (model_option mock (codes "mock-1") (codes "Mock model (offline)"), (refl, refl, refl))
IsDefault-by_keys [] (c ∷ key) w p = (
  model_option anthropic (codes "claude-sonnet-4-5") (codes "Claude Sonnet 4.5"),
  (refl, refl, refl),
)
IsDefault-by_keys (c ∷ key) [] w p =
    (model_option openai (codes "gpt-4o-mini") (codes "GPT-4o mini"), (refl, refl, refl))
IsDefault-by_keys (c ∷ key) (d ∷ other) w p =
    (model_option openai (codes "gpt-4o-mini") (codes "GPT-4o mini"), (refl, refl, refl))

-- Whatever keys are set, there is a default model, its identifier resolves to it, and it is a mock
-- exactly if neither key is set.
pub build-IsDefault :
    (settings : Settings)
    → (m : ModelOption) × IsDefault settings
        (is_empty settings.openai_api_key && is_empty settings.anthropic_api_key)
        m
unfolding with_keys
build-IsDefault settings =
    IsDefault-by_keys settings.openai_api_key settings.anthropic_api_key settings.context_window
      settings.default_system_prompt
