-- ===== src/Sdk/Parsers/Requests.antt =====
-- The `matches` and `parse_request` methods of the built-in handlers.
use inferlog.Prelude.{Bool, true, false, not, ◌&&◌, ◌||◌, Option, none, some, if◌then◌else◌}
use inferlog.Prelude.Json.{Json, bool, str, truthy}
use inferlog.Prelude.Python.{Python}
use inferlog.Prelude.Text.{Text, codes, text_eq, contains, ends_with}
use inferlog.Sdk.Parsers.Values.{
  ◌>>=◌, get_attr, get_attr_or, or_empty, safe_json, to_str, last_user_text,
}

-- What a handler reads of an `httpx.Request`.
pub record Request : Type 0 where
  pub method : Text
  pub host : Text
  pub path : Text
  pub content : Text

pub record RequestMeta : Type 0 where
  pub model : Text
  pub streaming : Bool
  pub input_text : Option Text

abbrev pub is_post : Request → Bool
is_post r = text_eq r.method (codes "POST")

unfoldable pub openai_matches : Request → Bool
openai_matches r =
    if not (is_post r)
    then false
    else contains (codes "openai.com") r.host && ends_with (codes "/chat/completions") r.path

unfoldable pub anthropic_matches : Request → Bool
anthropic_matches r =
    if not (is_post r)
    then false
    else contains (codes "anthropic") r.host && ends_with (codes "/v1/messages") r.path

unfoldable pub ollama_matches : Request → Bool
ollama_matches r =
    if not (is_post r)
    then false
    else ends_with (codes "/api/chat") r.path || ends_with (codes "/api/generate") r.path

unfoldable pub compatible_matches : Request → Bool
compatible_matches r =
    if not (is_post r)
    then false
    else if contains (codes "openai.com") r.host || contains (codes "anthropic") r.host
    then false
    else ends_with (codes "/v1/chat/completions") r.path
      || ends_with (codes "/chat/completions") r.path

module _ (py : Python) where
  -- `OpenAIHandler.parse_request` and `AnthropicHandler.parse_request`, which are alike.
  unfoldable pub parse_chat_request : Request → Option RequestMeta
  unfolding get_attr get_attr_or safe_json to_str last_user_text
  parse_chat_request r = do
    let body = or_empty (safe_json py r.content)
    model ← get_attr_or (codes "model") body (str (codes "unknown"))
    stream ← get_attr (codes "stream") body
    messages ← get_attr (codes "messages") body
    some (record {
      model = to_str py model;
      streaming = truthy stream;
      input_text = last_user_text py messages;
    })

  -- `is not False`
  abbrev is_not_false : Json → Bool
  is_not_false (bool false) = false
  is_not_false v = true

  -- `input_text is None and isinstance(body.get("prompt"), str)`
  abbrev prompt_unless : Option Text → Json → Option Text
  prompt_unless (some text) prompt = some text
  prompt_unless none (str prompt) = some prompt
  prompt_unless none v = none

  unfoldable pub parse_ollama_request : Request → Option RequestMeta
  unfolding get_attr get_attr_or safe_json to_str last_user_text
  parse_ollama_request r = do
    let body = or_empty (safe_json py r.content)
    messages ← get_attr (codes "messages") body
    prompt ← get_attr (codes "prompt") body
    model ← get_attr_or (codes "model") body (str (codes "unknown"))
    stream ← get_attr_or (codes "stream") body (bool true)
    some (record {
      model = to_str py model;
      streaming = is_not_false stream;
      input_text = prompt_unless (last_user_text py messages) prompt;
    })
