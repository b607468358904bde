-- ===== src/Sdk/Parsers/Streams/GrowthLines.antt =====
-- The lines of the three stream formats.
use inferlog.Prelude.{
  refl, sym, true, ◌||◌, inl, inr, List, [], ◌∷◌, ◌++◌, arith, append-nil, Bool-cases,
  if◌then◌else◌,
}
use inferlog.Prelude.Json.{Json, str, arr, Items, truthy, is_none}
use inferlog.Prelude.Python.{Python}
use inferlog.Prelude.Text.{Text, codes, text_eq, strip_bytes}
use inferlog.Sdk.Parsers.Values.{
  get_attr, get_attr_or, or_value, or_empty, is_text, add, safe_json, to_str,
}
use inferlog.Sdk.Parsers.Streams.Lines.{
  Observed, fed, with_value, add_output, openai_choice, openai_choices, openai_usage, openai_object,
  openai_line, sse_data, message_start, content_block_delta, set_total, message_delta,
  anthropic_object, anthropic_line, ollama_done, ollama_object, ollama_line, Format, openai,
  anthropic, ollama, handle_line, items_or_empty, openai_output, openai_tokens, unless_none,
  anthropic_event, ollama_output, ollama_end, nonempty, store_counts, total_if_known,
}
use inferlog.Sdk.Parsers.Streams.GrowthRules.{
  Grows, Grows-refl, Grows-trans, Growing, with_value-Growing, andthen-Grows, if-Growing,
  add_output-Growing, same-Grows, unless_none-Growing, complete-Grows, with_line-Growing,
}

openai_choice-Growing : (choice : Json) → Growing (openai_choice choice)
unfolding openai_choice
openai_choice-Growing choice = with_value-Growing (get_attr (codes "delta") choice) _ λ delta.
    with_value-Growing (get_attr (codes "content") (or_empty delta)) _ λ content.
      if-Growing (truthy content) (add_output content) fed (add_output-Growing content) Grows-refl

openai_choices-Growing : (choices : List Json) → Growing (openai_choices choices)
unfolding openai_choices
openai_choices-Growing [] o = Grows-refl o
openai_choices-Growing (choice ∷ choices) o =
    andthen-Grows o (openai_choice choice o) (openai_choices choices)
      (openai_choice-Growing choice o) (openai_choices-Growing choices)

openai_usage-Growing : (usage : Json) → Growing (openai_usage usage)
unfolding openai_usage
openai_usage-Growing usage o = elim (Bool-cases (truthy usage)) [
  | inl t ↦ rw t (
      with_value-Growing (get_attr (codes "prompt_tokens") usage) _
        (λ prompt. with_value-Growing (get_attr (codes "completion_tokens") usage) _ λ completion.
          with_value-Growing (get_attr (codes "total_tokens") usage) _ λ total o'. record {
            added = [];
            output = sym (append-nil o'.output_text);
            completed = λ h. h;
          })
        o)
  | inr t ↦ rw t (Grows-refl o)
]

items-Growing : (v : Json) → Growing (with_value (items_or_empty v) openai_choices)
items-Growing v = with_value-Growing (items_or_empty v) openai_choices openai_choices-Growing

openai_output-Growing : (v : Json) → Growing (openai_output v)
unfolding openai_output
openai_output-Growing v =
    with_value-Growing (get_attr_or (codes "choices") v (arr Items.nil)) _ items-Growing

openai_tokens-Growing : (v : Json) → Growing (openai_tokens v)
unfolding openai_tokens
openai_tokens-Growing v =
    with_value-Growing (get_attr (codes "usage") v) openai_usage openai_usage-Growing

openai_object-Growing : (v : Json) → Growing (openai_object v)
unfolding openai_object
openai_object-Growing v o =
    andthen-Grows o (openai_output v o) (openai_tokens v) (openai_output-Growing v o)
      (openai_tokens-Growing v)

module _ (py : Python) where
  openai_line-Growing : (line : Text) → Growing (openai_line py line)
  unfolding openai_line
  openai_line-Growing line = with_line-Growing (sse_data line) _ λ text.
      if-Growing (text_eq text (codes "[DONE]")) (λ o. fed (record o { completed = true }))
        (unless_none openai_object (safe_json py text)) complete-Grows
        (unless_none-Growing openai_object openai_object-Growing (safe_json py text))

  message_start-Growing : (v : Json) → Growing (message_start py v)
  unfolding message_start
  message_start-Growing v = with_value-Growing (get_attr (codes "message") v) _ λ msg.
      with_value-Growing (get_attr (codes "usage") (or_empty msg)) _ λ usage.
        with_value-Growing (get_attr (codes "input_tokens") (or_empty usage)) _ λ n o.
          if-Growing (is_none n) fed (λ o. fed (record o { prompt_tokens = n })) Grows-refl
            (λ o. same-Grows o _ refl (λ h. h)) o

  content_block_delta-Growing : (v : Json) → Growing (content_block_delta py v)
  unfolding content_block_delta
  content_block_delta-Growing v = with_value-Growing (get_attr (codes "delta") v) _ λ delta.
      with_value-Growing (get_attr (codes "type") (or_empty delta)) _ λ type.
        with_value-Growing (get_attr_or (codes "text") (or_empty delta) (str [])) _ λ text.
          if-Growing (is_text (codes "text_delta") type)
            (λ o. fed (record o { output_text = o.output_text ++ to_str py text })) fed
            (λ o. record { added = to_str py text; output = refl; completed = λ h. h }) Grows-refl

  set_total-Growing : Growing (set_total py)
  unfolding set_total
  set_total-Growing o =
      with_value-Growing (add py o.prompt_tokens o.completion_tokens) _
        (λ total o'. same-Grows o' _ refl (λ h. h)) o

  message_delta-Growing : (v : Json) → Growing (message_delta py v)
  unfolding message_delta
  message_delta-Growing v = with_value-Growing (get_attr (codes "usage") v) _ λ usage.
      with_value-Growing (get_attr (codes "output_tokens") (or_empty usage)) _ λ n o.
        let o' = record o { completion_tokens = n } in
        let step : Grows o o' = same-Grows o o' refl (λ h. h) in
        if-Growing (is_none n) fed
          (λ o.
            if is_none o.prompt_tokens
            then fed (record o { completion_tokens = n })
            else set_total py (record o { completion_tokens = n }))
          Grows-refl
          (λ o.
            if-Growing (is_none o.prompt_tokens) (λ o. fed (record o { completion_tokens = n }))
              (λ o. set_total py (record o { completion_tokens = n }))
              (λ o. same-Grows o _ refl (λ h. h))
              (λ o.
                Grows-trans (same-Grows o (record o { completion_tokens = n }) refl (λ h. h))
                  (set_total-Growing (record o { completion_tokens = n })))
              o)
          o

  anthropic_event-Growing : (v etype : Json) → Growing (anthropic_event py v etype)
  unfolding anthropic_event
  anthropic_event-Growing v etype =
      if-Growing (is_text (codes "message_start") etype) (message_start py v) _
        (message_start-Growing v)
        (if-Growing (is_text (codes "content_block_delta") etype) (content_block_delta py v) _
          (content_block_delta-Growing v)
          (if-Growing (is_text (codes "message_delta") etype) (message_delta py v) _
            (message_delta-Growing v)
            (if-Growing (is_text (codes "message_stop") etype)
              (λ o. fed (record o { completed = true })) fed complete-Grows Grows-refl)))

  anthropic_object-Growing : (v : Json) → Growing (anthropic_object py v)
  unfolding anthropic_object
  anthropic_object-Growing v =
      with_value-Growing (get_attr (codes "type") v) (anthropic_event py v)
        (anthropic_event-Growing v)

  anthropic_line-Growing : (line : Text) → Growing (anthropic_line py line)
  unfolding anthropic_line
  anthropic_line-Growing line =
      with_line-Growing (sse_data line) _ λ text.
        unless_none-Growing (anthropic_object py) anthropic_object-Growing (safe_json py text)

  store_counts-Grows :
      (prompt completion : Json) (o : Observed) → Grows o (store_counts py prompt completion o)
  unfolding store_counts
  store_counts-Grows prompt completion o = same-Grows o _ (ground arith) (ground arith)

  total_if_known-Growing : Growing (total_if_known py)
  unfolding total_if_known
  total_if_known-Growing o =
      if-Growing (is_none o.prompt_tokens || is_none o.completion_tokens) fed (set_total py)
        Grows-refl set_total-Growing o

  ollama_done-Growing : (prompt completion : Json) → Growing (ollama_done py prompt completion)
  unfolding ollama_done
  ollama_done-Growing prompt completion o =
      Grows-trans (store_counts-Grows prompt completion o)
        (total_if_known-Growing (store_counts py prompt completion o))

  ollama_output-Growing : (v : Json) → Growing (ollama_output py v)
  unfolding ollama_output
  ollama_output-Growing v = with_value-Growing (get_attr (codes "message") v) _ λ msg.
      with_value-Growing (get_attr (codes "content") (or_empty msg)) _ λ content.
        with_value-Growing (get_attr_or (codes "response") v (str [])) _ λ response.
          let text = or_value content response in
          if-Growing (truthy text)
            (λ o. fed (record o { output_text = o.output_text ++ to_str py text })) fed
            (λ o. record { added = to_str py text; output = refl; completed = λ h. h }) Grows-refl

  ollama_end-Growing : (v : Json) → Growing (ollama_end py v)
  unfolding ollama_end
  ollama_end-Growing v = with_value-Growing (get_attr (codes "done") v) _ λ finished.
      with_value-Growing (get_attr (codes "prompt_eval_count") v) _ λ prompt.
        with_value-Growing (get_attr (codes "eval_count") v) _ λ completion.
          if-Growing (truthy finished) (ollama_done py prompt completion) fed
            (ollama_done-Growing prompt completion) Grows-refl

  ollama_line-Growing : (line : Text) → Growing (ollama_line py line)
  unfolding ollama_line ollama_object
  ollama_line-Growing line = with_line-Growing (nonempty (strip_bytes line)) _ λ text.
      unless_none-Growing (ollama_object py)
        (λ v o.
          andthen-Grows o (ollama_output py v o) (ollama_end py v) (ollama_output-Growing v o)
            (ollama_end-Growing v))
        (safe_json py text)

  pub handle_line-Growing : (format : Format) (line : Text) → Growing (handle_line py format line)
  unfolding handle_line
  handle_line-Growing openai = openai_line-Growing
  handle_line-Growing anthropic = anthropic_line-Growing
  handle_line-Growing ollama = ollama_line-Growing
