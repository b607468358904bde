-- ===== src/Sdk/Parsers/Tests.antt =====
-- The theorems on the parsers, applied to concrete bodies and requests.
use inferlog.Prelude.{◌≡◌, refl, false, [], ◌∷◌, ◌++◌}
use inferlog.Prelude.Json.{null}
use inferlog.Prelude.Text.{Text, codes}
use inferlog.Samples.{python}
use inferlog.Sdk.Parsers.Streams.Lines.{Format}
use inferlog.Sdk.Parsers.Streams.Feed.{StreamParser, new_parser, split_line, feed}
use inferlog.Sdk.Parsers.Streams.Chunks.{feed-append}

-- A line, and a line that the chunk cuts.
abbrev first_chunk : Text
first_chunk = 97 ∷ 10 ∷ 98 ∷ []

abbrev second_chunk : Text
second_chunk = 98 ∷ 10 ∷ []

abbrev after_first : StreamParser
after_first = record {
  observed = record {
    output_text = codes "hi";
    prompt_tokens = null;
    completion_tokens = null;
    total_tokens = null;
    completed = false;
  };
  buffer = 98 ∷ [];
}

feed-append_example :
    feed python Format.ollama second_chunk after_first
    ≡ feed python Format.ollama (first_chunk ++ second_chunk) new_parser
unfolding feed split_line
feed-append_example =
    feed-append python Format.ollama first_chunk second_chunk new_parser after_first refl
