-- ===== src/Examples/Embedded.antt =====
-- examples/in_process_provider.py: a host's own model as a provider of the explicit client.
use inferlog.Prelude.{ℕ, ◌+◌, ◌≡◌, ◌↔◌, none, some, List, [], ◌∷◌, ◌++◌, length, arith}
use inferlog.Prelude.Int.{pos}
use inferlog.Prelude.Json.{int}
use inferlog.Prelude.Text.{Text, codes, split}
use inferlog.Sdk.Client.{ChatMessage, Usage, returned, Piece, chunk, finish, Provider}
use inferlog.Sdk.Client.Mock.{last_user_content}

unfoldable pub reply_to : Text → Text → Text
reply_to model last = codes "(" ++ (model ++ (codes ") reply to: " ++ last))

abbrev pub words : Text → ℕ
words text = length (split text)

-- The usage that `complete` returns, and the one in the last chunk of `stream`.
unfoldable pub complete_usage : Text → List ChatMessage → Usage
unfolding last_user_content reply_to split
complete_usage model messages =
    let last = last_user_content messages in
    record {
      prompt_tokens = int (pos (words last));
      completion_tokens = int (pos (words (reply_to model last)));
      total_tokens = int (pos (words last + words (reply_to model last)));
    }

unfoldable pub stream_usage : List ChatMessage → Usage
unfolding last_user_content split
stream_usage messages =
    let last = last_user_content messages in
    record {
      prompt_tokens = int (pos (words last));
      completion_tokens = int (pos 4);
      total_tokens = int (pos (4 + words last));
    }

unfoldable pub word_pieces : List Text → List Piece → List Piece
word_pieces [] end = end
word_pieces (w ∷ ws) end =
    chunk (record { text = w ++ codes " "; usage = none }) 0 ∷ word_pieces ws end

-- `MyEmbeddedModel`, which takes no time.
unfoldable pub embedded_model : Provider
unfolding complete_usage stream_usage word_pieces reply_to split last_user_content
embedded_model = record {
  complete = λ flag model messages. returned (record {
    text = reply_to model (last_user_content messages);
    usage = complete_usage model messages;
  });
  stream = λ flag model messages.
      word_pieces (split (reply_to model (last_user_content messages)))
        (chunk (record { text = []; usage = some (stream_usage messages) }) 0 ∷ finish ∷ []);
}

-- The two ways to call the model report the same usage exactly if the reply has four words.
pub stream_usage-complete_usage :
    (model : Text) (messages : List ChatMessage)
    → (stream_usage messages ≡ complete_usage model messages)
      ↔ (words (reply_to model (last_user_content messages)) ≡ 4)
unfolding stream_usage complete_usage
stream_usage-complete_usage model messages = ground arith
