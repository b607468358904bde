-- ===== src/Sdk/Client/Mock.antt =====
-- sdk/inferlog/providers/mock.py: the offline provider.
use inferlog.Prelude.{
  ℕ, zero, suc, ◌+◌, ◌≡◌, refl, ◌∙◌, sym, Bool, Option, none, some, List, [], ◌∷◌, ◌++◌, reverse,
  find?, length, take, append_assoc, append-nil,
}
use inferlog.Prelude.Int.{pos}
use inferlog.Prelude.Json.{int}
use inferlog.Prelude.Text.{Text, codes, text_eq, strip, split, join}
use inferlog.Sdk.Client.{ChatMessage, Usage, StreamChunk, returned, Piece, chunk, finish, Provider}

-- `max(len(text.split()), 1)`
unfoldable pub word_count : Text → ℕ
unfolding split
word_count text = elim (length (split text)) [ zero ↦ 1 | suc n ↦ suc n ]

abbrev pub is_user : ChatMessage → Bool
is_user m = text_eq m.role (codes "user")

-- The content of the last message of the user, or the empty text.
unfoldable pub last_user_content : List ChatMessage → Text
last_user_content messages = elim (find? is_user (reverse messages)) [
  | none ↦ []
  | some m ↦ m.content
]

unfoldable pub canned_reply : Text → Text
unfolding strip
canned_reply content =
    codes "You said: \""
    ++ (take 160 (strip content)
        ++ codes
            "\". I'm the offline mock model, so this reply is canned — but the logging pipeline around it is the real thing.")

-- `MockProvider._reply_for`
unfoldable pub reply_for : Option Text → List ChatMessage → Text
unfolding last_user_content canned_reply
reply_for (some reply) messages = reply
reply_for none messages = canned_reply (last_user_content messages)

unfoldable pub prompt_words : List ChatMessage → ℕ
unfolding word_count
prompt_words [] = 0
prompt_words (m ∷ messages) = word_count m.content + prompt_words messages

-- `MockProvider._usage`
unfoldable pub mock_usage : List ChatMessage → Text → Usage
unfolding prompt_words word_count
mock_usage messages reply = record {
  prompt_tokens = int (pos (prompt_words messages));
  completion_tokens = int (pos (word_count reply));
  total_tokens = int (pos (prompt_words messages + word_count reply));
}

-- One chunk for each word, with a space after all but the last.
unfoldable pub word_chunks : List Text → List StreamChunk
word_chunks [] = []
word_chunks (w ∷ []) = record { text = w; usage = none } ∷ []
word_chunks (w ∷ v ∷ words) =
    record { text = w ++ codes " "; usage = none } ∷ word_chunks (v ∷ words)

-- `MockProvider.stream`
unfoldable pub mock_chunks : Option Text → List ChatMessage → List StreamChunk
unfolding reply_for mock_usage word_chunks split
mock_chunks reply messages =
    word_chunks (split (reply_for reply messages))
    ++ (record { text = []; usage = some (mock_usage messages (reply_for reply messages)) } ∷ [])

-- The chunks as the consumer meets them, one delay apart: the last one follows the last word at once.
unfoldable pub mock_pieces : ℕ → ℕ → List StreamChunk → List Piece
mock_pieces delay now [] = finish ∷ []
mock_pieces delay now (c ∷ []) = chunk c now ∷ finish ∷ []
mock_pieces delay now (c ∷ d ∷ rest) =
    let time = now + delay in chunk c time ∷ mock_pieces delay time (d ∷ rest)

-- `MockProvider(reply, token_delay)`, the delay in milliseconds.
unfoldable pub mock_provider : Option Text → ℕ → Provider
unfolding mock_chunks mock_pieces reply_for mock_usage
mock_provider reply delay = record {
  complete = λ flag model messages. returned (record {
    text = reply_for reply messages;
    usage = mock_usage messages (reply_for reply messages);
  });
  stream = λ flag model messages. mock_pieces delay 0 (mock_chunks reply messages);
}

unfoldable pub chunk_texts : List StreamChunk → Text
chunk_texts [] = []
chunk_texts (c ∷ chunks) = c.text ++ chunk_texts chunks

chunk_texts-append :
    (xs ys : List StreamChunk) → chunk_texts (xs ++ ys) ≡ chunk_texts xs ++ chunk_texts ys
unfolding chunk_texts
chunk_texts-append [] ys = refl
chunk_texts-append (c ∷ xs) ys =
    rw (chunk_texts-append xs ys) (sym (append_assoc c.text (chunk_texts xs) (chunk_texts ys)))

chunk_texts-word_chunks :
    (words : List Text) → chunk_texts (word_chunks words) ≡ join (codes " ") words
unfolding chunk_texts word_chunks join
chunk_texts-word_chunks [] = refl
chunk_texts-word_chunks (w ∷ []) = append-nil w
chunk_texts-word_chunks (w ∷ v ∷ words) =
    rw (chunk_texts-word_chunks (v ∷ words))
      (append_assoc w (codes " ") (join (codes " ") (v ∷ words)))

-- The texts of a streamed reply, joined, are the words of the reply that `complete` gives for the
-- same messages, with one space between two of them.
pub chunk_texts-mock_chunks :
    (reply : Option Text) (messages : List ChatMessage)
    → chunk_texts (mock_chunks reply messages) ≡ join (codes " ") (split (reply_for reply messages))
unfolding mock_chunks chunk_texts
chunk_texts-mock_chunks reply messages =
    let words = split (reply_for reply messages) in
    chunk_texts-append (word_chunks words) (record { text = []; usage = _ } ∷ [])
    ∙ append-nil (chunk_texts (word_chunks words))
    ∙ chunk_texts-word_chunks words
