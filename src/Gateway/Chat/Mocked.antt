-- ===== src/Gateway/Chat/Mocked.antt =====
-- The chat with the offline provider: sdk/inferlog/providers/mock.py, `MockChatProvider` of
-- gateway/app/llm.py, and the stream of gateway/app/chat.py, one after the other.
use inferlog.Prelude.{
  ℕ, ◌≡◌, refl, ap, ◌∙◌, sym, true, Option, none, List, [], ◌∷◌, ◌++◌, is_empty, Bool-cases, arith,
  inl, inr,
}
use inferlog.Prelude.Text.{Text, codes, split, join, join_nil-cons}
use inferlog.Sdk.Client
use inferlog.Sdk.Client.Mock.{mock_chunks, reply_for, chunk_texts, chunk_texts-mock_chunks}
use inferlog.Gateway.Llm.{Usage, dispatches, adapt_chunk, mock_stream}
use inferlog.Gateway.Store.{Database, TurnStatus}
use inferlog.Gateway.Chat.{Attempt, assistant_turn, ended, stream}
use inferlog.Gateway.Chat.Chunks.{texts_of, texts_of-blank, texts_of-token, last_usage}
use inferlog.Gateway.Chat.Completed.{IsReady, with_turn, stream-completed}

empty-append : (s t : Text) → is_empty s ≡ true → s ++ t ≡ t
empty-append [] t h = refl
empty-append (c ∷ s) t h = ground arith

-- What the adapter hands on has the texts of the provider's chunks.
join-texts_of-mock_stream :
    (chunks : List Client.StreamChunk)
    → join [] (texts_of (mock_stream chunks)) ≡ chunk_texts chunks
unfolding mock_stream chunk_texts texts_of join
join-texts_of-mock_stream [] = refl
join-texts_of-mock_stream (c ∷ rest) = elim (Bool-cases (is_empty c.text)) [
  | inl e ↦
      ap (join []) (texts_of-blank (adapt_chunk c) (mock_stream rest) e)
      ∙ join-texts_of-mock_stream rest
      ∙ sym (empty-append c.text (chunk_texts rest) e)
  | inr e ↦
      ap (join []) (texts_of-token (adapt_chunk c) (mock_stream rest) e)
      ∙ join_nil-cons c.text (texts_of (mock_stream rest))
      ∙ ap (λ t. c.text ++ t) (join-texts_of-mock_stream rest)
]

-- With a known provider, a database that works and a client that stays, a chat that is given the
-- chunks of the offline provider stores one complete turn, whose content is the words of the reply
-- of that provider to the messages, with one space between two of them.
pub stream-mock_chunks :
    (awaited spawned : Attempt) (id : ℕ) (request_id provider : Text) (providers : List Text)
    (reply : Option Text) (messages : List Client.ChatMessage) (db : Database)
    → dispatches provider providers ≡ true
    → IsReady awaited id db
    → (usage : Option Usage) × ((stream awaited spawned id request_id provider providers
          (mock_stream (mock_chunks reply messages))
          ended
          none
          db).0
        ≡ with_turn awaited id
            (assistant_turn request_id
              (join (codes " ") (split (reply_for reply messages)))
              usage
              TurnStatus.complete)
            db)
stream-mock_chunks awaited spawned id request_id provider providers reply messages db known ready =
    let chunks = mock_stream (mock_chunks reply messages) in
    let usage = last_usage none chunks in
    (
      usage,
      ap (λ r. r.0)
            (stream-completed awaited spawned id request_id provider providers chunks db known
              ready)
          ∙ ap
              (λ t. with_turn awaited id (assistant_turn request_id t usage TurnStatus.complete) db)
              (join-texts_of-mock_stream (mock_chunks reply messages)
                ∙ chunk_texts-mock_chunks reply messages),
    )
