-- ===== src/Gateway/Chat/Chunks.antt =====
-- The loop of gateway/app/chat.py over the chunks, for each patience of the client.
use inferlog.Prelude.{
  ℕ, zero, suc, ◌<◌, ◌≡◌, refl, ap, ◌∙◌, true, false, Option, none, some, List, [], ◌∷◌, ◌++◌, map,
  take, length, append_assoc, append-nil, is_empty, if◌then◌else◌, arith, Bool-cases, inl, inr,
}
use inferlog.Prelude.Text.{Text}
use inferlog.Gateway.Llm.{StreamChunk, Usage}
use inferlog.Gateway.Chat.{
  token, Progress, add_token, note_usage, resume, exhausted, closed, collect,
}
use inferlog.Gateway.Chat.Frames.{collect-blank, collect-token, collect-closed, collect-end}

-- The texts of the chunks that have one.
unfoldable pub texts_of : List StreamChunk → List Text
texts_of [] = []
texts_of (chunk ∷ rest) =
    let later = texts_of rest in if is_empty chunk.text then later else chunk.text ∷ later

-- The last usage that a chunk has, after an earlier one.
unfoldable pub last_usage : Option Usage → List StreamChunk → Option Usage
last_usage usage [] = usage
last_usage usage (chunk ∷ rest) =
    last_usage (elim chunk.usage [ none ↦ usage | some u ↦ some u ]) rest

abbrev pub grown : List Text → Option Usage → Progress → Progress
grown texts usage p = record {
  sent = p.sent ++ map token texts;
  collected = p.collected ++ texts;
  usage = usage;
}

pub texts_of-blank :
    (chunk : StreamChunk) (rest : List StreamChunk)
    → is_empty chunk.text ≡ true
    → texts_of (chunk ∷ rest) ≡ texts_of rest
unfolding texts_of
texts_of-blank chunk rest e = ground arith

pub texts_of-token :
    (chunk : StreamChunk) (rest : List StreamChunk)
    → is_empty chunk.text ≡ false
    → texts_of (chunk ∷ rest) ≡ chunk.text ∷ texts_of rest
unfolding texts_of
texts_of-token chunk rest e = ground arith

grown-add_token :
    (text : Text) (texts : List Text) (usage : Option Usage) (chunk : StreamChunk) (p : Progress)
    → grown texts usage (note_usage chunk (add_token text p)) ≡ grown (text ∷ texts) usage p
grown-add_token text texts usage chunk p =
    rw
      (
        append_assoc p.sent (token text ∷ []) (map token texts),
        append_assoc p.collected (text ∷ []) texts,
      )
      refl

-- A client that does not stop is sent every text, in order.
pub collect-all :
    (chunks : List StreamChunk) (p : Progress)
    → collect chunks none p
      ≡ (grown (texts_of chunks) (last_usage p.usage chunks) p, exhausted none)
unfolding last_usage resume texts_of
collect-all [] p =
    collect-end none p ∙ rw (texts_of, append-nil p.sent, append-nil p.collected) refl
collect-all (chunk ∷ rest) p = elim (Bool-cases (is_empty chunk.text)) [
  | inl e ↦
      collect-blank chunk rest none p e
      ∙ collect-all rest (note_usage chunk p)
      ∙ rw (texts_of-blank chunk rest e) refl
  | inr e ↦
      collect-token chunk rest none none p e refl
      ∙ collect-all rest (note_usage chunk (add_token chunk.text p))
      ∙ rw (texts_of-token chunk rest e)
          (ap (λ q. (q, exhausted none)) (grown-add_token chunk.text (texts_of rest) _ chunk p))
]

-- A client that stops at the frame after the last text.
pub collect-exactly :
    (chunks : List StreamChunk) (p : Progress)
    → collect chunks (some (length (texts_of chunks))) p
      ≡ (grown (texts_of chunks) (last_usage p.usage chunks) p, exhausted (some 0))
unfolding last_usage resume texts_of
collect-exactly [] p = collect-end (some 0) p ∙ rw (append-nil p.sent, append-nil p.collected) refl
collect-exactly (chunk ∷ rest) p = elim (Bool-cases (is_empty chunk.text)) [
  | inl e ↦
      rw (texts_of-blank chunk rest e)
        (collect-blank chunk rest _ p e ∙ collect-exactly rest (note_usage chunk p))
  | inr e ↦ rw (texts_of-token chunk rest e) (
      collect-token chunk rest _ (some (length (texts_of rest))) p e refl
      ∙ collect-exactly rest (note_usage chunk (add_token chunk.text p))
      ∙ ap (λ q. (q, exhausted (some 0))) (grown-add_token chunk.text (texts_of rest) _ chunk p))
]

abbrev pub IsStopped : ℕ → List StreamChunk → Progress → Type 0
IsStopped k chunks p =
    (usage : Option Usage) × (collect chunks (some k) p
      ≡ (grown (take (suc k) (texts_of chunks)) usage p, closed))

IsStopped-blank :
    (k : ℕ) (chunk : StreamChunk) (rest : List StreamChunk) (p : Progress)
    → is_empty chunk.text ≡ true
    → IsStopped k rest (note_usage chunk p)
    → IsStopped k (chunk ∷ rest) p
IsStopped-blank k chunk rest p e h =
    (h.0, rw (texts_of-blank chunk rest e) (collect-blank chunk rest _ p e ∙ h.1))

IsStopped-here :
    (chunk : StreamChunk) (rest : List StreamChunk) (p : Progress)
    → is_empty chunk.text ≡ false
    → IsStopped 0 (chunk ∷ rest) p
unfolding resume
IsStopped-here chunk rest p e =
    (p.usage, rw (texts_of-token chunk rest e) (collect-closed chunk rest (some 0) p e refl))

IsStopped-later :
    (k : ℕ) (chunk : StreamChunk) (rest : List StreamChunk) (p : Progress)
    → is_empty chunk.text ≡ false
    → IsStopped k rest (note_usage chunk (add_token chunk.text p))
    → IsStopped (suc k) (chunk ∷ rest) p
unfolding resume
IsStopped-later k chunk rest p e h = (
  h.0,
  rw (texts_of-token chunk rest e) (
      collect-token chunk rest (some (suc k)) (some k) p e refl
      ∙ h.1
      ∙ ap (λ q. (q, closed))
          (grown-add_token chunk.text (take (suc k) (texts_of rest)) h.0 chunk p)),
)

-- A client that stops at the frame of a text.
pub collect-IsStopped :
    (k : ℕ) (chunks : List StreamChunk) (p : Progress)
    → k < length (texts_of chunks)
    → IsStopped k chunks p
unfolding texts_of
collect-IsStopped k [] p h = ground arith
collect-IsStopped zero (chunk ∷ rest) p h = elim (Bool-cases (is_empty chunk.text)) [
  | inl e ↦
      IsStopped-blank 0 chunk rest p e
        (collect-IsStopped 0 rest _ (rw (texts_of-blank chunk rest e) at h))
  | inr e ↦ IsStopped-here chunk rest p e
]
collect-IsStopped (suc k) (chunk ∷ rest) p h = elim (Bool-cases (is_empty chunk.text)) [
  | inl e ↦
      IsStopped-blank (suc k) chunk rest p e
        (collect-IsStopped (suc k) rest _ (rw (texts_of-blank chunk rest e) at h))
  | inr e ↦
      let h' : suc k < suc (length (texts_of rest)) = rw (texts_of-token chunk rest e) at h in
      IsStopped-later k chunk rest p e (collect-IsStopped k rest _ (omega (arith, h')))
]
