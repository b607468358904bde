-- ===== src/Gateway/Chat/Frames.antt =====
-- What the stream of gateway/app/chat.py collects is what it sends.
use inferlog.Prelude.{
  ℕ, ◌≡◌, refl, sym, true, false, Option, none, some, List, [], ◌∷◌, ◌++◌, append_assoc, append-nil,
  is_empty, arith, Bool-cases, Option-cases, inl, inr,
}
use inferlog.Prelude.Text.{Text, join, join_nil-append}
use inferlog.Gateway.Llm.{StreamChunk}
use inferlog.Gateway.Chat.{
  Frame, start, token, done, failure, Progress, add_token, note_usage, resume, exhausted, closed,
  collect, begun,
}

-- The text that the client is sent.
unfoldable pub sent_text : List Frame → Text
sent_text [] = []
sent_text (start request_id ∷ rest) = sent_text rest
sent_text (token text ∷ rest) = text ++ sent_text rest
sent_text (done request_id usage ∷ rest) = sent_text rest
sent_text (failure reason ∷ rest) = sent_text rest

pub sent_text-append : (xs ys : List Frame) → sent_text (xs ++ ys) ≡ sent_text xs ++ sent_text ys
unfolding sent_text
sent_text-append [] ys = refl
sent_text-append (start request_id ∷ rest) ys = sent_text-append rest ys
sent_text-append (token text ∷ rest) ys =
    rw (sent_text-append rest ys) (sym (append_assoc text (sent_text rest) (sent_text ys)))
sent_text-append (done request_id usage ∷ rest) ys = sent_text-append rest ys
sent_text-append (failure reason ∷ rest) ys = sent_text-append rest ys

-- What has been collected is what has been sent.
unfoldable pub IsHonest : Progress → Type 0
IsHonest p = sent_text p.sent ≡ join [] p.collected

add_token-IsHonest : (text : Text) (p : Progress) → IsHonest p → IsHonest (add_token text p)
unfolding IsHonest sent_text
add_token-IsHonest text p h =
    rw
      (
        sent_text-append p.sent (token text ∷ []),
        join_nil-append p.collected text,
        h,
        append-nil text,
      )
      refl

note_usage-IsHonest :
    (chunk : StreamChunk) (p : Progress) → IsHonest p → IsHonest (note_usage chunk p)
unfolding IsHonest
note_usage-IsHonest chunk p h = h

pub collect-blank :
    (chunk : StreamChunk) (rest : List StreamChunk) (patience : Option ℕ) (p : Progress)
    → is_empty chunk.text ≡ true
    → collect (chunk ∷ rest) patience p ≡ collect rest patience (note_usage chunk p)
unfolding collect
collect-blank chunk rest patience p e = ground arith

pub collect-token :
    (chunk : StreamChunk) (rest : List StreamChunk) (patience left : Option ℕ) (p : Progress)
    → is_empty chunk.text ≡ false
    → resume patience ≡ some left
    → collect (chunk ∷ rest) patience p
      ≡ collect rest left (note_usage chunk (add_token chunk.text p))
unfolding collect
collect-token chunk rest patience left p e f = ground arith

pub collect-closed :
    (chunk : StreamChunk) (rest : List StreamChunk) (patience : Option ℕ) (p : Progress)
    → is_empty chunk.text ≡ false
    → resume patience ≡ none
    → collect (chunk ∷ rest) patience p ≡ (add_token chunk.text p, closed)
unfolding collect
collect-closed chunk rest patience p e f = ground arith

pub collect-end :
    (patience : Option ℕ) (p : Progress) → collect [] patience p ≡ (p, exhausted patience)
unfolding collect
collect-end patience p = refl

pub collect-IsHonest :
    (chunks : List StreamChunk) (patience : Option ℕ) (p : Progress)
    → IsHonest p
    → IsHonest (collect chunks patience p).0
collect-IsHonest [] patience p h = rw (collect-end patience p) h
collect-IsHonest (chunk ∷ rest) patience p h =
    let h' = add_token-IsHonest chunk.text p h in
    elim (Bool-cases (is_empty chunk.text)) [
      | inl e ↦
          rw (collect-blank chunk rest patience p e)
            (collect-IsHonest rest patience _ (note_usage-IsHonest chunk p h))
      | inr e ↦ elim (Option-cases (resume patience)) [
        | inl f ↦ rw (collect-closed chunk rest patience p e f) h'
        | inr (left, f) ↦
            rw (collect-token chunk rest patience left p e f)
              (collect-IsHonest rest left _ (note_usage-IsHonest chunk _ h'))
      ]
    ]

pub sent_text-tokenless :
    (p : Progress) (f : Frame)
    → IsHonest p
    → sent_text (f ∷ []) ≡ []
    → sent_text (p.sent ++ (f ∷ [])) ≡ join [] p.collected
unfolding IsHonest
sent_text-tokenless p f h e =
    rw (sent_text-append p.sent (f ∷ []), e, h) (append-nil (join [] p.collected))

pub sent_text-done :
    (p : Progress) (request_id : Text)
    → IsHonest p
    → sent_text (p.sent ++ (done request_id p.usage ∷ [])) ≡ join [] p.collected
unfolding sent_text
sent_text-done p request_id h = sent_text-tokenless p (done request_id p.usage) h refl

pub begun-IsHonest : (request_id : Text) → IsHonest (begun request_id)
unfolding IsHonest sent_text join
begun-IsHonest request_id = refl
