-- ===== src/Gateway/Chat/Sse.antt =====
-- The frames of the chat as text: `_sse` of gateway/app/chat.py, and the loop of web/src/api.ts that
-- reads them, on a body that arrives in pieces.
use inferlog.Prelude.{
  ℕ, zero, suc, ◌≤◌, ◌<◌, ◌≡◌, refl, ap, ◌∙◌, sym, ◌&&◌, Option, none, some, List, [], ◌∷◌, ◌++◌,
  length, ◌==◌, if◌then◌else◌, append_assoc, append-nil, arith, Bool-cases, Option-cases, inl, inr,
}
use mathlib.Core.Path.{subst}
use inferlog.Prelude.Int.{pos}
use inferlog.Prelude.Json.{Json, Fields}
use inferlog.Gateway.Llm.{Usage}
use inferlog.Gateway.Chat.{Frame, start, token, done, failure}
use inferlog.Prelude.Text.{Text, codes, join, join_nil-cons}

abbrev pub newline : ℕ
newline = 10

abbrev pub count_json : Option ℕ → Json
count_json none = Json.null
count_json (some n) = Json.int (pos n)

-- `_usage_dict`
unfoldable pub usage_dict : Option Usage → Json
usage_dict none = Json.null
usage_dict (some u) = Json.obj (
    Fields.field (codes "prompt_tokens") (count_json u.prompt_tokens) (
      Fields.field (codes "completion_tokens") (count_json u.completion_tokens)
        (Fields.field (codes "total_tokens") (count_json u.total_tokens) Fields.end)))

-- The arguments of `_sse` for each frame.
unfoldable pub event_of : Frame → Text
event_of (start request_id) = codes "start"
event_of (token text) = codes "token"
event_of (done request_id usage) = codes "done"
event_of (failure reason) = codes "error"

unfoldable pub data_of : Frame → Fields
unfolding usage_dict
data_of (start request_id) = Fields.field (codes "request_id") (Json.str request_id) Fields.end
data_of (token text) = Fields.field (codes "text") (Json.str text) Fields.end
data_of (done request_id usage) =
    Fields.field (codes "request_id") (Json.str request_id)
      (Fields.field (codes "usage") (usage_dict usage) Fields.end)
data_of (failure reason) = Fields.field (codes "message") (Json.str reason) Fields.end

-- A frame with its data written by `json.dumps`.
abbrev pub encoded : (Fields → Text) → Frame → Text × Text
encoded dumps frame = (event_of frame, dumps (data_of frame))

-- What stands before the blank line.
unfoldable pub frame_text : Text × Text → Text
frame_text (event, json) = codes "event: " ++ (event ++ (newline ∷ (codes "data: " ++ json)))

-- `_sse`, on the text of the JSON.
unfoldable pub sse : Text × Text → Text
unfolding frame_text
sse frame = frame_text frame ++ (newline ∷ newline ∷ [])

-- `buffer.indexOf("\n\n")` and the two slices.
unfoldable pub cut_frame : Text → Option (Text × Text)
cut_frame [] = none
cut_frame (c ∷ []) = none
cut_frame (c ∷ d ∷ s) =
    let later = cut_frame (d ∷ s) in
    if c == newline && d == newline
    then some ([], s)
    else elim later [ none ↦ none | some (frame, rest) ↦ some (c ∷ frame, rest) ]

-- The inner loop, on a fuel.
unfoldable pub drain_frames : ℕ → Text → List Text × Text
unfolding cut_frame
drain_frames zero buffer = ([], buffer)
drain_frames (suc n) buffer = elim (cut_frame buffer) [
  | none ↦ ([], buffer)
  | some (frame, rest) ↦ let (frames, left) = drain_frames n rest in (frame ∷ frames, left)
]

-- The outer loop, over the pieces of the body: the frames, and what is left in the buffer.
unfoldable pub receive : List Text → Text → List Text × Text
unfolding drain_frames
receive [] buffer = ([], buffer)
receive (value ∷ values) buffer =
    let (frames, left) = drain_frames (length (buffer ++ value)) (buffer ++ value) in
    let (later, rest) = receive values left in (frames ++ later, rest)

cut_frame-append :
    (b c f r : Text) → cut_frame b ≡ some (f, r) → cut_frame (b ++ c) ≡ some (f, r ++ c)
unfolding cut_frame
cut_frame-append [] c f r h = ground arith
cut_frame-append (x ∷ []) c f r h = ground arith
cut_frame-append (x ∷ y ∷ s) c f r h = elim (Bool-cases (x == newline && y == newline)) [
  | inl e ↦ ground arith
  | inr e ↦ elim (Option-cases (cut_frame (y ∷ s))) [
    | inl g ↦ ground arith
    | inr ((f', r'), g) ↦ ground (arith, cut_frame-append (y ∷ s) c f' r' g)
  ]
]

cut_frame-shorter : (b f r : Text) → cut_frame b ≡ some (f, r) → length r < length b
unfolding cut_frame
cut_frame-shorter [] f r h = ground arith
cut_frame-shorter (x ∷ []) f r h = ground arith
cut_frame-shorter (x ∷ y ∷ s) f r h = elim (Bool-cases (x == newline && y == newline)) [
  | inl e ↦ ground arith
  | inr e ↦ elim (Option-cases (cut_frame (y ∷ s))) [
    | inl g ↦ ground arith
    | inr ((f', r'), g) ↦ ground (arith, cut_frame-shorter (y ∷ s) f' r' g)
  ]
]

-- What the inner loop does, without a fuel.
unfoldable pub IsDrained : Text → List Text → Text → Type 0
IsDrained b [] left = (b ≡ left) × (cut_frame b ≡ none)
IsDrained b (f ∷ fs) left = (r : Text) × (cut_frame b ≡ some (f, r)) × IsDrained r fs left

drain_frames-none : (n : ℕ) (b : Text) → cut_frame b ≡ none → drain_frames n b ≡ ([], b)
unfolding drain_frames
drain_frames-none zero b e = refl
drain_frames-none (suc n) b e = ground arith

drain_frames-some :
    (n : ℕ) (b f r : Text)
    → cut_frame b ≡ some (f, r)
    → drain_frames (suc n) b ≡ (f ∷ (drain_frames n r).0, (drain_frames n r).1)
unfolding drain_frames
drain_frames-some n b f r e = ground arith

nothing_left : (b : Text) → length b ≤ 0 → cut_frame b ≡ none
unfolding cut_frame
nothing_left [] h = refl
nothing_left (c ∷ b) h = ground arith

drain_frames-IsDrained :
    (n : ℕ) (b : Text) → length b ≤ n → IsDrained b (drain_frames n b).0 (drain_frames n b).1
unfolding IsDrained
drain_frames-IsDrained zero b h =
    let e = nothing_left b h in rw (drain_frames-none zero b e) (refl, e)
drain_frames-IsDrained (suc n) b h = elim (Option-cases (cut_frame b)) [
  | inl e ↦ rw (drain_frames-none (suc n) b e) (refl, e)
  | inr ((f, r), e) ↦
      let shorter = cut_frame-shorter b f r e in
      rw (drain_frames-some n b f r e)
        (r, e, drain_frames-IsDrained n r (omega (arith, h, shorter)))
]

IsDrained-append :
    (b c : Text) (fs gs : List Text) (left rest : Text)
    → IsDrained b fs left
    → IsDrained (left ++ c) gs rest
    → IsDrained (b ++ c) (fs ++ gs) rest
unfolding IsDrained
IsDrained-append b c [] gs left rest h k = subst (λ t. IsDrained (t ++ c) gs rest) (sym h.0) k
IsDrained-append b c (f ∷ fs) gs left rest (r, e, h) k =
    (r ++ c, cut_frame-append b c f r e, IsDrained-append r c fs gs left rest h k)

IsDrained-stuck :
    (b : Text) (fs : List Text) (left : Text) → IsDrained b fs left → cut_frame left ≡ none
unfolding IsDrained
IsDrained-stuck b [] left h = subst (λ t. cut_frame t ≡ none) h.0 h.1
IsDrained-stuck b (f ∷ fs) left (r, e, h) = IsDrained-stuck r fs left h

same_cut :
    (f g r q : Text) (o : Option (Text × Text))
    → o ≡ some (f, r)
    → o ≡ some (g, q)
    → (f ≡ g) × (r ≡ q)
same_cut f g r q o e d = ground arith

pub IsDrained-unique :
    (b : Text) (fs gs : List Text) (left rest : Text)
    → IsDrained b fs left
    → IsDrained b gs rest
    → (fs ≡ gs) × (left ≡ rest)
unfolding IsDrained
IsDrained-unique b [] [] left rest h k = (refl, sym h.0 ∙ k.0)
IsDrained-unique b [] (g ∷ gs) left rest h (r, e, k) = ground (arith, h.1, e)
IsDrained-unique b (f ∷ fs) [] left rest (r, e, h) k = ground (arith, k.1, e)
IsDrained-unique b (f ∷ fs) (g ∷ gs) left rest (r, e, h) (q, d, k) =
    let (same, later) = same_cut f g r q (cut_frame b) e d in
    let (all, end) =
      IsDrained-unique r fs gs left rest h (subst (λ t. IsDrained t gs rest) (sym later) k) in
    (ap (λ t. t ∷ fs) same ∙ ap (◌∷◌ g) all, end)

stuck-IsDrained : (b : Text) → cut_frame b ≡ none → IsDrained b [] b
unfolding IsDrained
stuck-IsDrained b e = (refl, e)

-- Wherever the body is cut, the loop drains the whole of it.
pub receive-IsDrained :
    (values : List Text) (b : Text)
    → cut_frame b ≡ none
    → IsDrained (b ++ join [] values) (receive values b).0 (receive values b).1
unfolding receive join
receive-IsDrained [] b e = subst (λ t. IsDrained t [] b) (sym (append-nil b)) (stuck-IsDrained b e)
receive-IsDrained (v ∷ values) b e =
    let d = drain_frames (length (b ++ v)) (b ++ v) in
    let h = drain_frames-IsDrained (length (b ++ v)) (b ++ v) (omega arith) in
    let k = receive-IsDrained values d.1 (IsDrained-stuck (b ++ v) d.0 d.1 h) in
    subst (λ t. IsDrained t (d.0 ++ (receive values d.1).0) (receive values d.1).1)
      (append_assoc b v (join [] values) ∙ ap (λ t. b ++ t) (sym (join_nil-cons v values)))
      (IsDrained-append (b ++ v) (join [] values) d.0 (receive values d.1).0 d.1
        (receive values d.1).1 h k)
