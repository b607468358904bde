-- ===== src/Gateway/Chat/Received.antt =====
-- What `dispatchFrame` of web/src/api.ts makes of the frames that gateway/app/chat.py writes.
use inferlog.Prelude.{
  ℕ, ◌≡◌, refl, ap, ◌∙◌, sym, Bool, true, false, not, ◌&&◌, ◌||◌, Option, none, some, List, [], ◌∷◌,
  ◌++◌, map, drop, leb, ◌==◌, if◌then◌else◌, append_assoc, is_empty, arith, All,
}
use mathlib.Core.Path.{subst}
use inferlog.Prelude.Text.{Text, codes, starts_with, strip_by, join}
use inferlog.Prelude.Json.{Fields}
use inferlog.Gateway.Chat.{Frame}
use inferlog.Gateway.Chat.Sse.{
  encoded, newline, frame_text, sse, cut_frame, receive, IsDrained, IsDrained-unique,
  receive-IsDrained,
}

-- `frame.split("\n")`
unfoldable pub lines : Text → List Text
lines [] = [] ∷ []
lines (c ∷ s) =
    let rest = lines s in
    if c == newline then [] ∷ rest else elim rest [ [] ↦ (c ∷ []) ∷ [] | l ∷ ls ↦ (c ∷ l) ∷ ls ]

-- The characters that `trim` of JavaScript removes.
unfoldable pub is_js_space : ℕ → Bool
is_js_space c =
    (leb 9 c && leb c 13)
    || c == 32
    || c == 0xa0
    || c == 0x1680
    || (leb 0x2000 c && leb c 0x200a)
    || c == 0x2028
    || c == 0x2029
    || c == 0x202f
    || c == 0x205f
    || c == 0x3000
    || c == 0xfeff

unfoldable pub trim : Text → Text
unfolding strip_by is_js_space
trim = strip_by is_js_space

-- One line, on the event and the data so far.
unfoldable pub take_line : Text → Text × Text → Text × Text
unfolding starts_with
take_line line (event, json) =
    if starts_with (codes "event:") line
    then (trim (drop 6 line), json)
    else if starts_with (codes "data:") line
    then (event, trim (drop 5 line))
    else (event, json)

unfoldable pub take_lines : List Text → Text × Text → Text × Text
take_lines [] frame = frame
take_lines (line ∷ rest) frame = take_lines rest (take_line line frame)

-- `dispatchFrame`: the event and the text of its JSON, unless there is none.
unfoldable pub dispatch_frame : Text → Option (Text × Text)
unfolding lines take_lines
dispatch_frame frame =
    let result = take_lines (lines frame) (codes "message", []) in
    if is_empty result.1 then none else some result

-- No line break.
unfoldable pub is_plain : Text → Bool
is_plain [] = true
is_plain (c ∷ s) = not (c == newline) && is_plain s

-- An event and a JSON without a line break, which `trim` takes to themselves behind a space.
pub record IsClean (frame : Text × Text) : Type 0 where
  pub plain_event : is_plain frame.0 ≡ true
  pub plain_json : is_plain frame.1 ≡ true
  pub trimmed_event : trim (32 ∷ frame.0) ≡ frame.0
  pub trimmed_json : trim (32 ∷ frame.1) ≡ frame.1
  pub some_json : is_empty frame.1 ≡ false

lines-plain : (x : Text) → is_plain x ≡ true → lines x ≡ x ∷ []
unfolding lines is_plain
lines-plain [] h = refl
lines-plain (c ∷ x) h = ground (arith, lines-plain x)

lines-two :
    (x y : Text) → is_plain x ≡ true → is_plain y ≡ true → lines (x ++ (newline ∷ y)) ≡ x ∷ y ∷ []
unfolding lines is_plain
lines-two [] y h k = ground (arith, lines-plain y k)
lines-two (c ∷ x) y h k = ground (arith, lines-two x y)

-- Two texts without a line break, and one between them, are cut off at the blank line.
cut-plain :
    (x rest : Text)
    → is_plain x ≡ true
    → cut_frame (x ++ (newline ∷ newline ∷ rest)) ≡ some (x, rest)
unfolding cut_frame is_plain
cut-plain [] rest h = ground arith
cut-plain (c ∷ []) rest h = ground arith
cut-plain (c ∷ d ∷ x) rest h = ground (arith, cut-plain (d ∷ x) rest)

cut-plain_after :
    (y rest : Text)
    → is_plain y ≡ true
    → is_empty y ≡ false
    → cut_frame (newline ∷ (y ++ (newline ∷ newline ∷ rest))) ≡ some (newline ∷ y, rest)
unfolding cut_frame is_plain
cut-plain_after [] rest h k = ground arith
cut-plain_after (d ∷ y) rest h k = ground (arith, cut-plain (d ∷ y) rest)

cut-two :
    (x y rest : Text)
    → is_plain x ≡ true
    → is_plain y ≡ true
    → is_empty y ≡ false
    → cut_frame ((x ++ (newline ∷ y)) ++ (newline ∷ newline ∷ rest))
      ≡ some (x ++ (newline ∷ y), rest)
unfolding cut_frame is_plain
cut-two [] y rest h k l = cut-plain_after y rest k l
cut-two (c ∷ []) y rest h k l = ground (arith, cut-plain_after y rest k l)
cut-two (c ∷ d ∷ x) y rest h k l = ground (arith, cut-two (d ∷ x) y rest)

event_line : Text → Text
event_line event = codes "event: " ++ event

data_line : Text → Text
data_line json = codes "data: " ++ json

plain-event_line : (event : Text) → is_plain event ≡ true → is_plain (event_line event) ≡ true
unfolding is_plain event_line
plain-event_line event h = h

plain-data_line : (json : Text) → is_plain json ≡ true → is_plain (data_line json) ≡ true
unfolding is_plain data_line
plain-data_line json h = h

frame_text-lines :
    (frame : Text × Text) → frame_text frame ≡ event_line frame.0 ++ (newline ∷ data_line frame.1)
unfolding frame_text event_line data_line
frame_text-lines (event, json) = refl

take_lines-two :
    (event json : Text)
    → take_lines (event_line event ∷ data_line json ∷ []) (codes "message", [])
      ≡ (trim (32 ∷ event), trim (32 ∷ json))
unfolding take_lines take_line event_line data_line starts_with
take_lines-two event json = refl

dispatch_frame-found :
    (frame : Text) (event json : Text)
    → take_lines (lines frame) (codes "message", []) ≡ (event, json)
    → is_empty json ≡ false
    → dispatch_frame frame ≡ some (event, json)
unfolding dispatch_frame
dispatch_frame-found frame event json e h = ground arith

dispatch_frame-frame_text :
    (frame : Text × Text) → IsClean frame → dispatch_frame (frame_text frame) ≡ some frame
dispatch_frame-frame_text (event, json) h =
    let x = event_line event in
    let y = data_line json in
    dispatch_frame-found (frame_text (event, json)) event json
      (ap (λ t. take_lines (lines t) (codes "message", [])) (frame_text-lines (event, json))
        ∙ ap (λ ls. take_lines ls (codes "message", []))
            (lines-two x y (plain-event_line event h.plain_event)
              (plain-data_line json h.plain_json))
        ∙ take_lines-two event json
        ∙ rw (h.trimmed_event, h.trimmed_json) refl)
      h.some_json

some_data_line : (json : Text) → is_empty (data_line json) ≡ false
unfolding data_line
some_data_line json = refl

cut-sse :
    (frame : Text × Text) (rest : Text)
    → IsClean frame
    → cut_frame (sse frame ++ rest) ≡ some (frame_text frame, rest)
unfolding sse
cut-sse (event, json) rest h =
    let x = event_line event in
    let y = data_line json in
    ap cut_frame (append_assoc (frame_text (event, json)) (newline ∷ newline ∷ []) rest)
    ∙ subst (λ t. cut_frame (t ++ (newline ∷ newline ∷ rest)) ≡ some (t, rest))
        (sym (frame_text-lines (event, json)))
        (cut-two x y rest (plain-event_line event h.plain_event) (plain-data_line json h.plain_json)
          (some_data_line json))

-- The body that the gateway writes.
unfoldable pub written : List (Text × Text) → Text
written [] = []
written (frame ∷ frames) = sse frame ++ written frames

written-IsDrained :
    (frames : List (Text × Text))
    → All IsClean frames
    → IsDrained (written frames) (map frame_text frames) []
unfolding IsDrained written cut_frame
written-IsDrained [] h = (refl, refl)
written-IsDrained (frame ∷ frames) h =
    (written frames, cut-sse frame (written frames) h.0, written-IsDrained frames h.1)

map-dispatch_frame-frame_text :
    (frames : List (Text × Text))
    → All IsClean frames
    → map dispatch_frame (map frame_text frames) ≡ map some frames
map-dispatch_frame-frame_text [] h = refl
map-dispatch_frame-frame_text (frame ∷ frames) h =
    rw (dispatch_frame-frame_text frame h.0, map-dispatch_frame-frame_text frames h.1) refl

receive-written :
    (frames : List (Text × Text)) (values : List Text)
    → All IsClean frames
    → join [] values ≡ written frames
    → (map dispatch_frame (receive values []).0 ≡ map some frames) × ((receive values []).1 ≡ [])
unfolding cut_frame
receive-written frames values h e =
    let drained : IsDrained (written frames) (receive values []).0 (receive values []).1 =
      subst (λ t. IsDrained t (receive values []).0 (receive values []).1) e
        (receive-IsDrained values [] refl) in
    let (same, left) =
      IsDrained-unique (written frames) (receive values []).0 (map frame_text frames)
        (receive values []).1 [] drained (written-IsDrained frames h) in
    (ap (map dispatch_frame) same ∙ map-dispatch_frame-frame_text frames h, left)

-- If `json.dumps` writes the data of each frame without a line break, not empty, and so that `trim`
-- does not change it: wherever the body that the gateway writes for the frames is cut on its way, the
-- page gets exactly their events with their data, in order, and nothing is left in its buffer.
pub receive-encoded :
    (dumps : Fields → Text) (frames : List Frame) (values : List Text)
    → All IsClean (map (encoded dumps) frames)
    → join [] values ≡ written (map (encoded dumps) frames)
    → (map dispatch_frame (receive values []).0 ≡ map some (map (encoded dumps) frames))
      × ((receive values []).1 ≡ [])
receive-encoded dumps frames values h e = receive-written (map (encoded dumps) frames) values h e
