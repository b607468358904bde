-- ===== src/Examples/Seed/Batches.antt =====
-- What scripts/seed.py posts passes the limits of ingestion/app/events.py.
use mathlib.Core.List.{Perm}
use mathlib.Core.Path.{subst}
use inferlog.Prelude.{
  ℕ, zero, suc, ◌-◌, ◌≤◌, ◌≡◌, refl, sym, ap, ◌∙◌, Bool, true, false, Option, some, List, [], ◌∷◌,
  ◌++◌, map, length, take, drop, take-append-drop, length-take, length-drop, le→leb, All, All-imp,
  leb, is_some, arith,
}
use inferlog.Prelude.Python.{Python}
use inferlog.Prelude.Int.{pos}
use inferlog.Prelude.Json.{Json, Fields, str}
use inferlog.Prelude.Queries.{IsOrdered, asc, order_by, order_by-Perm, order_by-asc}
use inferlog.Prelude.Groups.{All-order_by}
use inferlog.Prelude.Text.{Text, codes}
use inferlog.Sdk.Events.{Status}
use inferlog.Ingestion.Batch.{is_batch}
use inferlog.Ingestion.Events.{
  RawEvent, check_event, bounded_dict, max_length, natural, optional, max_dict_bytes,
  max_name_chars, max_preview_chars, max_error_type_chars, max_error_chars,
}
use inferlog.Examples.Seed.{
  Draw, ModelChoice, ErrorChoice, InputChoice, event_with, make_event, slices, batches,
  completion_of, status_of, below, provider_of, model_of, input_text, error_text, if_error,
  unless_error, if_true, count_or_none, total_or_none,
}

-- The members of some slices, in order.
abbrev pub joined : {A : Type 0} → List (List A) → List A
joined [] = []
joined (xs ∷ rest) = xs ++ joined rest

length-map : {A B : Type 0} (f : A → B) (xs : List A) → length (map f xs) ≡ length xs
length-map f [] = refl
length-map f (x ∷ xs) = ap (λ n. suc n) (length-map f xs)

module _ {A : Type 0} where
  length-drop-le :
      (xs : List A) (e : A) (fuel : ℕ) → length (e ∷ xs) ≤ suc fuel → length (drop 24 xs) ≤ fuel
  length-drop-le xs e fuel h = omega (arith, length-drop 24 xs)

  joined-slices : (fuel : ℕ) (xs : List A) → length xs ≤ fuel → joined (slices fuel xs) ≡ xs
  unfolding slices
  joined-slices zero [] h = refl
  joined-slices zero (x ∷ xs) h = ground arith
  joined-slices (suc fuel) [] h = refl
  joined-slices (suc fuel) (x ∷ xs) h =
      ap (λ l. x ∷ (take 24 xs ++ l)) (joined-slices fuel (drop 24 xs) (length-drop-le xs x fuel h))
      ∙ ap (◌∷◌ x) (take-append-drop 24 xs)

  slices-bounds :
      (fuel : ℕ) (xs : List A) → All (λ b. (1 ≤ length b) × (length b ≤ 25)) (slices fuel xs)
  unfolding slices
  slices-bounds zero xs = tt
  slices-bounds (suc fuel) [] = tt
  slices-bounds (suc fuel) (x ∷ xs) =
      ((omega arith, omega (arith, length-take 24 xs)), slices-bounds fuel (drop 24 xs))

-- A check that succeeds.
abbrev pub Passes {ℓ} : {A : Type ℓ} → Option A → Type ℓ
Passes {A} o = (a : A) × (o ≡ some a)

provider-Passes : (c : ModelChoice) → Passes (max_length max_name_chars (provider_of c))
unfolding max_length
provider-Passes ModelChoice.gpt_4_1_mini = (_, refl)
provider-Passes ModelChoice.gpt_4_1 = (_, refl)
provider-Passes ModelChoice.gpt_4o_mini = (_, refl)
provider-Passes ModelChoice.claude_sonnet_4_5 = (_, refl)

model-Passes : (c : ModelChoice) → Passes (max_length max_name_chars (model_of c))
unfolding max_length
model-Passes ModelChoice.gpt_4_1_mini = (_, refl)
model-Passes ModelChoice.gpt_4_1 = (_, refl)
model-Passes ModelChoice.gpt_4o_mini = (_, refl)
model-Passes ModelChoice.claude_sonnet_4_5 = (_, refl)

input-Passes : (c : InputChoice) → Passes (max_length max_preview_chars (input_text c))
unfolding max_length
input-Passes InputChoice.summarise = (_, refl)
input-Passes InputChoice.email = (_, refl)
input-Passes InputChoice.capital = (_, refl)
input-Passes InputChoice.call = (_, refl)
input-Passes InputChoice.haiku = (_, refl)

error_type-Passes : (c : ErrorChoice) → Passes (max_length max_error_type_chars (error_text c))
unfolding max_length
error_type-Passes ErrorChoice.rate_limit = (_, refl)
error_type-Passes ErrorChoice.timeout = (_, refl)
error_type-Passes ErrorChoice.provider_error = (_, refl)
error_type-Passes ErrorChoice.connection = (_, refl)

text-Passes : (limit : ℕ) (t : Text) → leb (length t) limit ≡ true → Passes (max_length limit t)
unfolding max_length
text-Passes limit t h = rw h (_, refl)

natural-Passes : (n : ℕ) → Passes (natural (pos n))
unfolding natural
natural-Passes n = (_, refl)

module _ {A B : Type 0} (check : A → Option B) where
  some-Passes : (a : A) → Passes (check a) → Passes (optional check (some a))
  unfolding optional
  some-Passes a (b, e) = rw e (_, refl)

  if_error-Passes :
      (status : Status) (a : A) → Passes (check a) → Passes (optional check (if_error status a))
  unfolding optional
  if_error-Passes Status.error a h = some-Passes a h
  if_error-Passes Status.success a h = (_, refl)
  if_error-Passes Status.cancelled a h = (_, refl)

  unless_error-Passes :
      (status : Status) (a : A) → Passes (check a) → Passes (optional check (unless_error status a))
  unfolding optional
  unless_error-Passes Status.error a h = (_, refl)
  unless_error-Passes Status.success a h = some-Passes a h
  unless_error-Passes Status.cancelled a h = some-Passes a h

  if_true-Passes :
      (b : Bool) (o : Option A) → Passes (optional check o) → Passes (optional check (if_true b o))
  unfolding optional
  if_true-Passes true o h = h
  if_true-Passes false o h = (_, refl)

count-Passes : (n : ℕ) → Passes (optional natural (count_or_none n))
unfolding optional natural
count-Passes zero = (_, refl)
count-Passes (suc n) = (_, refl)

total-Passes : (prompt n : ℕ) → Passes (optional natural (total_or_none prompt n))
unfolding optional natural
total-Passes prompt zero = (_, refl)
total-Passes prompt (suc n) = (_, refl)

module _ (py : Python) where
  -- The metadata of an event is short enough once it is written as JSON.
  abbrev pub IsShort : Fields → Type 0
  IsShort d = py.dumps_size d ≤ max_dict_bytes

  bounded_dict-Passes :
      (k : Text) (v : Json)
      → IsShort (Fields.field k v Fields.end)
      → Passes (bounded_dict py (Fields.field k v Fields.end))
  unfolding bounded_dict
  bounded_dict-Passes k v h = rw (le→leb _ _ h) (_, refl)

  check_event-event_with :
      (status : Status) (streamed : Bool) (d : Draw) (started : ℕ)
      → IsShort (event_with status streamed d started).client_metadata
      → Passes (check_event py (event_with status streamed d started))
  unfolding check_event event_with
  check_event-event_with status streamed d started h =
      let n = completion_of status d in
      let (_, provider) = provider-Passes d.model in
      let (_, model) = model-Passes d.model in
      let (_, ttft) =
        if_true-Passes natural streamed (unless_error status (pos d.ttft))
          (unless_error-Passes natural status (pos d.ttft) (natural-Passes d.ttft)) in
      let (_, completion) = count-Passes n in
      let (_, total) = total-Passes d.prompt n in
      let (_, input) =
        some-Passes (max_length max_preview_chars) (input_text d.input) (input-Passes d.input) in
      let (_, output) =
        unless_error-Passes (max_length max_preview_chars) status (codes "...(synthetic reply)...")
          (text-Passes max_preview_chars (codes "...(synthetic reply)...") refl) in
      let (_, error_type) =
        if_error-Passes (max_length max_error_type_chars) status (error_text d.error_type)
          (error_type-Passes d.error_type) in
      let (_, error_message) =
        if_error-Passes (max_length max_error_chars) status (codes "synthetic error for demo data")
          (text-Passes max_error_chars (codes "synthetic error for demo data") refl) in
      let (_, metadata) = bounded_dict-Passes (codes "channel") (str (codes "seed")) h in
      rw
        (
          provider, model, ttft, completion, total, input, output, error_type, error_message,
          metadata,
        )
        (_, refl)

  is_batch-length :
      (payload : RawEvent → Fields) (b : List RawEvent)
      → (1 ≤ length b) × (length b ≤ 25)
      → is_batch (map payload b) ≡ true
  unfolding is_batch
  is_batch-length payload b (least, most) = rw (length-map payload b) (ground arith)

  made-accepted :
      (now : ℕ) (draws : List Draw)
      → IsShort (Fields.field (codes "channel") (str (codes "seed")) Fields.end)
      → All (λ e. is_some (check_event py e) ≡ true) (map (λ d. make_event d (now - d.age)) draws)
  unfolding make_event event_with
  made-accepted now [] h = tt
  made-accepted now (d ∷ draws) h =
      let (event, e) =
        check_event-event_with (status_of d.status_roll) (below 80 d.stream_roll) d (now - d.age)
          h in
      (ap is_some e, made-accepted now draws h)

  -- Whatever is drawn: the batches that the script posts hold each of its events once, in the order in
  -- which the calls began; the service accepts each batch by its length, and each event by its fields,
  -- if the metadata of the script is short enough as JSON.
  pub batches-IsPosted :
      (payload : RawEvent → Fields) (now : ℕ) (draws : List Draw)
      → IsShort (Fields.field (codes "channel") (str (codes "seed")) Fields.end)
      → let posted = batches now draws in
        Perm (joined posted) (map (λ d. make_event d (now - d.age)) draws)
        × IsOrdered (asc (λ e. e.started_at)) (joined posted)
        × All (λ b. is_batch (map payload b) ≡ true) posted
        × All (λ e. is_some (check_event py e) ≡ true) (joined posted)
  unfolding batches
  batches-IsPosted payload now draws h =
      let events = map (λ d. make_event d (now - d.age)) draws in
      let before = asc (λ (e : RawEvent). e.started_at) in
      let sorted = order_by before events in
      let whole = joined-slices (length sorted) sorted (omega arith) in
      (
        subst (λ l. Perm l events) (sym whole) (order_by-Perm before events),
        subst (IsOrdered before) (sym whole) (order_by-asc (λ e. e.started_at) events),
        All-imp _ _ (slices (length sorted) sorted) (is_batch-length payload)
            (slices-bounds (length sorted) sorted),
        subst (All (λ e. is_some (check_event py e) ≡ true)) (sym whole)
            (All-order_by _ before events (made-accepted now draws h)),
      )
