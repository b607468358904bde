-- ===== src/Examples/Seed.antt =====
-- scripts/seed.py: synthetic events for the ingestion API.
--
-- An event is what the service reads of it, with identifiers and times as numbers; the isoformat of
-- two times in UTC orders as the times do. What the script draws at random is an argument.
pub mod Batches
use inferlog.Prelude.{
  ℕ, zero, suc, ◌+◌, ◌-◌, ◌*◌, ◌^◌, ◌≤◌, Bool, true, false, not, ◌&&◌, Option, none, some, List, [],
  ◌∷◌, map, ltb, if◌then◌else◌, length, take, drop, is_some,
}
use inferlog.Prelude.Int.{ℤ, pos, pos_part}
use inferlog.Prelude.Json.{Fields, str}
use inferlog.Prelude.Queries.{order_by, asc}
use inferlog.Prelude.Text.{Text, codes}
use inferlog.Sdk.Events.{Status}
use inferlog.Sdk.Sampling.{one}
use inferlog.Ingestion.Events.{RawEvent}
use inferlog.Ingestion.Dashboards.Rows.{minute}

-- The choices of `random.choice`.
pub data ModelChoice : Type 0 where
  gpt_4_1_mini gpt_4_1 gpt_4o_mini claude_sonnet_4_5 : ModelChoice

abbrev pub provider_of : ModelChoice → Text
provider_of ModelChoice.claude_sonnet_4_5 = codes "anthropic"
provider_of _ = codes "openai"

abbrev pub model_of : ModelChoice → Text
model_of ModelChoice.gpt_4_1_mini = codes "gpt-4.1-mini"
model_of ModelChoice.gpt_4_1 = codes "gpt-4.1"
model_of ModelChoice.gpt_4o_mini = codes "gpt-4o-mini"
model_of ModelChoice.claude_sonnet_4_5 = codes "claude-sonnet-4-5"

pub data ErrorChoice : Type 0 where
  rate_limit timeout provider_error connection : ErrorChoice

abbrev pub error_text : ErrorChoice → Text
error_text ErrorChoice.rate_limit = codes "rate_limit"
error_text ErrorChoice.timeout = codes "timeout"
error_text ErrorChoice.provider_error = codes "provider_error"
error_text ErrorChoice.connection = codes "connection"

pub data InputChoice : Type 0 where
  summarise email capital call haiku : InputChoice

abbrev pub input_text : InputChoice → Text
input_text InputChoice.summarise = codes "Summarise this quarter's revenue numbers"
input_text InputChoice.email = codes "email me at jordan@example.com about the rollout"
input_text InputChoice.capital = codes "what is the capital of Australia"
input_text InputChoice.call = codes "call support on (415) 555-0199 if it breaks again"
input_text InputChoice.haiku = codes "write a haiku about distributed systems"

-- What one event draws: the two identifiers, the choices, two values of `random.random()` in units of
-- 2^-53, `int(random.gauss(1400, 600))`, the values of `random.randint`, and how many microseconds
-- before the start of the script the call began.
pub record Draw : Type 0 where
  pub request_id : ℕ
  pub conversation_id : ℕ
  pub model : ModelChoice
  pub stream_roll : ℕ
  pub status_roll : ℕ
  pub gauss : ℤ
  pub error_latency : ℕ
  pub prompt : ℕ
  pub completion : ℕ
  pub ttft : ℕ
  pub input : InputChoice
  pub error_type : ErrorChoice
  pub age : ℕ

-- `roll < percent / 100`
abbrev pub below : ℕ → ℕ → Bool
below percent roll = ltb (roll * 100) (percent * one)

unfoldable pub status_of : ℕ → Status
status_of roll =
    if below 8 roll
    then Status.error
    else if below 13 roll
    then Status.cancelled
    else Status.success

abbrev pub at_least : ℕ → ℕ → ℕ
at_least low n = if ltb n low then low else n

unfoldable pub latency_of : Status → Draw → ℕ
latency_of Status.error d = d.error_latency
latency_of _ d = at_least 120 (pos_part d.gauss)

-- `0 if status == "error" else random.randint(20, 600)`
unfoldable pub completion_of : Status → Draw → ℕ
completion_of Status.error d = 0
completion_of _ d = d.completion

-- `completion or None`, and the total that goes with it.
abbrev pub count_or_none : ℕ → Option ℤ
count_or_none zero = none
count_or_none (suc n) = some (pos (suc n))

abbrev pub total_or_none : ℕ → ℕ → Option ℤ
total_or_none prompt zero = none
total_or_none prompt (suc n) = some (pos (prompt + suc n))

abbrev pub if_error : {A : Type 0} → Status → A → Option A
if_error Status.error a = some a
if_error _ a = none

abbrev pub unless_error : {A : Type 0} → Status → A → Option A
unless_error Status.error a = none
unless_error _ a = some a

abbrev pub if_true : {A : Type 0} → Bool → Option A → Option A
if_true true a = a
if_true false a = none

unfoldable pub event_with : Status → Bool → Draw → ℕ → RawEvent
unfolding latency_of completion_of
event_with status streamed d started = record {
  request_id = d.request_id;
  service = codes "chat-gateway";
  provider = provider_of d.model;
  model = model_of d.model;
  status = status;
  streamed = streamed;
  started_at = started;
  completed_at = started + latency_of status d * 1000;
  latency_ms = pos (latency_of status d);
  conversation_id = some d.conversation_id;
  ttft_ms = if_true streamed (unless_error status (pos d.ttft));
  prompt_tokens = some (pos d.prompt);
  completion_tokens = count_or_none (completion_of status d);
  total_tokens = total_or_none d.prompt (completion_of status d);
  input_preview = some (input_text d.input);
  output_preview = unless_error status (codes "...(synthetic reply)...");
  error_type = if_error status (error_text d.error_type);
  error_message = if_error status (codes "synthetic error for demo data");
  pii_redaction_count = pos 0;
  tags = Fields.end;
  client_metadata = Fields.field (codes "channel") (str (codes "seed")) Fields.end;
  sdk_version = some (codes "0.1.0");
  schema_version = pos 1;
  received_at = none;
}

unfoldable pub make_event : Draw → ℕ → RawEvent
unfolding event_with status_of
make_event d started = event_with (status_of d.status_roll) (below 80 d.stream_roll) d started

-- `for start in range(0, len(events), 25)`, on fuel for the rounds.
unfoldable pub slices : {A : Type 0} → ℕ → List A → List (List A)
slices zero events = []
slices (suc fuel) [] = []
slices (suc fuel) (e ∷ events) = take 25 (e ∷ events) ∷ slices fuel (drop 25 (e ∷ events))

-- The batches of `main` for the draws of its events; an event begins before `now`.
unfoldable pub batches : ℕ → List Draw → List (List RawEvent)
unfolding slices make_event
batches now draws =
    let events = order_by (asc (λ e. e.started_at)) (map (λ d. make_event d (now - d.age)) draws) in
    slices (length events) events
