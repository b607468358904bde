-- ===== src/Sdk/Client/Tests.antt =====
-- The theorems on the explicit client, applied to a provider.
use inferlog.Prelude.{◌+◌, ◌≡◌, refl, true, false, none, some, List, [], ◌∷◌}
use inferlog.Prelude.Int.{pos}
use inferlog.Prelude.Json.{int}
use inferlog.Prelude.Text.{codes, text_eq}
use inferlog.Samples.{python, subn, dispatcher, moment, team}
use inferlog.Sdk.Redaction.{make_redactor}
use inferlog.Sdk.Runtime.{taken}
use inferlog.Sdk.Client.{Usage, Ending, Piece, Provider, Client, Call, Errors, find_provider}
use inferlog.Sdk.Client.Completions.{complete, complete-taken}
use inferlog.Sdk.Client.Streams.{StreamEnd, IsLogged, stream, stream-IsLogged}

abbrev counted : Usage
counted = record {
  prompt_tokens = int (pos 3);
  completion_tokens = int (pos 1);
  total_tokens = int (pos 4);
}

-- One chunk of text, an empty one, and the usage.
abbrev chunks : List Piece
chunks =
    Piece.chunk (record { text = codes "hi"; usage = none }) 12
    ∷ Piece.chunk (record { text = []; usage = none }) 13
    ∷ Piece.chunk (record { text = []; usage = some counted }) 14
    ∷ Piece.stop
    ∷ []

abbrev provider : Provider
provider = record {
  complete = λ flag model messages. Ending.returned (record { text = codes "hi"; usage = counted });
  stream = λ flag model messages. chunks;
}

abbrev client : Client
client = record {
  service = codes "chat-gateway";
  providers = (codes "mock", provider) ∷ [];
  preview_chars = 280;
  redactor = make_redactor true [] none;
}

abbrev user_call : Call
user_call = record {
  request_id = none;
  conversation_id = none;
  provider = codes "mock";
  model = codes "mock-1";
  messages = record { role = codes "user"; content = codes "hello" } ∷ [];
  metadata = team;
  tags = team;
  inside_explicit = false;
  sampler = none;
  moment = moment;
}

abbrev sample_errors : Errors
sample_errors = record {
  redactor_error = record { type_name = codes "RuntimeError"; message = codes "redactor" };
  unknown_provider = λ name. record { type_name = codes "ValueError"; message = name };
}

complete-taken_example :
    let r = complete python subn sample_errors client user_call dispatcher in
    (r.ending ≡ provider.complete true user_call.model user_call.messages)
    × (r.inside_explicit ≡ false)
    × (taken r.dispatcher ≡ taken dispatcher + 1)
unfolding make_redactor find_provider text_eq
complete-taken_example =
    complete-taken python subn sample_errors client user_call provider dispatcher refl refl refl

stream-IsLogged_example :
    IsLogged python subn sample_errors user_call dispatcher
      (record { text = codes "hi"; usage = none } ∷ record { text = []; usage = some counted } ∷ [])
      StreamEnd.closed_early
      (stream python subn sample_errors client user_call dispatcher)
unfolding make_redactor find_provider text_eq
stream-IsLogged_example =
    stream-IsLogged python subn sample_errors client user_call provider dispatcher refl refl refl
      refl
