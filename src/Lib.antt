-- ===== src/Lib.antt =====
-- inferlog: LLM calls are captured inside the host process, redacted, sampled and queued, shipped in
-- batches to an ingestion service, and stored there as rows of `inference_logs`. The host in the
-- repository is a chat gateway, which keeps conversations and streams the answers of the models.
--
-- The program and its model:
-- - sdk/inferlog/dispatcher.py is Sdk/Dispatcher: Sink (`HttpSink.send`), Queue (`LogDispatcher`'s
--   state, `submit`, `_collect_batch`), Delivery (`_send_with_retry`), Worker (`_run` and `aclose` as
--   one atomic step per stretch between two awaits), and Worker/Drain (the loop of `_run`).
-- - sdk/inferlog/events.py is Sdk/Events: the event, its payload, Caps (`_cap_str`, `_cap_value`) and
--   Dicts (`_cap_dict`). redaction.py, sampling.py, context.py and runtime.py are the modules of Sdk
--   with these names.
-- - sdk/inferlog/parsers.py is Sdk/Parsers: Values (helpers on decoded JSON), Requests, Responses,
--   Streams (Lines: one line of each format; Feed: the buffer and its loop), Registry (`HANDLERS`).
-- - sdk/inferlog/auto.py is Sdk/Auto: Classify, Emit (`_emit_safe`), Capture (the three entry points),
--   Stream (`_AsyncStreamState` and the wrappers that drive it). What the host sees is Capture/Host,
--   and what is logged Capture/Logged.
-- - sdk/inferlog/client.py is Sdk/Client (`_emit`, with the vocabulary of providers/base.py),
--   Client/Completions (`complete`), Client/Streams (`stream`) and Client/Mock (providers/mock.py).
-- - ingestion/app is Ingestion: Events (the limits of the Pydantic model), Redaction, Enrich, Processing,
--   Table (the insert of db.py), Worker (`_handle` of worker.py, and `_decode`, `ack` and `to_dlq` of
--   stream.py), in which each call of Redis or the database answers, fails, or loses its answer,
--   Worker/Loop (`run`), Api (the credentials check of api.py), Batch (`ingest`, with `publish` of
--   stream.py), Dashboards (the queries of db.py, over Dashboards/Rows) and Endpoints (the endpoints of
--   api.py that read) and Health (the readings of stream.py, and `healthz`). Arrival follows a batch from `ingest` through `run`.
-- - sdk/inferlog/__init__.py is Sdk/Entry, with `install` and `uninstall` of auto.py: the state of the
--   process (the global runtime, the patch of httpx, the flag of the flush at exit), and one function
--   per entry point.
-- - examples/ and scripts/seed.py are Examples: Acme (a host's handler), Embedded (a host's model), Seed
--   (the events and batches of the script).
-- - gateway/app is Gateway: Store (db.py over the tables of db/schema.sql), Conversations (the four
--   endpoints of conversations.py), Llm (the catalog, the choice of the providers and the chunks that
--   they make), and Chat (`send_message`, the generator `stream` and `_persist_assistant_turn` of
--   chat.py). A conversation names a model of Llm; Chat stores its turns through Store, and reads
--   from it the window of turns that the model is shown. Chat/Sse and Chat/Received are the frames as
--   text: `_sse`, and the loop of web/src/api.ts that reads them. Service is main.py with
--   `LLMRuntime.build`: it starts and stops the SDK through Sdk/Entry.
-- Prelude holds the shared lists, texts, integers and JSON values; Samples the values of the tests.
--
-- State is passed explicitly: an operation takes the record of its object and returns the new one.
-- Exceptions are values (`none`, or a reply of a data type). Dictionaries keep the order of insertion.
-- Texts are lists of code points, times are microseconds, delays milliseconds.
--
-- Parameters stand for code outside the repository: `json.loads`, `json.dumps`, `str` and `isoformat`
-- (Prelude/Python), `re.subn`, `hmac.compare_digest`, httpx's `raise_for_status`, Pydantic's reading of
-- a message, `urlparse`, floats and their operations, the float aggregates of
-- PostgreSQL, FastAPI's reading of an identifier, the clock, the
-- random number generator and the event loop.
--
-- Fuel: the loop of a parser runs on the length of its buffer, and each round takes at least one byte
-- off it; `_run` runs on a number of rounds, for which one more than the queue's length is enough; the
-- trimming of a dictionary runs on its number of keys; the page's loop over the frames runs on the
-- length of its buffer, off which each frame takes at least one character.
--
-- The chat stream is one run of the generator: a list of chunks, how the provider's stream ends, and
-- the number of frames after which the client closes it. A call of the database in it works, raises,
-- or is cut off by a cancellation, with or without its effect; one of the handler before it is
-- answered, fails, or raises after its effect.
--
-- A query of the dashboards is a function of the table and the clock that its statement sees, or it
-- raises; what its rows are to say is described in Dashboards/Described. ORDER BY,
-- LIMIT and GROUP BY are those of Prelude/Queries and Prelude/Groups; where SQL leaves an order open,
-- the model takes one and no theorem depends on it.
--
-- Not modelled: what Redis keeps for the consumer group, the clients of OpenAI and Anthropic, the
-- connections to PostgreSQL and Redis, and the routes, which are calls of those libraries; the rest
-- of the web front end has no logic of the pipeline.
pub mod Prelude
pub mod Samples
pub mod Sdk
pub mod Ingestion
pub mod Gateway
pub mod Examples
