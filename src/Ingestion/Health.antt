-- ===== src/Ingestion/Health.antt =====
-- The readings of ingestion/app/stream.py and the ping of ingestion/app/db.py, `healthz` of
-- ingestion/app/api.py, and what `read` and `claim_stale` make of the entries that Redis hands out.
use inferlog.Prelude.{
  ℕ, ◌≡◌, refl, Bool, true, false, ◌&&◌, Option, none, some, List, [], map, ◌==◌, if◌then◌else◌,
  is_some, arith,
}
use inferlog.Prelude.Text.{Text, codes, contains}
use inferlog.Sdk.Parsers.Values.{◌>>=◌}

-- A call of Redis: an answer, a `ResponseError` with its text, or another exception.
pub data RedisReply (A : Type 0) : Type 0 where
  answer : A → RedisReply A
  response_error : Text → RedisReply A
  broken : RedisReply A

-- `EventStream.ping`
unfoldable pub ping_redis : RedisReply Bool → Bool
ping_redis (answer pong) = pong
ping_redis (response_error text) = false
ping_redis broken = false

-- `IngestionDB.ping`: what `SELECT 1` gives, or an exception.
unfoldable pub ping_db : Option ℕ → Bool
ping_db none = false
ping_db (some n) = n == 1

-- `ensure_group`; false is an exception that it lets out.
unfoldable pub ensure_group : RedisReply Unit → Bool
ensure_group (answer done) = true
ensure_group (response_error text) = contains (codes "BUSYGROUP") text
ensure_group broken = false

-- `depth`; `none` is an exception.
unfoldable pub depth : RedisReply ℕ → Option ℕ
depth (answer n) = some n
depth (response_error text) = none
depth broken = none

-- `dlq_depth`
unfoldable pub dlq_depth : RedisReply ℕ → Option ℕ
dlq_depth (answer n) = some n
dlq_depth (response_error text) = some 0
dlq_depth broken = none

-- What XPENDING gives: a dictionary with the count, or a list that begins with it or with None.
pub data PendingInfo : Type 0 where
  by_name : ℕ → PendingInfo
  by_position : Option ℕ → PendingInfo

abbrev pub pending_in : PendingInfo → ℕ
pending_in (by_name n) = n
pending_in (by_position none) = 0
pending_in (by_position (some n)) = n

unfoldable pub pending_count : RedisReply PendingInfo → Option ℕ
pending_count (answer info) = some (pending_in info)
pending_count (response_error text) = some 0
pending_count broken = none

-- `fields.get("data", "")` of each entry, which the worker decodes.
abbrev pub data_or_blank : Option Text → Text
data_or_blank none = []
data_or_blank (some raw) = raw

unfoldable pub raw_messages : List (ℕ × Option Text) → List (ℕ × Text)
raw_messages entries = map (λ e. (e.0, data_or_blank e.1)) entries

-- `read`: no answer within the time is no message.
unfoldable pub read : RedisReply (Option (List (ℕ × Option Text))) → Option (List (ℕ × Text))
unfolding raw_messages
read (answer none) = some []
read (answer (some entries)) = some (raw_messages entries)
read (response_error text) = none
read broken = none

-- `claim_stale`, where the answer of Redis may be too short to have entries.
unfoldable pub claim_stale : RedisReply (Option (List (ℕ × Option Text))) → Option (List (ℕ × Text))
unfolding read
claim_stale reply = read reply

pub record Depths : Type 0 where
  pub stream_depth : ℕ
  pub pending : ℕ
  pub dlq_depth : ℕ

pub record HealthBody : Type 0 where
  pub status : Text
  pub db : Bool
  pub redis : Bool
  pub depths : Option Depths

-- What the calls of `healthz` meet.
pub record Probes : Type 0 where
  pub select_one : Option ℕ
  pub ping : RedisReply Bool
  pub stream_length : RedisReply ℕ
  pub pending : RedisReply PendingInfo
  pub dlq_length : RedisReply ℕ

unfoldable pub depths_of : Probes → Option Depths
unfolding depth pending_count inferlog.Ingestion.Health.dlq_depth
depths_of p = do
  stream_depth ← depth p.stream_length
  pending ← pending_count p.pending
  dlq ← inferlog.Ingestion.Health.dlq_depth p.dlq_length
  some (record { stream_depth = stream_depth; pending = pending; dlq_depth = dlq })

abbrev pub body_of : Bool → Bool → Option Depths → HealthBody
body_of db_ok redis_ok depths = record {
  status = if db_ok && redis_ok then codes "ok" else codes "degraded";
  db = db_ok;
  redis = redis_ok;
  depths = depths;
}

-- `healthz`, from its two pings and the depths; `none` is an exception.
unfoldable pub health_of : Bool → Bool → Option Depths → Option HealthBody
health_of db_ok true none = none
health_of db_ok true (some depths) = some (body_of db_ok true (some depths))
health_of db_ok false depths = some (body_of db_ok false none)

-- `healthz`: the depths are read only if Redis answers its ping, and `health_of` ignores them if not.
unfoldable pub healthz : Probes → Option HealthBody
unfolding ping_db ping_redis depths_of health_of
healthz p = health_of (ping_db p.select_one) (ping_redis p.ping) (depths_of p)

health_of-ok :
    (db_ok redis_ok : Bool) (depths : Option Depths) (body : HealthBody)
    → health_of db_ok redis_ok depths ≡ some body
    → body.status ≡ codes "ok"
    → (db_ok ≡ true) × (redis_ok ≡ true) × (is_some body.depths ≡ true)
unfolding health_of
health_of-ok db_ok true none body e k = ground arith
health_of-ok true true (some d) body e k = ground arith
health_of-ok false true (some d) body e k = ground arith
health_of-ok true false depths body e k = ground arith
health_of-ok false false depths body e k = ground arith

-- `ok` is reported only if both pings succeeded and the three depths were read; and while Redis does
-- not answer its ping, the check still answers, as degraded and without depths.
pub healthz-ok :
    (p : Probes)
    → ((body : HealthBody)
        → healthz p ≡ some body
        → body.status ≡ codes "ok"
        → (ping_db p.select_one ≡ true) × (ping_redis p.ping ≡ true) × (is_some body.depths ≡ true))
      × (ping_redis p.ping ≡ false → healthz p ≡ some (body_of (ping_db p.select_one) false none))
unfolding healthz health_of
healthz-ok p =
    (health_of-ok (ping_db p.select_one) (ping_redis p.ping) (depths_of p), λ e. rw e refl)
