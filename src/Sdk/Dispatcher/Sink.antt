-- ===== src/Sdk/Dispatcher/Sink.antt =====
-- `HttpSink.send` and `_parse_retry_after`: how an HTTP outcome becomes a delivery outcome.
use inferlog.Prelude.{
  ℕ, ◌≡◌, Bool, not, ◌↔◌, ◌&&◌, ◌||◌, Option, none, some, [], ◌∷◌, ltb, leb, ◌==◌, if◌then◌else◌,
  arith, ◌≤◌, ◌<◌,
}
use inferlog.Prelude.Text.{Text, codes, text_eq}

-- How a `send` of the sink ends: it returns, or raises `TransientDeliveryError` with its
-- `retry_after`, or raises any other exception.
pub data Reply : Type 0 where
  sent : Reply
  transient : Option ℕ → Reply
  failed : Reply

-- How the POST of the HTTP client ends: `httpx.TransportError`, another exception, or a response
-- with its status code and its `Retry-After` header.
pub data Posted : Type 0 where
  transport_error : Posted
  other_error : Posted
  response : ℕ → Option Text → Posted

-- A response with a code from 200 to 299.
abbrev pub IsAccepted : Posted → Type 0
IsAccepted (response code h) = (200 ≤ code) × (code < 300)
IsAccepted _ = ⊥

-- What is not under this repository: `float(header)` in milliseconds, for the headers that Python's
-- `float` reads, and the status codes at which httpx's `raise_for_status` raises.
module _ (parse_float : Text → Option ℕ) (raises : ℕ → Bool) where
  unfoldable pub parse_retry_after : Option Text → Option ℕ
  parse_retry_after none = none
  parse_retry_after (some []) = none
  parse_retry_after (some (c ∷ header)) = elim (parse_float (c ∷ header)) [
    | some seconds ↦ some seconds
    | none ↦ some 30000
  ]

  unfoldable pub send : Posted → Reply
  unfolding parse_retry_after
  send transport_error = transient none
  send other_error = failed
  send (response code retry_after) =
      if code == 429 || code == 503
      then transient (parse_retry_after retry_after)
      else if leb 500 code && ltb code 600
      then transient none
      else if raises code
      then failed
      else sent

  -- Where `raise_for_status` raises outside 200 to 299 and only there, a POST counts as sent exactly
  -- when a response with such a code came.
  pub send-sent_iff :
      (outside : (code : ℕ) → raises code ≡ not (leb 200 code && ltb code 300)) (r : Posted)
      → (send r ≡ sent) ↔ IsAccepted r
  unfolding send
  send-sent_iff outside transport_error = ((λ h. cc), (λ h. absurd h))
  send-sent_iff outside other_error = ((λ h. cc), (λ h. absurd h))
  send-sent_iff outside (response code h) =
      (ground (arith, outside code), ground (arith, outside code))

-- The authentication header that `HttpSink.__init__` sets, or the `ValueError` of an unknown scheme.
pub data AuthHeader : Type 0 where
  no_auth : AuthHeader
  x_api_key : Text → AuthHeader
  bearer : Text → AuthHeader
  unknown_scheme : AuthHeader

unfoldable pub auth_header : Option Text → Text → AuthHeader
auth_header none scheme = no_auth
auth_header (some []) scheme = no_auth
auth_header (some (c ∷ key)) scheme =
    if text_eq scheme (codes "x-api-key")
    then x_api_key (c ∷ key)
    else if text_eq scheme (codes "bearer")
    then bearer (c ∷ key)
    else unknown_scheme
