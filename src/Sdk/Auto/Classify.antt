-- ===== src/Sdk/Auto/Classify.antt =====
-- `_classify_error` and `_classify_status`.
use inferlog.Prelude.{ℕ, ◌≤◌, ◌<◌, ◌≡◌, ◌≢◌, ◌↔◌, ◌&&◌, ◌||◌, ◌==◌, leb, ltb, if◌then◌else◌, arith}
use inferlog.Prelude.Text.{Text, codes, contains, lower}
use inferlog.Sdk.Runtime.{Exc}

-- The stable labels of errors.
pub data ErrorType : Type 0 where
  rate_limit timeout auth connection invalid_request provider_error : ErrorType

abbrev pub label : ErrorType → Text
label rate_limit = codes "rate_limit"
label timeout = codes "timeout"
label auth = codes "auth"
label connection = codes "connection"
label invalid_request = codes "invalid_request"
label provider_error = codes "provider_error"

unfoldable pub classify_error : Exc → ErrorType
classify_error exc =
    let name = lower exc.type_name in
    if contains (codes "ratelimit") name
    then rate_limit
    else if contains (codes "timeout") name
    then timeout
    else if contains (codes "auth") name || contains (codes "permission") name
    then auth
    else if contains (codes "connect") name
    then connection
    else provider_error

unfoldable pub classify_status : ℕ → ErrorType
classify_status code =
    if code == 401 || code == 403
    then auth
    else if code == 429
    then rate_limit
    else if code == 408 || code == 504
    then timeout
    else if leb 400 code && ltb code 500
    then invalid_request
    else provider_error

-- Of the statuses that count as errors (400 and more), exactly those from 500 on but 504 are the
-- provider's fault, and exactly those from 400 to 499 but 401, 403, 408 and 429 the request's.
pub classify_status_cases :
    (code : ℕ)
    → 400 ≤ code
    → ((classify_status code ≡ provider_error) ↔ ((500 ≤ code) × (code ≢ 504)))
      × ((classify_status code ≡ invalid_request)
          ↔ ((code < 500) × (code ≢ 401) × (code ≢ 403) × (code ≢ 408) × (code ≢ 429)))
unfolding classify_status
classify_status_cases code h = ((ground arith, ground arith), (ground arith, ground arith))
