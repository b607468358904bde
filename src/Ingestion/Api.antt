-- ===== src/Ingestion/Api.antt =====
-- ingestion/app/api.py: who is let in. The headers are the ones that `HttpSink` sets.
use inferlog.Prelude.{
  ℕ, ◌≡◌, ◌⊎◌, ◌↔◌, inl, inr, Bool, true, false, ◌&&◌, Option, none, some, [], ◌∷◌, ◌++◌,
  if◌then◌else◌, ltb, arith,
}
use inferlog.Prelude.Text.{Text, codes, text_eq, text_eq_iff, is_space, strip_left, strip, lower}
use inferlog.Sdk.Dispatcher.Sink.{AuthHeader, auth_header}

pub data Access : Type 0 where
  granted : Access
  denied : Access
  crashed : Access

-- The text up to the first white space, and the rest from there on.
unfoldable pub split_word : Text → Text × Text
unfolding is_space
split_word [] = ([], [])
split_word (c ∷ s) =
    let (word, rest) = split_word s in if is_space c then ([], c ∷ s) else (c ∷ word, rest)

-- `parts` has two members if something is left behind the first word.
unfoldable pub token_of : Text → Text → Text
token_of scheme [] = []
token_of scheme (c ∷ t) = if text_eq (lower scheme) (codes "bearer") then strip (c ∷ t) else []

unfoldable pub extract_bearer : Text → Text
unfolding split_word token_of strip_left
extract_bearer authorization =
    let (scheme, rest) = split_word (strip_left is_space authorization) in
    token_of scheme (strip_left is_space rest)

-- `x_api_key or _extract_bearer(authorization)`
unfoldable pub candidate_of : Text → Text → Text
candidate_of [] authorization = extract_bearer authorization
candidate_of (c ∷ key) authorization = c ∷ key

-- `hmac.compare_digest` on two texts is a parameter: it raises (`none`) on what is not ASCII.
module _ (compare_digest : Text → Text → Option Bool) where
  unfoldable pub check_candidate : Text → Text → Access
  check_candidate expected [] = denied
  check_candidate expected (c ∷ key) = elim (compare_digest (c ∷ key) expected) [
    | none ↦ crashed
    | some true ↦ granted
    | some false ↦ denied
  ]

  unfoldable pub require_api_key : Text → Text → Text → Access
  require_api_key expected x_api_key authorization =
      check_candidate expected (candidate_of x_api_key authorization)

abbrev pub is_ascii : Text → Bool
is_ascii [] = true
is_ascii (c ∷ t) = ltb c 128 && is_ascii t

-- The values of the headers `x-api-key` and `Authorization` that the SDK sends.
abbrev pub sent_headers : AuthHeader → Text × Text
sent_headers (AuthHeader.x_api_key key) = (key, [])
sent_headers (AuthHeader.bearer key) = ([], codes "Bearer " ++ key)
sent_headers _ = ([], [])

extract_bearer-codes :
    (c : ℕ) (key : Text)
    → strip_left is_space (c ∷ key) ≡ c ∷ key
    → strip (c ∷ key) ≡ c ∷ key
    → extract_bearer (codes "Bearer " ++ c ∷ key) ≡ c ∷ key
unfolding extract_bearer split_word token_of lower text_eq
extract_bearer-codes c key h k = rw h k

check_candidate_iff :
    (compare_digest : Text → Text → Option Bool) (c : ℕ) (key expected : Text)
    → compare_digest (c ∷ key) expected ≡ some (text_eq (c ∷ key) expected)
    → (check_candidate compare_digest expected (c ∷ key) ≡ Access.granted) ↔ (c ∷ key ≡ expected)
unfolding check_candidate
check_candidate_iff compare_digest c key expected d = ground (arith, text_eq_iff (c ∷ key) expected)

-- The service lets a client in exactly if its key is the expected one, with both schemes that the SDK
-- offers, where both keys are ASCII and the client's key does not begin or end with white space.
pub require_api_key-auth_header :
    (compare_digest : Text → Text → Option Bool)
    (documented : (a b : Text)
      → is_ascii a ≡ true
      → is_ascii b ≡ true
      → compare_digest a b ≡ some (text_eq a b))
    (c : ℕ) (key scheme expected : Text)
    → is_ascii (c ∷ key) ≡ true
    → is_ascii expected ≡ true
    → strip_left is_space (c ∷ key) ≡ c ∷ key
    → strip (c ∷ key) ≡ c ∷ key
    → (scheme ≡ codes "x-api-key") ⊎ (scheme ≡ codes "bearer")
    → let (x, authorization) = sent_headers (auth_header (some (c ∷ key)) scheme) in
      (require_api_key compare_digest expected x authorization ≡ Access.granted)
      ↔ (c ∷ key ≡ expected)
unfolding require_api_key candidate_of auth_header text_eq
require_api_key-auth_header compare_digest documented c key scheme expected a b h k (inl e) =
    rw e (check_candidate_iff compare_digest c key expected (documented (c ∷ key) expected a b))
require_api_key-auth_header compare_digest documented c key scheme expected a b h k (inr e) =
    rw (e, extract_bearer-codes c key h k)
      (check_candidate_iff compare_digest c key expected (documented (c ∷ key) expected a b))
