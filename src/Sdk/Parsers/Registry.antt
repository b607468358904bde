-- ===== src/Sdk/Parsers/Registry.antt =====
-- `HANDLERS`, `add_handler`, and `_identify` of sdk/inferlog/auto.py.
use inferlog.Prelude.{
  ℕ, suc, ◌-◌, ◌≡◌, refl, Bool, true, false, Option, none, some, List, [], ◌∷◌, ◌++◌, arith, take,
  drop, length, ◌≢◌, ◌∙◌, sym, ap, take-append-drop,
}
use mathlib.Core.Option
use inferlog.Prelude.Int.{ℤ, pos, negsuc}
use inferlog.Prelude.Json.{or_else}
use inferlog.Prelude.Python.{Python}
use inferlog.Prelude.Text.{Text, codes, contains, ends_with}
use inferlog.Sdk.Parsers.Requests.{
  Request, RequestMeta, is_post, openai_matches, anthropic_matches, ollama_matches,
  compatible_matches, parse_chat_request, parse_ollama_request,
}
use inferlog.Sdk.Parsers.Responses.{
  ResponseMeta, parse_openai_response, parse_anthropic_response, parse_ollama_response,
}
use inferlog.Sdk.Runtime.{Exc}
use inferlog.Sdk.Parsers.Streams.Lines.{Format}
use inferlog.Sdk.Parsers.Streams.Feed.{StreamParser, AfterFeed, feed}

-- A `ProviderHandler`; `none` is an exception. `make_stream_parser` is the exception that the method
-- raises, or `none` where it returns a parser, and `feed` is that of the parser.
pub record Handler : Type 0 where
  pub name : Text
  pub matches : Request → Option Bool
  pub parse_request : Request → Option RequestMeta
  pub parse_response : Text → Option ResponseMeta
  pub make_stream_parser : Option Exc
  pub feed : Text → StreamParser → AfterFeed

module _ (py : Python) where
  abbrev pub openai_handler : Handler
  openai_handler = record {
    name = codes "openai";
    matches = λ r. some (openai_matches r);
    parse_request = parse_chat_request py;
    parse_response = parse_openai_response py;
    make_stream_parser = none;
    feed = feed py Format.openai;
  }

  abbrev pub anthropic_handler : Handler
  anthropic_handler = record {
    name = codes "anthropic";
    matches = λ r. some (anthropic_matches r);
    parse_request = parse_chat_request py;
    parse_response = parse_anthropic_response py;
    make_stream_parser = none;
    feed = feed py Format.anthropic;
  }

  abbrev pub ollama_handler : Handler
  ollama_handler = record {
    name = codes "ollama";
    matches = λ r. some (ollama_matches r);
    parse_request = parse_ollama_request py;
    parse_response = parse_ollama_response py;
    make_stream_parser = none;
    feed = feed py Format.ollama;
  }

  abbrev pub compatible_handler : Handler
  compatible_handler = record openai_handler {
    name = codes "openai_compatible";
    matches = λ r. some (compatible_matches r);
  }

  abbrev pub default_handlers : List Handler
  default_handlers = openai_handler ∷ anthropic_handler ∷ ollama_handler ∷ compatible_handler ∷ []

-- `HANDLERS.insert(position, handler)`: a negative position counts from the end, and a position out
-- of range is the nearer end.
unfoldable pub add_handler : Handler → ℤ → List Handler → List Handler
add_handler h (pos n) handlers = take n handlers ++ h ∷ drop n handlers
add_handler h (negsuc n) handlers =
    let at = length handlers - suc n in take at handlers ++ h ∷ drop at handlers

-- A handler whose `matches` raises is passed over.
unfoldable pub identify : List Handler → Request → Option Handler
identify [] r = none
identify (h ∷ handlers) r =
    let rest = identify handlers r in
    elim (h.matches r) [ some true ↦ some h | some false ↦ rest | none ↦ rest ]

identify-append :
    (hs ks : List Handler) (r : Request)
    → identify (hs ++ ks) r ≡ or_else (identify hs r) (identify ks r)
unfolding identify
identify-append [] ks r = refl
identify-append (h ∷ hs) ks r = ground (arith, identify-append hs ks r)

identify_absent :
    (h : Handler) (hs : List Handler) (r : Request)
    → h.matches r ≢ some true
    → identify (h ∷ hs) r ≡ identify hs r
unfolding identify
identify_absent h hs r n = ground arith

identify-insert :
    (h : Handler) (n : ℕ) (hs : List Handler) (r : Request)
    → h.matches r ≢ some true
    → identify (take n hs ++ h ∷ drop n hs) r ≡ identify hs r
identify-insert h n hs r differs =
    identify-append (take n hs) (h ∷ drop n hs) r
    ∙ ap (or_else (identify (take n hs) r)) (identify_absent h (drop n hs) r differs)
    ∙ sym (identify-append (take n hs) (drop n hs) r)
    ∙ ap (λ l. identify l r) (take-append-drop n hs)

-- At whatever position a customer registers a handler, a request that the handler does not match,
-- or at which its `matches` raises, is identified as before; and at the default position 0 every
-- request that it matches is given to it.
pub identify-add_handler :
    (h : Handler) (hs : List Handler) (r : Request)
    → ((position : ℤ)
        → h.matches r ≢ some true
        → identify (add_handler h position hs) r ≡ identify hs r)
      × (h.matches r ≡ some true → identify (add_handler h (pos 0) hs) r ≡ some h)
unfolding add_handler
identify-add_handler h hs r = (others, λ e. ground_self e)
  where
    others :
        (position : ℤ)
        → h.matches r ≢ some true
        → identify (add_handler h position hs) r ≡ identify hs r
    others (pos n) differs = identify-insert h n hs r differs
    others (negsuc n) differs = identify-insert h (length hs - suc n) hs r differs

    ground_self : h.matches r ≡ some true → identify (h ∷ hs) r ≡ some h
    ground_self e = unfold identify in ground arith

-- With the built-in handlers: what is no POST is never captured; a host of openai.com is never given
-- to the OpenAI-compatible handler; and a
-- path that ends with /chat/completions is captured on every host but Anthropic's.
pub identify-default :
    (py : Python) (r : Request)
    → (is_post r ≡ false → identify (default_handlers py) r ≡ none)
      × (contains (codes "openai.com") r.host ≡ true
          → Option.map (λ h. h.name) (identify (default_handlers py) r)
            ≢ some (codes "openai_compatible"))
      × (is_post r ≡ true
          → ends_with (codes "/chat/completions") r.path ≡ true
          → contains (codes "anthropic") r.host ≡ false
          → identify (default_handlers py) r ≢ none)
unfolding identify openai_matches anthropic_matches ollama_matches compatible_matches
identify-default py r = (ground arith, ground arith, ground arith)
