-- ===== src/Sdk/Sampling.antt =====
-- sdk/inferlog/sampling.py: which events are shipped.
--
-- `random.random()` is k / 2^53 for some k below 2^53. A rate is kept in units of 2^-53, rounded up,
-- which leaves `random.random() < rate` and `rate >= 1.0` as they are.
use inferlog.Prelude.{
  ℕ, ◌^◌, ◌≤◌, ◌<◌, ◌≡◌, Bool, true, false, ◌||◌, Option, none, some, leb, ltb, if◌then◌else◌,
  arith,
}
use inferlog.Prelude.Int.{ℤ, pos, negsuc}
use inferlog.Sdk.Events.{InferenceEvent, success, error, cancelled}

abbrev pub one : ℕ
one = 2 ^ 53

-- The samplers of the module; a custom callable returns a Boolean, or `none` for an exception.
pub data Sampler : Type 0 where
  keep_all : Sampler
  probability : ℕ → Sampler
  always_keep_errors : Sampler → Sampler
  custom : (InferenceEvent → Option Bool) → Sampler

-- `Probability.__init__`; `none` is the `ValueError`.
unfoldable pub make_probability : ℤ → Option Sampler
make_probability (pos rate) = if leb rate one then some (probability rate) else none
make_probability (negsuc n) = none

-- `should_sample`, where `draw` is what `random.random()` returns if it is called.
unfoldable pub should_sample : Sampler → ℕ → InferenceEvent → Bool
should_sample keep_all draw event = true
should_sample (probability rate) draw event = leb one rate || ltb draw rate
should_sample (always_keep_errors inner) draw event =
    let kept = should_sample inner draw event in
    elim event.status [ error ↦ true | cancelled ↦ true | success ↦ kept ]
should_sample (custom fn) draw event = elim (fn event) [ some b ↦ b | none ↦ true ]

-- Under `AlwaysKeepErrors` every error and cancellation is kept, whatever the inner sampler and the
-- draw, and a success is kept exactly as the inner sampler keeps it.
pub should_sample-always_keep_errors :
    (inner : Sampler) (draw : ℕ) (event : InferenceEvent)
    → (event.status ≡ error → should_sample (always_keep_errors inner) draw event ≡ true)
      × (event.status ≡ cancelled → should_sample (always_keep_errors inner) draw event ≡ true)
      × (event.status ≡ success
          → should_sample (always_keep_errors inner) draw event ≡ should_sample inner draw event)
unfolding should_sample
should_sample-always_keep_errors inner draw event = ((λ h. rw h), (λ h. rw h), (λ h. rw h))

-- For every rate that `Probability` accepts: at rate 1 every event is kept, at rate 0 none, and an
-- event that a rate keeps is kept at every higher rate too, under the same draw.
pub probability_monotone :
    (rate rate' : ℕ) (s s' : Sampler) (draw : ℕ) (event : InferenceEvent)
    → make_probability (pos rate) ≡ some s
    → make_probability (pos rate') ≡ some s'
    → draw < one
    → (rate ≡ one → should_sample s draw event ≡ true)
      × (rate ≡ 0 → should_sample s draw event ≡ false)
      × (rate ≤ rate' → should_sample s draw event ≡ true → should_sample s' draw event ≡ true)
unfolding make_probability should_sample
probability_monotone rate rate' s s' draw event e e' d = (ground arith, ground arith, ground arith)
