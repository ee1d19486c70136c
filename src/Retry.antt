-- ===== src/Retry.antt =====
-- The single retry owner (provider_runtime/retry.py): the policy, the delay between two attempts,
-- and the iterator `attempts` with the `async for` loop that every call drives it by.
-- The durations of the loop are whole nanoseconds: the rounding of Python's floats is left out. The
-- check of a policy is on floats as they are given.
pub mod Delay
pub mod Loop
pub mod Policy
use llm_calling.Base.{
  ℕ, zero, suc, ◌+◌, ◌-◌, ◌*◌, ◌^◌, Bool, true, false, ◌||◌, Option, none, some, ltb, leb,
  if◌then◌else◌, Result, ok, err, raise_if, ◌>>◌,
}
use llm_calling.Base.Int.{ℤ, pos, negsuc, leb_ℤ}
use llm_calling.Contract.{Presence, Defect, assertion_error, value_error}
use llm_calling.Contract.Outcome.{
  TransientCause, provider_rate_limit, provider_timeout, provider_http_unavailable,
  transport_unavailable, provider_stream_interrupted,
}
use llm_calling.Json.{Float, finite, infinity, nan}

-- A policy as the loop reads it, with whole nanoseconds: no NaN and no infinity.
pub record RetryPolicy : Type 0 where
  pub max_attempts : ℕ
  pub initial_delay : ℕ
  pub max_delay : ℕ
  pub jitter : ℕ
  pub deadline : Presence ℕ

-- `RetryPolicy(...)`: the fields as they are given, with any float.
pub record PolicyFields : Type 0 where
  pub max_attempts : ℤ
  pub initial_delay : Float
  pub max_delay : Float
  pub jitter : Float
  pub deadline : Presence Float

-- `x < 0`, which no NaN is.
abbrev pub below_zero : Float → Bool
below_zero (finite (pos _) e) = false
below_zero (finite (negsuc _) e) = true
below_zero (infinity negative) = negative
below_zero nan = false

-- `x <= 0`
abbrev pub at_most_zero : Float → Bool
at_most_zero (finite (pos zero) e) = true
at_most_zero (finite (pos (suc _)) e) = false
at_most_zero (finite (negsuc _) e) = true
at_most_zero (infinity negative) = negative
at_most_zero nan = false

abbrev pub bad_deadline : Presence Float → Bool
bad_deadline none = false
bad_deadline (some d) = at_most_zero d

-- `__post_init__`, in the order of its checks.
unfoldable pub retry_policy : PolicyFields → Result Defect PolicyFields
retry_policy p = do
  raise_if (leb_ℤ p.max_attempts (pos 0)) value_error
  raise_if (below_zero p.initial_delay) value_error
  raise_if (below_zero p.max_delay) value_error
  raise_if (below_zero p.jitter) value_error
  raise_if (bad_deadline p.deadline) value_error
  ok p

abbrev pub second : ℕ
second = 1_000_000_000

abbrev pub retry_after_cap : ℕ
retry_after_cap = 60 * second

abbrev pub default_retry : RetryPolicy
default_retry = record {
  max_attempts = 3;
  initial_delay = second;
  max_delay = 8 * second;
  jitter = 250_000_000;
  deadline = some (120 * second);
}

-- A provider asks for a longer wait than is ever honoured.
unfoldable pub exceeds_retry_after_cap : TransientCause → Bool
exceeds_retry_after_cap (provider_rate_limit (some after)) = ltb retry_after_cap after
exceeds_retry_after_cap (provider_rate_limit none) = false
exceeds_retry_after_cap provider_timeout = false
exceeds_retry_after_cap provider_http_unavailable = false
exceeds_retry_after_cap transport_unavailable = false
exceeds_retry_after_cap (provider_stream_interrupted _) = false

-- The exponential curve; `uniform` is what `rng.uniform(0, jitter)` returned.
unfoldable pub backoff : RetryPolicy → ℕ → ℕ → ℕ
backoff policy attempt uniform =
    let delay = policy.initial_delay * 2 ^ (attempt - 1) in
    let jittered = if ltb 0 policy.jitter then delay + uniform else delay in
    if ltb policy.max_delay jittered then policy.max_delay else jittered

-- `_delay_s`: a stated window is honoured verbatim.
unfoldable pub delay : RetryPolicy → ℕ → TransientCause → ℕ → ℕ
delay policy attempt (provider_rate_limit (some after)) uniform = after
delay policy attempt (provider_rate_limit none) uniform = backoff policy attempt uniform
delay policy attempt provider_timeout uniform = backoff policy attempt uniform
delay policy attempt provider_http_unavailable uniform = backoff policy attempt uniform
delay policy attempt transport_unavailable uniform = backoff policy attempt uniform
delay policy attempt (provider_stream_interrupted _) uniform = backoff policy attempt uniform

unfoldable pub deadline_exhausted : ℕ → RetryPolicy → ℕ → Bool
deadline_exhausted elapsed policy pause = elim policy.deadline [
  | some deadline ↦ ltb deadline (elapsed + pause)
  | none ↦ false
]

-- What the iterator does when it is advanced.
pub data Advance : Type 0 where
  stop : Advance
  sleep_then : ℕ → Advance

-- The body of the generator below its `yield`: `failure` is the mark on the handle.
unfoldable pub advance : RetryPolicy → ℕ → Option TransientCause → ℕ → ℕ → Result Defect Advance
advance policy number none uniform elapsed = err assertion_error
advance policy number (some cause) uniform elapsed =
    let pause = delay policy number cause uniform in
    if exceeds_retry_after_cap cause
    then ok stop
    else if leb policy.max_attempts number || deadline_exhausted elapsed policy pause
    then ok stop
    else ok (sleep_then pause)

-- What the generator asks of its surroundings: the random number at each attempt, and the time
-- since the start, which depends on the attempt and on the time slept so far.
pub record Timing : Type 0 where
  pub uniform : ℕ → ℕ
  pub elapsed : ℕ → ℕ → ℕ

-- How one round of the loop's body ends: by `return`, by an exception, or by going on to the next
-- round with the handle's mark.
pub data Step (S R : Type 0) : Type 0 where
  finish : R → Step S R
  raise : Defect → Step S R
  next : Option TransientCause → S → Step S R

pub data Ending (S R : Type 0) : Type 0 where
  returned : R → Ending S R
  raised : Defect → Ending S R
  exhausted : S → Ending S R

-- A whole loop: how it ended, the number of handles that were yielded, and the time slept.
pub record Run (S R : Type 0) : Type 0 where
  pub ending : Ending S R
  pub tries : ℕ
  pub slept : ℕ

-- The loop goes on after a pause, or it is over.
pub data Verdict (S R : Type 0) : Type 0 where
  over : Ending S R → Verdict S R
  again : (pause : ℕ) → S → Verdict S R

module _ {S R : Type 0} where
  abbrev pub judge : S → Result Defect Advance → Verdict S R
  judge s (err d) = over (raised d)
  judge s (ok stop) = over (exhausted s)
  judge s (ok (sleep_then pause)) = again pause s

  -- What follows one round of the body.
  unfoldable pub verdict : RetryPolicy → (number uniform elapsed : ℕ) → Step S R → Verdict S R
  verdict policy number uniform elapsed (finish r) = over (returned r)
  verdict policy number uniform elapsed (raise d) = over (raised d)
  verdict policy number uniform elapsed (next mark s) =
      judge s (advance policy number mark uniform elapsed)

  abbrev pub continue_with : Verdict S R → (tries slept : ℕ) → (ℕ → S → Run S R) → Run S R
  continue_with (over e) tries slept go = record { ending = e; tries = tries; slept = slept }
  continue_with (again pause s) tries slept go = go pause s

module _ {S R : Type 0} (policy : RetryPolicy) (timing : Timing) (body : ℕ → S → Step S R) where
  -- `async for handle in attempts(policy): body`, from attempt `number` with `left` rounds of the
  -- generator's `range` to go.
  unfoldable pub drive_from : (left number tries slept : ℕ) → S → Run S R
  drive_from zero number tries slept s = record {
    ending = exhausted s;
    tries = tries;
    slept = slept;
  }
  drive_from (suc left) number tries slept s =
      continue_with
        (verdict policy number (timing.uniform number) (timing.elapsed number slept)
          (body number s))
        (suc tries) slept (λ pause s'. drive_from left (suc number) (suc tries) (slept + pause) s')

  unfoldable pub drive : S → Run S R
  drive s = drive_from policy.max_attempts 1 0 0 s
