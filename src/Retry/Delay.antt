-- ===== src/Retry/Delay.antt =====
-- When the iterator sleeps, and for how long.
use native.Mathlib.Nat.{pow-suc}
use llm_calling.Base.{
  ℕ, suc, ◌+◌, ◌-◌, ◌*◌, ◌^◌, ◌≤◌, ◌<◌, ◌≡◌, ◌⊎◌, inl, inr, some, arith, ltb, leb, if◌then◌else◌,
  Bool-cases, Option-cases, ok,
}
use llm_calling.Contract.Outcome.{TransientCause, provider_rate_limit}
use llm_calling.Retry.{
  RetryPolicy, retry_after_cap, exceeds_retry_after_cap, backoff, delay, deadline_exhausted, stop,
  sleep_then, advance,
}

-- The conditions of a pause: an attempt is left, the pause ends by the deadline, and it is a window
-- stated by the provider of at most 60 s, or else at most the policy's maximum.
pub record MaySleep (policy : RetryPolicy) (number : ℕ) (cause : TransientCause) (elapsed pause : ℕ)
    : Type 0 where
  pub attempt_left : number < policy.max_attempts
  pub in_time : (deadline : ℕ) → policy.deadline ≡ some deadline → elapsed + pause ≤ deadline
  pub length_bound :
      ((cause ≡ provider_rate_limit (some pause)) × (pause ≤ retry_after_cap))
      ⊎ (pause ≤ policy.max_delay)

backoff-le :
    (policy : RetryPolicy) (attempt uniform : ℕ) → backoff policy attempt uniform ≤ policy.max_delay
unfolding backoff
backoff-le policy attempt uniform = capped policy.max_delay (
    if ltb 0 policy.jitter
    then policy.initial_delay * 2 ^ (attempt - 1) + uniform
    else policy.initial_delay * 2 ^ (attempt - 1))
  where
    capped : (m j : ℕ) → (if ltb m j then m else j) ≤ m
    capped m j = ground arith

module _ (policy : RetryPolicy) (number uniform elapsed pause : ℕ) where
  -- After a marked failure, the iterator sleeps only if an attempt is left, only if the pause ends by
  -- the deadline, and for a time that is a window stated by the provider of at most 60 s, or else at
  -- most the policy's maximum.
  pub advance-MaySleep :
      (cause : TransientCause)
      → advance policy number (some cause) uniform elapsed ≡ ok (sleep_then pause)
      → MaySleep policy number cause elapsed pause
  unfolding advance delay exceeds_retry_after_cap deadline_exhausted
  advance-MaySleep (provider_rate_limit (some after)) h = record {
    attempt_left = ground arith;
    in_time = λ deadline e. ground arith;
    length_bound = inl (ground arith, ground arith);
  }
  advance-MaySleep cause h = record {
    attempt_left = ground arith;
    in_time = λ deadline e. ground arith;
    length_bound = inr (ground (arith, backoff-le policy number uniform));
  }

-- What the iterator does about a window that the provider states: it sleeps for it, or it ends.
abbrev pub Honours : RetryPolicy → (number after uniform elapsed : ℕ) → Type 0
Honours policy number after uniform elapsed =
    ((number < policy.max_attempts)
      × (after ≤ retry_after_cap)
      × ((deadline : ℕ) → policy.deadline ≡ some deadline → elapsed + after ≤ deadline)
      × (advance policy number (some (provider_rate_limit (some after))) uniform elapsed
          ≡ ok (sleep_then after)))
    ⊎ (((policy.max_attempts ≤ number)
          ⊎ (retry_after_cap < after)
          ⊎ ((deadline : ℕ) × (policy.deadline ≡ some deadline) × (deadline < elapsed + after)))
        × (advance policy number (some (provider_rate_limit (some after))) uniform elapsed
            ≡ ok stop))

-- A window that the provider states is slept verbatim if an attempt is left, the window is at most
-- 60 s, and it ends by the deadline where there is one; otherwise the iteration ends.
pub advance-rate_limit :
    (policy : RetryPolicy) (number after uniform elapsed : ℕ)
    → Honours policy number after uniform elapsed
unfolding advance delay exceeds_retry_after_cap deadline_exhausted
advance-rate_limit policy number after uniform elapsed =
    elim (Bool-cases (ltb retry_after_cap after)) [
      | inl long ↦ inr (inr (inl (ground arith)), ground arith)
      | inr short ↦ elim (Bool-cases (leb policy.max_attempts number)) [
        | inl last ↦ inr (inl (ground arith), ground arith)
        | inr left ↦ elim (Option-cases policy.deadline) [
          | inl free ↦ inl (ground arith, ground arith, (λ l e. ground arith), ground arith)
          | inr (l, e) ↦ elim (Bool-cases (ltb l (elapsed + after))) [
            | inl late ↦ inr (inr (inr (l, e, ground arith)), ground arith)
            | inr early ↦ inl (ground arith, ground arith, (λ l' e'. ground arith), ground arith)
          ]
        ]
      ]
    ]

-- With the same random number, a later attempt waits no shorter on the exponential curve.
pub backoff_mono :
    (policy : RetryPolicy) (attempt uniform : ℕ)
    → backoff policy (suc attempt) uniform ≤ backoff policy (suc (suc attempt)) uniform
unfolding backoff
backoff_mono policy attempt uniform =
    grow policy.max_delay policy.jitter (policy.initial_delay * 2 ^ (suc attempt - 1))
      (policy.initial_delay * 2 ^ (suc (suc attempt) - 1)) doubled
  where
    doubled :
        policy.initial_delay * 2 ^ (suc attempt - 1)
        ≤ policy.initial_delay * 2 ^ (suc (suc attempt) - 1)
    doubled = grind (arith, pow-suc 2 attempt)

    grow :
        (m j a b : ℕ)
        → a ≤ b
        → (if ltb m (if ltb 0 j then a + uniform else a)
            then m
            else (if ltb 0 j then a + uniform else a))
          ≤ (if ltb m (if ltb 0 j then b + uniform else b)
              then m
              else (if ltb 0 j then b + uniform else b))
    grow m j a b h = ground arith
