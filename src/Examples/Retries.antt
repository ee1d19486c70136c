-- ===== src/Examples/Retries.antt =====
-- The retry loop at the default policy.
use llm_calling.Base.{ℕ, suc, ◌+◌, ◌*◌, ◌≤◌, ◌≡◌, refl, ◌↔◌, some, arith, ok}
use llm_calling.Base.Int.{pos, negsuc}
use llm_calling.Contract.Outcome.{provider_rate_limit, provider_timeout}
use llm_calling.Examples.{quick}
use llm_calling.Json.{finite, nan}
use llm_calling.Retry.{
  PolicyFields, retry_policy, second, default_retry, exceeds_retry_after_cap, delay,
  deadline_exhausted, advance, Step, next, drive,
}
use llm_calling.Retry.Delay.{MaySleep, advance-MaySleep, Honours, advance-rate_limit}
use llm_calling.Retry.Loop.{drive-slept}
use llm_calling.Retry.Policy.{IsPolicy, retry_policy-ok_iff}

abbrev failing : ℕ → ℕ → Step ℕ ℕ
failing n s = next (some provider_timeout) (suc s)

drive-slept_example : (drive default_retry quick failing 0).slept ≤ 120 * second
drive-slept_example =
    drive-slept default_retry quick failing (120 * second) 0 refl (λ n k. omega arith)

advance-MaySleep_example : MaySleep default_retry 1 (provider_rate_limit (some 5)) 0 5
unfolding advance delay exceeds_retry_after_cap deadline_exhausted
advance-MaySleep_example =
    advance-MaySleep default_retry 1 0 0 5 (provider_rate_limit (some 5)) refl

advance-rate_limit_example : Honours default_retry 2 (second + 5) 0 second
advance-rate_limit_example = advance-rate_limit default_retry 2 (second + 5) 0 second

-- A deadline that is no number is taken.
abbrev no_deadline : PolicyFields
no_deadline = record {
  max_attempts = pos 3;
  initial_delay = finite (pos 1) (pos 0);
  max_delay = finite (pos 1) (pos 3);
  jitter = finite (pos 1) (negsuc 1);
  deadline = some nan;
}

no_deadline_accepted : retry_policy no_deadline ≡ ok no_deadline
unfolding retry_policy
no_deadline_accepted = refl

retry_policy-ok_iff_example : (retry_policy no_deadline ≡ ok no_deadline) ↔ IsPolicy no_deadline
retry_policy-ok_iff_example = retry_policy-ok_iff no_deadline
