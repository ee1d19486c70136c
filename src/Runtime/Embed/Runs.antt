-- ===== src/Runtime/Embed/Runs.antt =====
-- How a call of `embed` goes on, attempt by attempt, and how it ends.
use llm_calling.Base.{ℕ, zero, suc, ◌+◌, ◌≤◌, ◌<◌, ◌≡◌, refl, some, arith, Result, ok, err}
use llm_calling.Contract.{Defect}
use llm_calling.Contract.Outcome.{TransientCause}
use llm_calling.Retry.{
  RetryPolicy, Advance, stop, sleep_then, advance, Timing, Run, judge, verdict, continue_with,
  drive_from, drive,
}
use llm_calling.Retry.Delay.{advance-MaySleep}
use llm_calling.Retry.Loop.{advance-ne-err}
use llm_calling.Runtime.{TransientAttempt}
use llm_calling.Runtime.Embed.{
  EmbedReply, embedded, context_too_large, embed_fails, embed_raises, EmbedEnd, embedding_response,
  call_too_large, call_exhausted, EmbedState, embed_settle, embed_round, conclude_embed, embed,
}

module _ {A : Type 0} (policy : RetryPolicy) (timing : Timing) (reply : ℕ → EmbedReply A) where
  -- What the iterator does after attempt `n` has failed, `slept` after the pauses so far.
  abbrev pub After : (n slept : ℕ) → TransientCause → Advance → Type 0
  After n slept cause step =
      advance policy n (some cause) (timing.uniform n) (timing.elapsed n slept) ≡ ok step

  -- A call, from attempt `n` on, that ends with `r`.
  pub data IsRun : (n slept : ℕ) → Result Defect (EmbedEnd A) → Type 0 where
    responds :
        (n slept : ℕ) (a : A) → reply n ≡ embedded a → IsRun n slept (ok (embedding_response a))
    overflows : (n slept : ℕ) → reply n ≡ context_too_large → IsRun n slept (ok call_too_large)
    breaks_off : (n slept : ℕ) (d : Defect) → reply n ≡ embed_raises d → IsRun n slept (err d)
    gives_up :
        (n slept : ℕ) (failure : TransientAttempt)
        → reply n ≡ embed_fails failure
        → After n slept failure.cause stop
        → IsRun n slept (ok (call_exhausted n failure.cause))
    retries :
        (n slept pause : ℕ) (failure : TransientAttempt) (r : Result Defect (EmbedEnd A))
        → reply n ≡ embed_fails failure
        → After n slept failure.cause (sleep_then pause)
        → n < policy.max_attempts
        → IsRun (suc n) (slept + pause) r
        → IsRun n slept r

  abbrev Drives : (n slept : ℕ) → Run EmbedState (EmbedEnd A) → Type 0
  Drives n slept run = IsRun n slept (conclude_embed timing reply run.ending)

  -- After a failure, if the rest of the loop runs as it should.
  judge-Drives :
      (n tries slept : ℕ) (failure : TransientAttempt) (step : Result Defect Advance)
      (go : ℕ → EmbedState → Run EmbedState (EmbedEnd A))
      → reply n ≡ embed_fails failure
      → advance policy n (some failure.cause) (timing.uniform n) (timing.elapsed n slept) ≡ step
      → ((pause : ℕ) (s : EmbedState)
          → n < policy.max_attempts
          → Drives (suc n) (slept + pause) (go pause s))
      → Drives n slept (
          continue_with
            (judge (record { last = some failure.cause; attempt_count = n }) step)
            tries
            slept
            go)
  judge-Drives n tries slept failure (err d) go e q rest =
      absurd (advance-ne-err policy n _ _ failure.cause d q)
  judge-Drives n tries slept failure (ok stop) go e q rest = gives_up n slept failure e q
  judge-Drives n tries slept failure (ok (sleep_then pause)) go e q rest =
      let left = (advance-MaySleep policy n _ _ pause failure.cause q).attempt_left in
      retries n slept pause failure _ e q left (rest pause _ left)

  settle-Drives :
      (n tries slept : ℕ) (s : EmbedState) (r : EmbedReply A)
      (go : ℕ → EmbedState → Run EmbedState (EmbedEnd A))
      → reply n ≡ r
      → ((pause : ℕ) (s : EmbedState)
          → n < policy.max_attempts
          → Drives (suc n) (slept + pause) (go pause s))
      → Drives n slept (
          continue_with
            (verdict policy n
              (timing.uniform n)
              (timing.elapsed n slept)
              (embed_settle timing reply n s r))
            tries
            slept
            go)
  unfolding verdict
  settle-Drives n tries slept s (embedded a) go e rest = responds n slept a e
  settle-Drives n tries slept s context_too_large go e rest = overflows n slept e
  settle-Drives n tries slept s (embed_raises d) go e rest = breaks_off n slept d e
  settle-Drives n tries slept s (embed_fails failure) go e rest =
      judge-Drives n tries slept failure _ go e refl rest

  drive_from-Drives :
      (left n tries slept : ℕ) (s : EmbedState)
      → left + n ≡ suc policy.max_attempts
      → 1 ≤ left
      → Drives n slept (drive_from policy timing (embed_round timing reply) left n tries slept s)
  unfolding drive_from embed_round
  drive_from-Drives zero n tries slept s total room = absurd (omega arith)
  drive_from-Drives (suc left) n tries slept s total room =
      settle-Drives n (suc tries) slept s (reply n) _ refl (λ pause s' more.
        drive_from-Drives left (suc n) (suc tries) (slept + pause) s' (omega arith) (omega arith))

  -- With at least one attempt allowed, a call makes its attempts in their order from the first on. It
  -- ends with the response, the context overflow or the defect of an attempt that has one. After a
  -- transient failure it pauses and makes the next attempt, if one is left, as the iterator says, or
  -- ends exhausted, with the number and the cause of that attempt. It never ends with an error of the
  -- loop's own.
  pub embed-IsRun : 1 ≤ policy.max_attempts → IsRun 1 0 (embed timing reply policy)
  unfolding embed drive
  embed-IsRun room = drive_from-Drives policy.max_attempts 1 0 0 _ (omega arith) (omega arith)
