-- ===== src/Runtime/Embed.antt =====
-- `embed`: the embeddings port, under the same retry owner (provider_runtime/runtime.py). One attempt
-- (`embed_once`) is a parameter; `A` is its response.
pub mod Runs
use llm_calling.Base.{ℕ, Option, none, some, Result, ok, err}
use llm_calling.Contract.{Defect, assertion_error}
use llm_calling.Contract.Outcome.{TransientCause}
use llm_calling.Retry.{
  RetryPolicy, Timing, Step, finish, raise, next, Ending, returned, raised, exhausted, drive,
}
use llm_calling.Runtime.{TransientAttempt}

-- How one attempt ends.
pub data EmbedReply (A : Type 0) : Type 0 where
  embedded : A → EmbedReply A
  context_too_large : EmbedReply A
  embed_fails : TransientAttempt → EmbedReply A
  embed_raises : Defect → EmbedReply A

-- A call gives a response, or `NonGenerationCallFailed` with one of its two failures.
pub data EmbedEnd (A : Type 0) : Type 0 where
  embedding_response : A → EmbedEnd A
  call_too_large : EmbedEnd A
  call_exhausted : (attempts : ℕ) → (cause : TransientCause) → EmbedEnd A

pub record EmbedState : Type 0 where
  pub last : Option TransientCause
  pub attempt_count : ℕ

abbrev pub exhausted_end : {A : Type 0} → EmbedState → Result Defect (EmbedEnd A)
exhausted_end s = elim s.last [
  | none ↦ err assertion_error
  | some cause ↦ ok (call_exhausted s.attempt_count cause)
]

module _ {A : Type 0} (timing : Timing) (reply : ℕ → EmbedReply A) where
  abbrev pub embed_settle : ℕ → EmbedState → EmbedReply A → Step EmbedState (EmbedEnd A)
  embed_settle number s (embedded a) = finish (embedding_response a)
  embed_settle number s context_too_large = finish call_too_large
  embed_settle number s (embed_fails failure) =
      next (some failure.cause) (record { last = some failure.cause; attempt_count = number })
  embed_settle number s (embed_raises d) = raise d

  unfoldable pub embed_round : ℕ → EmbedState → Step EmbedState (EmbedEnd A)
  embed_round number s = embed_settle number s (reply number)

  abbrev pub conclude_embed : Ending EmbedState (EmbedEnd A) → Result Defect (EmbedEnd A)
  conclude_embed (returned r) = ok r
  conclude_embed (raised d) = err d
  conclude_embed (exhausted s) = exhausted_end s

  unfoldable pub embed : RetryPolicy → Result Defect (EmbedEnd A)
  embed policy =
      conclude_embed
        (drive policy timing embed_round (record { last = none; attempt_count = 0 })).ending
