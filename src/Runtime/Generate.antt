-- ===== src/Runtime/Generate.antt =====
-- `generate`: one terminal outcome for one request.
pub mod Invariant
pub mod Total
pub mod Whole
use llm_calling.Base.{
  ℕ, String, Bool, false, ◌&&◌, Option, none, some, if◌then◌else◌, Result, ok, err, ◌>>=◌,
}
use llm_calling.Continuation.Seal.{seal_generation}
use llm_calling.Contract.{ProviderName, Defect, value_error}
use llm_calling.Contract.Outcome.{
  TransientCause, possibly_billable, continuation_too_large, ResponsePayload, succeeded, refused,
  incomplete, cancelled, failed, CallOutcome,
}
use llm_calling.Contract.Request.{GenerateIntent, ProviderRequest}
use llm_calling.Json.{Fields}
use llm_calling.Platform.{Platform}
use llm_calling.Registry.{ModelRow}
use llm_calling.Retry.{
  RetryPolicy, Timing, Step, finish, raise, next, Ending, returned, raised, exhausted, drive,
}
use llm_calling.Runtime.{
  TransientAttempt, fold_billability, absorbed, CallState, start_state, Clock, note_failure,
  exhaust, cancel_call, Race, race_cancel,
}
use llm_calling.Runtime.Gates.{Credentials, ProviderCredential, credential, Urls, dispatch_row}
use llm_calling.Runtime.Prepare.{Prepared, prepare, optionally}

-- How one attempt of an engine ends, if it is left to finish.
pub data Reply : Type 0 where
  answered : CallOutcome → Reply
  transient_failure : TransientAttempt → Reply
  engine_raises : Defect → Reply

-- The surroundings of a call, by attempt: the cancel signal, if there is one, the engine's reply and
-- its race with the signal, the clocks and the random numbers.
pub record World : Type 0 where
  pub timing : Timing
  pub clock : Clock
  pub has_cancel : Bool
  pub is_set : ℕ → Bool
  pub reply : ℕ → Race Reply

abbrev pub finish_with : Result Defect CallOutcome → Step CallState CallOutcome
finish_with (ok o) = finish o
finish_with (err d) = raise d

abbrev pub go_on : TransientCause → Result Defect CallState → Step CallState CallOutcome
go_on cause (ok s) = next (some cause) s
go_on cause (err d) = raise d

module _ (world : World) (row : ModelRow) where
  -- The body of the loop after the race.
  unfoldable pub settle : ℕ → CallState → Option Reply → Step CallState CallOutcome
  settle number s none = finish_with (
      cancel_call row world.clock number
        (record s { billability = fold_billability s.billability possibly_billable }))
  settle number s (some (answered outcome)) = finish (absorbed outcome s.trace s.billability)
  settle number s (some (transient_failure failure)) =
      go_on failure.cause (note_failure world.clock number failure s)
  settle number s (some (engine_raises d)) = raise d

  -- The body of the loop over `attempts`.
  unfoldable pub round : ℕ → CallState → Step CallState CallOutcome
  unfolding settle
  round number s =
      if world.has_cancel && world.is_set number
      then finish_with (cancel_call row world.clock number s)
      else settle number s (race_cancel world.has_cancel (world.reply number))

  abbrev pub conclude : Ending CallState CallOutcome → Result Defect CallOutcome
  conclude (returned o) = ok o
  conclude (raised d) = err d
  conclude (exhausted s) = exhaust row s

  -- `_generate_outcome`
  unfoldable pub generate_outcome : RetryPolicy → Result Defect CallOutcome
  generate_outcome policy = conclude (drive policy world.timing round start_state).ending

abbrev pub sealed_outcome : CallOutcome → Result Defect ResponsePayload → Result Defect CallOutcome
sealed_outcome outcome (ok response) = ok (record outcome { arm = succeeded response })
sealed_outcome outcome (err value_error) =
    ok (record outcome { arm = failed continuation_too_large })
sealed_outcome outcome (err d) = err d

-- `_seal_outcome`
unfoldable pub seal_outcome :
    Platform → ModelRow → GenerateIntent → Fields → CallOutcome → Result Defect CallOutcome
seal_outcome p row intent state outcome = elim outcome.arm [
  | succeeded response ↦ sealed_outcome outcome (seal_generation p row intent state response)
  | refused _ ↦ ok outcome
  | incomplete _ _ _ ↦ ok outcome
  | cancelled ↦ ok outcome
  | failed _ ↦ ok outcome
]

-- A request that was prepared. The world of a call may depend on what its engine is given.
unfoldable pub generate_prepared :
    Platform
    → Urls
    → (ProviderName → Option String)
    → Credentials
    → RetryPolicy
    → (GenerateIntent → ModelRow → ProviderCredential → World)
    → Prepared
    → Result Defect CallOutcome
generate_prepared p urls overrides credentials policy world q = do
  key ← credential credentials q.row.provider
  outcome ←
      (let row = dispatch_row urls q.row overrides in
        generate_outcome (world q.intent row key) row policy)
  seal_outcome p q.row q.intent q.state outcome

-- `generate`; `none` where the model does not follow a resumption.
unfoldable pub generate :
    Platform
    → Urls
    → (ProviderName → Option String)
    → Credentials
    → RetryPolicy
    → (GenerateIntent → ModelRow → ProviderCredential → World)
    → ProviderRequest
    → Result Defect (Option CallOutcome)
generate p urls overrides credentials policy world request = do
  prepared ← prepare p request false
  optionally (generate_prepared p urls overrides credentials policy world) prepared
