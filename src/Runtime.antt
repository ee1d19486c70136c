-- ===== src/Runtime.antt =====
-- The facade (provider_runtime/runtime.py): what it checks before a call, and the bookkeeping of
-- attempts. The two call loops are in `Generate` and `Stream`.
pub mod Gates
pub mod Prepare
pub mod Continue
pub mod Trace
pub mod Generate
pub mod Stream
pub mod Schema
pub mod Embed
use llm_calling.Base.{
  ℕ, suc, String, Bool, true, false, Option, none, some, List, [], ◌∷◌, ◌++◌, ltb, if◌then◌else◌,
  length, Result, ok, err, ◌>>=◌,
}
use llm_calling.Contract.{Presence, Defect, assertion_error, index_error}
use llm_calling.Contract.Outcome.{
  TransientCause, AttemptSignal, transient, final_attempt, AttemptRecord, attempt_record,
  Billability, not_dispatched, possibly_billable, confirmed_non_billable, CallMeta,
  transient_exhausted, cancelled, failed, CallOutcome,
}
use llm_calling.Registry.{ModelRow}

-- What an engine raises for a retryable failure (`TransientAttempt`).
pub record TransientAttempt : Type 0 where
  pub cause : TransientCause
  pub status_code : Presence ℕ
  pub provider_request_id : Presence String
  pub billability : Billability

unfoldable pub billability_rank : Billability → ℕ
billability_rank not_dispatched = 0
billability_rank confirmed_non_billable = 1
billability_rank possibly_billable = 2

unfoldable pub fold_billability : Billability → Billability → Billability
unfolding billability_rank
fold_billability folded observed =
    if ltb (billability_rank folded) (billability_rank observed) then observed else folded

-- `enumerate(..., start=1)` over an engine's records, renumbered after `count` earlier ones.
unfoldable pub renumber : (count : ℕ) → List AttemptRecord → List AttemptRecord
renumber count [] = []
renumber count (r ∷ rest) = record r { attempt = suc count } ∷ renumber (suc count) rest

-- `_absorbed`: an engine's outcome with the trace and the billability of the whole call.
unfoldable pub absorbed : CallOutcome → List AttemptRecord → Billability → CallOutcome
unfolding renumber fold_billability
absorbed outcome prior billability = record outcome {
  meta = record outcome.meta {
    attempt_trace = prior ++ renumber (length prior) outcome.meta.attempt_trace;
    billability = fold_billability billability outcome.meta.billability;
  };
}

abbrev pub registry_revision : String
registry_revision = "2026-10-28.2"

-- `_runtime_meta`: the metadata of a terminal that the runtime makes.
unfoldable pub runtime_meta :
    ModelRow → List AttemptRecord → Billability → Presence String → CallMeta
runtime_meta row trace billability request_id = record {
  provider = row.provider;
  model = row.model_id;
  provider_request_id = request_id;
  usage = none;
  attempt_trace = trace;
  billability = billability;
  native_reasoning = none;
  registry_revision = registry_revision;
}

-- What the loops keep between two attempts.
pub record CallState : Type 0 where
  pub trace : List AttemptRecord
  pub billability : Billability
  pub last_cause : Option TransientCause
  pub last_request_id : Presence String

abbrev pub start_state : CallState
start_state = record {
  trace = [];
  billability = not_dispatched;
  last_cause = none;
  last_request_id = none;
}

-- Readings of the millisecond clock at the start and the end of each attempt.
pub record Clock : Type 0 where
  pub started : ℕ → ℕ
  pub ended : ℕ → ℕ

-- `trace.append(_record(number, signal, status_code, started_ms))`
unfoldable pub add_record :
    Clock → ℕ → AttemptSignal → Presence ℕ → CallState → Result Defect CallState
unfolding attempt_record
add_record clock number signal status s = do
  r ← attempt_record number signal status (clock.started number) (clock.ended number)
  ok (record s { trace = s.trace ++ r ∷ [] })

-- The state after a marked failure.
unfoldable pub note_failure : Clock → ℕ → TransientAttempt → CallState → Result Defect CallState
unfolding add_record fold_billability
note_failure clock number failure s =
    add_record clock number (transient failure.cause) failure.status_code (record s {
      billability = fold_billability s.billability failure.billability;
      last_request_id = failure.provider_request_id;
      last_cause = some failure.cause;
    })

-- `trace[-1] = replace(trace[-1], signal=FinalAttempt())`
unfoldable pub finalize_last : List AttemptRecord → Result Defect (List AttemptRecord)
finalize_last [] = err index_error
finalize_last (r ∷ []) = ok (record r { signal = final_attempt } ∷ [])
finalize_last (r ∷ q ∷ rest) = finalize_last (q ∷ rest) >>= λ rest'. ok (r ∷ rest')

-- The end of a call whose attempts are exhausted.
unfoldable pub exhaust : ModelRow → CallState → Result Defect CallOutcome
unfolding finalize_last runtime_meta
exhaust row s = elim s.last_cause [
  | none ↦ err assertion_error
  | some cause ↦ do
    trace ← finalize_last s.trace
    ok (record {
      meta = runtime_meta row trace s.billability s.last_request_id;
      arm = failed (transient_exhausted (length trace) cause);
    })
]

-- A `Cancelled` terminal, with a record of the attempt that it ends.
unfoldable pub cancel_call : ModelRow → Clock → ℕ → CallState → Result Defect CallOutcome
unfolding add_record runtime_meta
cancel_call row clock number s = do
  s' ← add_record clock number final_attempt none s
  ok (record {
    meta = runtime_meta row s'.trace s'.billability s'.last_request_id;
    arm = cancelled;
  })

-- Which of the two tasks of `_race_cancel` is done when `asyncio.wait` returns.
pub data First : Type 0 where
  action_first both_done cancel_first : First

-- An engine's await and the cancel signal: what the await gives if it is left to finish.
pub record Race (A : Type 0) : Type 0 where
  pub result : A
  pub first : First

-- `_race_cancel`: the action wins if it is done; `none` means cancelled. The cancellation of the
-- consuming task itself is left out.
abbrev pub first_wins : {A : Type 0} → A → First → Option A
first_wins a action_first = some a
first_wins a both_done = some a
first_wins a cancel_first = none

unfoldable pub race_cancel : {A : Type 0} → (has_cancel : Bool) → Race A → Option A
race_cancel false race = some race.result
race_cancel true race = first_wins race.result race.first
