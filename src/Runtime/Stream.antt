-- ===== src/Runtime/Stream.antt =====
-- `stream`: the events of one call, in the runtime's envelope (provider_runtime/runtime.py).
-- An engine's stream is the finite list of what each await of it gives, and the consumer reads the
-- events to the end.
pub mod Envelope
pub mod Flows
pub mod Order
pub mod Whole
use llm_calling.Base.{
  ℕ, suc, String, Bool, true, false, ◌&&◌, Option, none, some, List, [], ◌∷◌, ◌++◌, if◌then◌else◌,
  length, Result, ok, err, ◌>>=◌,
}
use llm_calling.Contract.{
  ProviderName, Presence, missing_terminal_event, stream_refusal_arm, Defect, protocol_defect,
}
use llm_calling.Contract.Outcome.{
  TransientCause, provider_stream_interrupted, final_attempt, possibly_billable,
  transient_exhausted, Arm, succeeded, refused, incomplete, cancelled, failed, CallOutcome,
}
use llm_calling.Contract.Request.{ContinuationArtifact, GenerateIntent, ProviderRequest}
use llm_calling.Contract.Stream.{
  CodecStreamEvent, stream_start, text_delta, tool_call_start, tool_call_delta, tool_call_done,
  continuation_delta, usage_event, terminal_event, RuntimeStreamEvent,
}
use llm_calling.Json.{Fields}
use llm_calling.Platform.{Platform}
use llm_calling.Registry.{ModelRow}
use llm_calling.Retry.{
  RetryPolicy, Timing, Step, finish, next, Ending, returned, raised, exhausted, drive,
}
use llm_calling.Runtime.{
  TransientAttempt, fold_billability, absorbed, runtime_meta, CallState, start_state, Clock,
  add_record, note_failure, exhaust, cancel_call, Race, race_cancel,
}
use llm_calling.Runtime.Gates.{Credentials, ProviderCredential, credential, Urls, dispatch_row}
use llm_calling.Runtime.Generate.{seal_outcome}
use llm_calling.Runtime.Prepare.{Prepared, prepare, optionally}

-- What one await of an engine's stream gives. The end of the list is `StopAsyncIteration`.
pub data Pulled : Type 0 where
  pulled : CodecStreamEvent → Pulled
  stream_fails : TransientAttempt → Pulled
  stream_raises : Defect → Pulled

pub record StreamWorld : Type 0 where
  pub timing : Timing
  pub clock : Clock
  pub has_cancel : Bool
  pub is_set : ℕ → Bool
  pub awaits : ℕ → List (Race Pulled)

-- The variables of `_stream_events`, and the events it has yielded.
pub record Progress : Type 0 where
  pub call : CallState
  pub seq : ℕ
  pub start_forwarded : Bool
  pub semantic_forwarded : Bool
  pub sent : List RuntimeStreamEvent

abbrev pub start_progress : Progress
start_progress = record {
  call = start_state;
  seq = 0;
  start_forwarded = false;
  semantic_forwarded = false;
  sent = [];
}

-- The generator at its end: it returned after the terminal event of an outcome, or it raised.
pub record Closed : Type 0 where
  pub sent : List RuntimeStreamEvent
  pub ending : Result Defect CallOutcome

-- `yield envelope(event)`
unfoldable pub envelope : CodecStreamEvent → Progress → Progress
envelope event s = record s {
  seq = suc s.seq;
  sent = s.sent ++ record { seq = suc s.seq; event = event } ∷ [];
}

-- `yield terminal(outcome); return`, or the defect that computing the outcome raised.
unfoldable pub close_with : Progress → Result Defect CallOutcome → Closed
unfolding envelope
close_with s (ok outcome) = record {
  sent = (envelope (terminal_event outcome) s).sent;
  ending = ok outcome;
}
close_with s (err d) = record { sent = s.sent; ending = err d }

unfoldable pub forward_start : Progress → Progress
forward_start s =
    if s.start_forwarded then s else envelope stream_start (record s { start_forwarded = true })

abbrev pub with_continuation : Progress → CallOutcome → Presence ContinuationArtifact → Closed
with_continuation s sealed (some artifact) =
    close_with (envelope (continuation_delta artifact) s) (ok sealed)
with_continuation s sealed none = close_with s (ok sealed)

abbrev pub deliver_arm : Progress → CallOutcome → Arm → Closed
deliver_arm s sealed (refused _) = close_with s (err (protocol_defect stream_refusal_arm))
deliver_arm s sealed (succeeded response) = with_continuation s sealed response.continuation
deliver_arm s sealed (incomplete _ _ _) = close_with s (ok sealed)
deliver_arm s sealed cancelled = close_with s (ok sealed)
deliver_arm s sealed (failed _) = close_with s (ok sealed)

-- The events that follow an engine's terminal, sealed.
unfoldable pub deliver : Progress → Result Defect CallOutcome → Closed
deliver s (err d) = close_with s (err d)
deliver s (ok sealed) = deliver_arm s sealed sealed.arm

abbrev pub mark_failed : TransientCause → Progress → Result Defect CallState → Step Progress Closed
mark_failed cause s (ok call) = next (some cause) (record s { call = call })
mark_failed cause s (err d) = finish (close_with s (err d))

module _ (world : StreamWorld) (row : ModelRow) where
  -- The terminal of a stream that is interrupted after semantic output.
  unfoldable pub interrupt : ℕ → TransientAttempt → CallState → Result Defect CallOutcome
  interrupt number failure s = do
    s' ← add_record world.clock number final_attempt failure.status_code (record s {
      billability = fold_billability s.billability failure.billability;
      last_request_id = failure.provider_request_id;
    })
    ok (record {
      meta = runtime_meta row s'.trace s'.billability s'.last_request_id;
      arm = failed (transient_exhausted (length s'.trace) (provider_stream_interrupted true));
    })

  -- `except TransientAttempt as failed`
  unfoldable pub fail_attempt : ℕ → TransientAttempt → Progress → Step Progress Closed
  fail_attempt number failure s =
      if s.semantic_forwarded
      then finish (close_with s (interrupt number failure s.call))
      else mark_failed failure.cause s (note_failure world.clock number failure s.call)

  abbrev pub cancel_stream : ℕ → Progress → CallState → Step Progress Closed
  cancel_stream number s call = finish (close_with s (cancel_call row world.clock number call))

module _ (p : Platform) (world : StreamWorld) (source row : ModelRow) (intent : GenerateIntent)
    (state : Fields) where
  -- The `match event`; `go` is the rest of the `while True`.
  unfoldable pub on_event :
      Progress → CodecStreamEvent → (Progress → Step Progress Closed) → Step Progress Closed
  on_event s stream_start go = go (forward_start s)
  on_event s (terminal_event outcome) go = finish (
      deliver s
        (seal_outcome p source intent state (absorbed outcome s.call.trace s.call.billability)))
  on_event s (continuation_delta _) go = go (record s { semantic_forwarded = true })
  on_event s (text_delta t) go =
      go (envelope (text_delta t) (record s { semantic_forwarded = true }))
  on_event s (tool_call_start i n) go =
      go (envelope (tool_call_start i n) (record s { semantic_forwarded = true }))
  on_event s (tool_call_delta i t) go =
      go (envelope (tool_call_delta i t) (record s { semantic_forwarded = true }))
  on_event s (tool_call_done c) go =
      go (envelope (tool_call_done c) (record s { semantic_forwarded = true }))
  on_event s (usage_event u) go =
      go (envelope (usage_event u) (record s { semantic_forwarded = true }))

  -- What follows one race of the engine's stream and the cancel signal.
  unfoldable pub receive :
      ℕ → Progress → Option Pulled → (Progress → Step Progress Closed) → Step Progress Closed
  receive number s none go =
      cancel_stream world row number s
        (record s.call { billability = fold_billability s.call.billability possibly_billable })
  receive number s (some (pulled event)) go = on_event s event go
  receive number s (some (stream_fails failure)) go = fail_attempt world row number failure s
  receive number s (some (stream_raises d)) go = finish (close_with s (err d))

  -- The `while True` over one attempt.
  unfoldable pub pull : ℕ → List (Race Pulled) → Progress → Step Progress Closed
  pull number [] s = finish (close_with s (err (protocol_defect missing_terminal_event)))
  pull number (race ∷ rest) s =
      receive number s (race_cancel world.has_cancel race) (λ s'. pull number rest s')

  unfoldable pub stream_round : ℕ → Progress → Step Progress Closed
  stream_round number s =
      if world.has_cancel && world.is_set number
      then cancel_stream world row number s s.call
      else pull number (world.awaits number) s

  -- A round of this loop closes the generator itself and raises nothing.
  abbrev pub conclude_stream : Ending Progress Closed → Closed
  conclude_stream (returned c) = c
  conclude_stream (raised d) = record { sent = []; ending = err d }
  conclude_stream (exhausted s) = close_with s (exhaust row s.call)

  -- `_stream_events`
  unfoldable pub stream_events : RetryPolicy → Closed
  stream_events policy =
      conclude_stream (drive policy world.timing stream_round start_progress).ending

-- A request that was prepared.
unfoldable pub stream_prepared :
    Platform
    → Urls
    → (ProviderName → Option String)
    → Credentials
    → RetryPolicy
    → (GenerateIntent → ModelRow → ProviderCredential → StreamWorld)
    → Prepared
    → Result Defect Closed
stream_prepared p urls overrides credentials policy world q = do
  key ← credential credentials q.row.provider
  ok (
      let row = dispatch_row urls q.row overrides in
      stream_events p (world q.intent row key) q.row row q.intent q.state policy)

-- `stream`; `none` where the model does not follow a resumption.
unfoldable pub stream :
    Platform
    → Urls
    → (ProviderName → Option String)
    → Credentials
    → RetryPolicy
    → (GenerateIntent → ModelRow → ProviderCredential → StreamWorld)
    → ProviderRequest
    → Result Defect (Option Closed)
stream p urls overrides credentials policy world request = do
  prepared ← prepare p request true
  optionally (stream_prepared p urls overrides credentials policy world) prepared
