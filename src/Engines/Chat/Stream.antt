-- ===== src/Engines/Chat/Stream.antt =====
-- The end of `OpenAIChatEngine.stream`, and the whole of it.
use llm_calling.Base.{
  ℕ, String, Option, none, some, List, [], ◌∷◌, ◌++◌, map, Result, ok, err, ◌>>=◌,
}
use llm_calling.Contract.{Presence, missing_model, Defect}
use llm_calling.Contract.Outcome.{
  provider_stream_interrupted, CallMeta, ExpectedModelFailure, failed,
}
use llm_calling.Contract.Request.{ToolCall, ContinuationArtifact, GenerateIntent}
use llm_calling.Contract.Stream.{CodecStreamEvent, continuation_delta, terminal_event}
use llm_calling.Contract.Usage.{TokenUsage}
use llm_calling.Engines.{Fault, transient_fault, defect_fault, protocol_fault, or_empty, first_text}
use llm_calling.Engines.Chat.{Served}
use llm_calling.Engines.Chat.Calls.{FinishedToolCall}
use llm_calling.Engines.Chat.Errors.{
  StatusError, ConnectionError, transient_connection, classify_status,
}
use llm_calling.Engines.Chat.Frames.{
  StreamFrame, Cut, Reading, opened_reading, Flow, goes, breaks, fails, interrupted, cut,
  read_frames,
}
use llm_calling.Engines.Chat.Terminal.{attempt_meta, terminal_outcome, stream_continuation}
use llm_calling.Engines.Chat.Usage.{usage_from_raw}
use llm_calling.Json.{Fields}
use llm_calling.Platform.{Platform}
use llm_calling.Registry.{ModelRow}

-- What the openai package gives for a request, or raises.
pub data Created {ℓ} (A : Type ℓ) : Type ℓ where
  created : A → Created A
  bad_status : StatusError → Created A
  unconnected : ConnectionError → Created A

-- The events that were yielded, and what was raised after them.
pub record Emitted : Type 0 where
  pub sent : List CodecStreamEvent
  pub ending : Option Fault

-- What an attempt knows besides its request: the readings of the clock, and the text of the fragment
-- of its reasoning.
pub record Attempt : Type 0 where
  pub started : ℕ
  pub ended : ℕ
  pub native_reasoning : Presence String

abbrev pub emit : List CodecStreamEvent → Result Defect CodecStreamEvent → Emitted
emit sent (ok event) = record { sent = sent ++ event ∷ []; ending = none }
emit sent (err d) = record { sent = sent; ending = some (defect_fault d) }

abbrev pub emit_fault : List CodecStreamEvent → Fault → Emitted
emit_fault sent f = record { sent = sent; ending = some f }

abbrev pub failed_event :
    Result Defect CallMeta → ExpectedModelFailure → Result Defect CodecStreamEvent
failed_event (ok meta) f = ok (terminal_event (record { meta = meta; arm = failed f }))
failed_event (err d) f = err d

module _ (p : Platform) (provider : Served) (row : ModelRow) (intent : GenerateIntent)
    (attempt : Attempt) where
  abbrev pub usage_of : Option Fields → Result Defect (Presence TokenUsage)
  usage_of none = ok none
  usage_of (some raw) = do u ← usage_from_raw provider raw; ok (some u)

  unfoldable pub stream_meta : String → Reading → Result Defect CallMeta
  stream_meta model r = do
    usage ← usage_of r.raw_usage
    attempt_meta row model r.request_id usage 200 attempt.started attempt.ended
        attempt.native_reasoning

  abbrev pub tool_calls_of : List FinishedToolCall → List ToolCall
  tool_calls_of = map (λ c. c.tool_call)

  unfoldable pub final_event :
      String → String → Reading → Presence ContinuationArtifact → Result Defect CodecStreamEvent
  final_event model reason r continuation = do
    meta ← stream_meta model r
    outcome ←
        terminal_outcome p (some reason) meta intent r.text (tool_calls_of r.finished_calls)
          continuation
    ok (terminal_event outcome)

  abbrev pub delta_of : Presence ContinuationArtifact → List CodecStreamEvent
  delta_of none = []
  delta_of (some artifact) = continuation_delta artifact ∷ []

  abbrev pub close_content :
      String → String → Reading → Result Defect (Presence ContinuationArtifact) → Emitted
  close_content model reason r (err d) = emit_fault r.sent (defect_fault d)
  close_content model reason r (ok continuation) =
      emit (r.sent ++ delta_of continuation) (final_event model reason r continuation)

  abbrev pub close_named : Option String → String → Reading → Emitted
  close_named none reason r = emit_fault r.sent (protocol_fault missing_model)
  close_named (some model) reason r =
      close_content model reason r
        (stream_continuation row intent r.text r.reasoning r.finished_calls)

  -- The end of a stream that was read without a failure of the model.
  unfoldable pub close_stream : Option String → Reading → Emitted
  close_stream none r = emit_fault r.sent (interrupted (provider_stream_interrupted r.semantic) r)
  close_stream (some reason) r = close_named r.model reason r

  abbrev pub conclude_reading : Option ExpectedModelFailure → Reading → Emitted
  conclude_reading none r = close_stream r.finish_reason r
  conclude_reading (some f) r =
      emit r.sent
        (failed_event (stream_meta (or_empty (first_text r.model (some row.model_id))) r) f)

  abbrev pub conclude_flow : Flow → Emitted
  conclude_flow (goes r) = conclude_reading r.failure r
  conclude_flow (breaks r) = conclude_reading r.failure r
  conclude_flow (fails f r) = emit_fault r.sent f

  -- A context overflow, with the metadata of `_error_meta`.
  abbrev pub overflow_event : StatusError → Result Fault ExpectedModelFailure → Emitted
  overflow_event e (err f) = emit_fault [] f
  overflow_event e (ok failure) = emit [] (
      failed_event
        (attempt_meta row row.model_id e.request_id none e.status attempt.started attempt.ended
          attempt.native_reasoning)
        failure)

  unfoldable pub stream_attempt : Created (List StreamFrame × Cut) → Emitted
  stream_attempt (created (frames, cut)) =
      conclude_flow (read_frames p provider frames cut opened_reading)
  stream_attempt (bad_status e) = overflow_event e (classify_status p e)
  stream_attempt (unconnected e) = emit_fault [] (transient_fault (transient_connection e))
