-- ===== src/Engines/Chat/Terminal.antt =====
-- The terminal outcome of an attempt, its metadata, and its native continuation.
use llm_calling.Base.{
  ℕ, String, Bool, false, not, ◌&&◌, ◌||◌, Option, none, some, List, [], ◌∷◌, str_eq, if◌then◌else◌,
  Result, ok, err, ◌>>=◌,
}
use llm_calling.Contract.{Presence, unknown_finish_reason, Defect, protocol_defect}
use llm_calling.Contract.Outcome.{
  final_attempt, attempt_record, possibly_billable, CallMeta, ExpectedModelFailure, ResponseContent,
  max_output_tokens, content_filter_partial, provider_incomplete, Arm, succeeded, incomplete,
  failed, CallOutcome,
}
use llm_calling.Contract.Request.{
  ToolCall, ContinuationArtifact, continuation_artifact, GenerateIntent,
}
use llm_calling.Contract.Usage.{TokenUsage}
use llm_calling.Engines.{response_content}
use llm_calling.Engines.Chat.Calls.{FinishedToolCall}
use llm_calling.Json.{null, str, arr, obj, Items, nil, cons, Fields, end, field, thaw_json_value}
use llm_calling.Platform.{Platform}
use llm_calling.Registry.{ModelRow}
use llm_calling.Registry.Check.{is_empty}
use llm_calling.Registry.Rows.{reasoning}
use llm_calling.Runtime.{runtime_meta}

-- The metadata of one attempt of the engine, whose clock was read at its start and at its end.
unfoldable pub attempt_meta :
    ModelRow
    → String
    → Option String
    → Presence TokenUsage
    → ℕ
    → ℕ
    → ℕ
    → Presence String
    → Result Defect CallMeta
attempt_meta row model request_id usage status started ended native_reasoning = do
  attempt ← attempt_record 1 final_attempt (some status) started ended
  ok (record (runtime_meta row (attempt ∷ []) possibly_billable request_id) {
    model = model;
    usage = usage;
    native_reasoning = native_reasoning;
  })

abbrev pub content_arm :
    Result ExpectedModelFailure ResponseContent → Presence ContinuationArtifact → Arm
content_arm (err f) continuation = failed f
content_arm (ok content) continuation =
    succeeded (record { content = content; continuation = continuation })

abbrev pub is_reason : String → Option String → Bool
is_reason r none = false
is_reason r (some s) = str_eq s r

-- `_terminal_outcome`, but for the metadata.
unfoldable pub terminal_arm :
    Platform
    → Option String
    → GenerateIntent
    → String
    → List ToolCall
    → Presence ContinuationArtifact
    → Result Defect Arm
terminal_arm p finish_reason intent text calls continuation =
    if is_reason "stop" finish_reason || is_reason "tool_calls" finish_reason
    then ok (content_arm (response_content p intent text calls) continuation)
    else (if is_reason "length" finish_reason
        then ok (incomplete max_output_tokens provider_incomplete none)
        else (if is_reason "content_filter" finish_reason
            then ok (incomplete content_filter_partial provider_incomplete none)
            else err (protocol_defect unknown_finish_reason)))

unfoldable pub terminal_outcome :
    Platform
    → Option String
    → CallMeta
    → GenerateIntent
    → String
    → List ToolCall
    → Presence ContinuationArtifact
    → Result Defect CallOutcome
terminal_outcome p finish_reason meta intent text calls continuation = do
  arm ← terminal_arm p finish_reason intent text calls continuation
  ok (record { meta = meta; arm = arm })

abbrev native_items : List FinishedToolCall → Items
native_items [] = nil
native_items (call ∷ calls) = cons (obj call.native_fields) (native_items calls)

abbrev is_blank_text : String → Bool
is_blank_text s = str_eq s ""

-- The message of the assistant, rebuilt from a stream.
unfoldable pub native_message : String → String → List FinishedToolCall → Fields
native_message text reasoning calls =
    let with_calls =
      if is_empty calls then end else field "tool_calls" (arr (native_items calls)) end in
    let after_content =
      if is_blank_text reasoning
      then with_calls
      else field "reasoning_content" (str reasoning) with_calls in
    field "role" (str "assistant") (
      field "content" (if is_blank_text text && not (is_empty calls) then null else str text)
        after_content)

abbrev present : Result Defect ContinuationArtifact → Result Defect (Presence ContinuationArtifact)
present (ok a) = ok (some a)
present (err d) = err d

unfoldable pub stream_continuation :
    ModelRow
    → GenerateIntent
    → String
    → String
    → List FinishedToolCall
    → Result Defect (Presence ContinuationArtifact)
stream_continuation row intent text reasoning calls =
    if is_blank_text reasoning && is_empty calls
    then ok none
    else present (
        continuation_artifact intent.target row.continuation_codec
          (thaw_json_value (obj (native_message text reasoning calls))))
