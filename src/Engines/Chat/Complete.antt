-- ===== src/Engines/Chat/Complete.antt =====
-- `OpenAIChatEngine.generate` after the request: `_decode_completion` and what may come instead.
use llm_calling.Base.{
  String, Bool, true, ◌&&◌, ◌||◌, Option, none, some, List, [], ◌∷◌, str_eq, if◌then◌else◌, Result,
  ok, err, ◌>>=◌,
}
use llm_calling.Continuation.{mapping_of}
use llm_calling.Continuation.Resume.{is_null}
use llm_calling.Contract.{
  Presence, malformed_tool_call, malformed_envelope, missing_model, missing_choices,
  missing_message, malformed_json, Defect, protocol_defect,
}
use llm_calling.Contract.Outcome.{
  TransientCause, possibly_billable, CallMeta, ExpectedModelFailure, failed, CallOutcome,
}
use llm_calling.Contract.Request.{
  ToolCall, ContinuationArtifact, continuation_artifact, GenerateIntent,
}
use llm_calling.Contract.Usage.{TokenUsage}
use llm_calling.Engines.{
  Fault, transient_fault, defect_fault, str_or_none, or_empty, or_no_fields, nonempty,
}
use llm_calling.Engines.Chat.{Served}
use llm_calling.Engines.Chat.Calls.{tool_arguments}
use llm_calling.Engines.Chat.Errors.{
  StatusError, transient_connection, classify_status, classify_inband_error,
}
use llm_calling.Engines.Chat.Stream.{Created, created, bad_status, unconnected, Attempt}
use llm_calling.Engines.Chat.Terminal.{attempt_meta, terminal_outcome}
use llm_calling.Engines.Chat.Usage.{usage_from_raw}
use llm_calling.Json.{Json, obj, Fields, thaw_json_value, get}
use llm_calling.Platform.{Platform}
use llm_calling.Registry.{ModelRow}
use llm_calling.Registry.Check.{is_empty}
use llm_calling.Runtime.Generate.{Reply, answered, transient_failure, engine_raises}

pub record ChatMessage : Type 0 where
  pub content : Option Json
  pub reasoning_content : Option Json
  -- `entry.to_dict()` of each tool call, and `message.to_dict()`.
  pub tool_calls : List Fields
  pub whole : Fields

-- The first choice; its message is there if it is a `ChatCompletionMessage`.
pub record CompletionChoice : Type 0 where
  pub message : Option ChatMessage
  pub finish_reason : Option Json

pub record Completion : Type 0 where
  pub id : Option Json
  pub model : Option Json
  pub error : Option Json
  pub choice : Option CompletionChoice
  pub usage : Option Fields

-- What the package gives for a request: a completion or something else, or text that is no JSON.
pub data Response : Type 0 where
  completion : Completion → Response
  no_completion bad_body : Response

abbrev read_function : Platform → String → String → Fields → Result ExpectedModelFailure ToolCall
read_function p id name function = do
  arguments ← tool_arguments p (or_empty (str_or_none (get "arguments" function)))
  ok (record { id = id; name = name; arguments = arguments })

-- The calls of a message: a defect, a failure of the model, or the calls.
unfoldable pub decode_tool_calls :
    Platform → List Fields → Result Defect (Result ExpectedModelFailure (List ToolCall))
decode_tool_calls p [] = ok (ok [])
decode_tool_calls p (raw ∷ entries) =
    let later = decode_tool_calls p entries in
    let id = or_empty (str_or_none (get "id" raw)) in
    let function = or_no_fields (mapping_of (get "function" raw)) in
    let name = or_empty (str_or_none (get "name" function)) in
    if str_eq id "" || str_eq name ""
    then err (protocol_defect malformed_tool_call)
    else elim (read_function p id name function) [
      | err f ↦ ok (err f)
      | ok call ↦ (do rest ← later; ok (rest >>= λ calls. ok (call ∷ calls)))
    ]

unfoldable pub continuation_from_message :
    ModelRow → GenerateIntent → ChatMessage → Result Defect (Presence ContinuationArtifact)
continuation_from_message row intent m =
    if str_eq (or_empty (str_or_none m.reasoning_content)) "" && is_empty m.tool_calls
    then ok none
    else (do
      artifact ←
          continuation_artifact intent.target row.continuation_codec (thaw_json_value (obj m.whole))
      ok (some artifact))

module _ (p : Platform) (provider : Served) (row : ModelRow) (intent : GenerateIntent)
    (attempt : Attempt) where
  abbrev pub reply_of : Result Defect CallOutcome → Reply
  reply_of (ok outcome) = answered outcome
  reply_of (err d) = engine_raises d

  abbrev pub fault_reply : Fault → Reply
  fault_reply (transient_fault failure) = transient_failure failure
  fault_reply (defect_fault d) = engine_raises d

  abbrev pub usage_given : Option Fields → Result Defect (Presence TokenUsage)
  usage_given none = ok none
  usage_given (some raw) = do u ← usage_from_raw provider raw; ok (some u)

  abbrev pub finish_message :
      CallMeta
      → Option Json
      → ChatMessage
      → Result ExpectedModelFailure (List ToolCall)
      → Result Defect CallOutcome
  finish_message meta reason m (err f) = ok (record { meta = meta; arm = failed f })
  finish_message meta reason m (ok calls) = do
    continuation ← continuation_from_message row intent m
    terminal_outcome p (str_or_none reason) meta intent (or_empty (str_or_none m.content)) calls
        continuation

  unfoldable pub decode_message :
      String → Completion → Option Json → ChatMessage → Result Defect CallOutcome
  decode_message model c reason m = do
    usage ← usage_given c.usage
    meta ←
        attempt_meta row model (nonempty (str_or_none c.id)) usage 200 attempt.started attempt.ended
          attempt.native_reasoning
    calls ← decode_tool_calls p m.tool_calls
    finish_message meta reason m calls

  abbrev pub decode_choice :
      String → Completion → Option CompletionChoice → Result Defect CallOutcome
  decode_choice model c none = err (protocol_defect missing_choices)
  decode_choice model c (some choice) = elim choice.message [
    | none ↦ err (protocol_defect missing_message)
    | some m ↦ decode_message model c choice.finish_reason m
  ]

  abbrev pub decode_model : Completion → Option String → Result Defect CallOutcome
  decode_model c none = err (protocol_defect missing_model)
  decode_model c (some model) = decode_choice model c c.choice

  abbrev pub inband_reply : Completion → Result Fault TransientCause → Reply
  inband_reply c (err f) = fault_reply f
  inband_reply c (ok cause) = transient_failure (record {
    cause = cause;
    status_code = some 200;
    provider_request_id = nonempty (str_or_none c.id);
    billability = possibly_billable;
  })

  abbrev pub no_error : Option Json → Bool
  no_error none = true
  no_error (some v) = is_null (some v)

  unfoldable pub decode_completion : Completion → Reply
  decode_completion c =
      if no_error c.error
      then reply_of (decode_model c (nonempty (str_or_none c.model)))
      else inband_reply c (classify_inband_error p c.error)

  abbrev pub overflow_reply : StatusError → Result Fault ExpectedModelFailure → Reply
  overflow_reply e (err f) = fault_reply f
  overflow_reply e (ok failure) = reply_of (do
    meta ←
        attempt_meta row row.model_id e.request_id none e.status attempt.started attempt.ended
          attempt.native_reasoning
    ok (record { meta = meta; arm = failed failure }))

  unfoldable pub generate_attempt : Created Response → Reply
  generate_attempt (created (completion c)) = decode_completion c
  generate_attempt (created no_completion) = engine_raises (protocol_defect malformed_envelope)
  generate_attempt (created bad_body) = engine_raises (protocol_defect malformed_json)
  generate_attempt (bad_status e) = overflow_reply e (classify_status p e)
  generate_attempt (unconnected e) = transient_failure (transient_connection e)
