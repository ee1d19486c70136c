-- ===== src/Examples/Generations.antt =====
-- A generation of DeepSeek's flash model over one turn with one tool call.
use llm_calling.Base.{
  ◌≡◌, refl, true, false, some, List, [], ◌∷◌, map, get_or_else, Result, ok, str_length, is_ascii,
}
use llm_calling.Continuation.{canonical_json_bytes, encode_continuation}
use llm_calling.Continuation.Answered.{with_results}
use llm_calling.Continuation.Conversation.{Turn, with_turns}
use llm_calling.Continuation.Generation.{
  fingerprint_fields, model_labels, fingerprint, row_fingerprint, first_state,
}
use llm_calling.Continuation.History.{IsPending, History, opened, resumed_with, History-request}
use llm_calling.Continuation.Pending.{
  blank_result, pending_tool_calls, pending_tool_calls-IsPending,
}
use llm_calling.Continuation.Read.{
  read_call, read_tool, read_result, read_output, read_choice, read_block, read_message, read_turn,
  read_generation,
}
use llm_calling.Continuation.Resume.{
  check_ids, pending_calls, Resumption, resumed, same_definition, open_generation,
  resume_generation,
}
use llm_calling.Continuation.Seal.{append_turn, seal_turn, seal_generation}
use llm_calling.Contract.{Defect}
use llm_calling.Contract.Outcome.{text_content, ResponsePayload}
use llm_calling.Contract.Request.{
  ToolCall, ContinuationArtifact, continuation_artifact, ToolResultMessage, GenerateIntent,
  continue,
}
use llm_calling.Examples.{from_ok, toy_platform, flash, flash_row, hello}
use llm_calling.Json.{
  null, obj, Fields, end, freeze_at, freeze_json_value, freeze_json_object, thaw, thaw_json_value,
}
use llm_calling.Platform.{Platform}
use llm_calling.Registry.{ModelRow}
use llm_calling.Registry.Resolve.{resolve_target}
use llm_calling.Registry.Rows.{deepseek_row, rows}
use llm_calling.Runtime.Continue.{prepare-continues}
use llm_calling.Runtime.Gates.{row_reasoning, validate_intent, Accepts, validate_intent-ok_iff}
use llm_calling.Runtime.Prepare.{prepare}

abbrev p : Platform
p = toy_platform null

abbrev row : ModelRow
row = flash_row

abbrev call : ToolCall
call = record { id = "c1"; name = "f"; arguments = end }

abbrev turn : Turn
turn = record {
  text = "calling";
  calls = call ∷ [];
  native_payload = end;
  results = record { call_id = "c1"; output = "42"; is_error = false } ∷ [];
}

abbrev opening : Fields
opening = from_ok end (first_state p row hello)

abbrev native_artifact : ContinuationArtifact
native_artifact = record { target = flash; codec_id = row.continuation_codec; opaque_payload = end }

abbrev response : ResponsePayload
response = record {
  content = text_content "calling" (call ∷ []);
  continuation = some native_artifact;
}

abbrev sealed : ResponsePayload
sealed = from_ok response (seal_generation p row hello opening response)

abbrev artifact : ContinuationArtifact
artifact = get_or_else native_artifact sealed.continuation

abbrev request_of : Result Defect Resumption → GenerateIntent
request_of (ok (resumed intent state)) = intent
request_of _ = hello

abbrev state_of : Result Defect Resumption → Fields
state_of (ok (resumed intent state)) = state
state_of _ = end

abbrev resumption : List ToolResultMessage → Result Defect Resumption
resumption results =
    resume_generation p row (record { continuation = artifact; tool_results = results })

start : History p row hello [] hello opening
unfolding first_state row_fingerprint fingerprint freeze_json_object freeze_json_value freeze_at
    thaw_json_value thaw canonical_json_bytes model_labels fingerprint_fields deepseek_row
start = opened refl

pending : IsPending p row hello opening turn artifact
unfolding first_state row_fingerprint fingerprint freeze_json_object freeze_json_value freeze_at
    thaw_json_value thaw canonical_json_bytes model_labels fingerprint_fields deepseek_row
    seal_generation seal_turn append_turn encode_continuation continuation_artifact
pending = record {
  response = response;
  sealed = sealed;
  own = native_artifact;
  content = refl;
  given = refl;
  native_is = refl;
  seals = refl;
  carried = refl;
}

resumes :
    resume_generation p row (record { continuation = artifact; tool_results = turn.results })
    ≡ ok (resumed (request_of (resumption turn.results)) (state_of (resumption turn.results)))
unfolding first_state row_fingerprint fingerprint freeze_json_object freeze_json_value freeze_at
    thaw_json_value thaw canonical_json_bytes model_labels fingerprint_fields deepseek_row
    seal_generation seal_turn append_turn encode_continuation continuation_artifact
    resume_generation open_generation same_definition pending_calls check_ids read_generation
    read_turn read_call read_tool read_result read_output read_choice read_message read_block
resumes = refl

History-request_example :
    request_of (resumption turn.results) ≡ with_turns row.continuation_codec hello (turn ∷ [])
History-request_example =
    History-request p row hello (turn ∷ []) (request_of (resumption turn.results))
      (state_of (resumption turn.results)) ((tt, tt), tt)
      (resumed_with turn artifact start pending resumes)

abbrev made : List ToolResultMessage → ContinuationArtifact
made results = from_ok artifact (
    continuation_artifact artifact.target artifact.codec_id
      (thaw_json_value (obj (with_results results artifact.opaque_payload))))

resolves : resolve_target flash ≡ ok row
unfolding resolve_target rows deepseek_row
resolves = refl

validated : validate_intent row hello true ≡ ok tt
unfolding validate_intent row_reasoning str_length is_ascii deepseek_row
validated = refl

accepts : Accepts row hello true
accepts = (validate_intent-ok_iff row hello true).0 validated

prepare-continues_example :
    prepare p (continue (record { continuation = artifact; tool_results = turn.results })) true
    ≡ ok (
        some (record {
          row = row;
          intent = with_turns row.continuation_codec hello (turn ∷ []);
          state = with_results turn.results artifact.opaque_payload;
        }))
unfolding first_state row_fingerprint fingerprint freeze_json_object freeze_json_value freeze_at
    thaw_json_value thaw canonical_json_bytes model_labels fingerprint_fields deepseek_row
    seal_generation seal_turn append_turn encode_continuation continuation_artifact
prepare-continues_example =
    prepare-continues p row hello true [] hello opening turn artifact (made turn.results)
      (123 ∷ 125 ∷ []) resolves accepts ((tt, tt), tt) start pending refl refl refl refl

pending_tool_calls-IsPending_example : pending_tool_calls p artifact ≡ ok (some (call ∷ []))
unfolding first_state row_fingerprint fingerprint freeze_json_object freeze_json_value freeze_at
    thaw_json_value thaw canonical_json_bytes model_labels fingerprint_fields deepseek_row
    seal_generation seal_turn append_turn encode_continuation continuation_artifact
pending_tool_calls-IsPending_example =
    pending_tool_calls-IsPending p row hello [] hello opening turn artifact
      (made (map blank_result turn.calls)) (123 ∷ 125 ∷ []) refl resolves ((tt, tt), tt) start
      pending refl refl refl
