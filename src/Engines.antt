-- ===== src/Engines.antt =====
-- What the engines share (provider_runtime/engines/_common.py): the narrowing of provider JSON, the
-- check of a continuation, and the content of a final response. `none` stands for `None`.
pub mod Chat
use Prim.Native.Char.{code}
use llm_calling.Base.{
  String, not, ◌||◌, Option, none, some, List, [], ◌∷◌, str_eq, if◌then◌else◌, get_or_else, Result,
  ok, err, raise_if,
}
use llm_calling.Base.Int.{ℤ, pos}
use llm_calling.Contract.{
  eq_target, codec_mismatch, ProtocolCode, Defect, invalid_request, protocol_defect,
}
use llm_calling.Contract.Outcome.{
  ExpectedModelFailure, invalid_structured, ResponseContent, text_content, structured_content,
}
use llm_calling.Contract.Request.{
  ToolCall, OutputSpec, text_output, strict_json_output, ContinuationArtifact, GenerateIntent,
}
use llm_calling.Json.{Json, int, str, obj, Fields, end}
use llm_calling.Platform.{Platform}
use llm_calling.Registry.{ModelRow}
use llm_calling.Runtime.{TransientAttempt}

-- What one attempt raises.
pub data Fault : Type 0 where
  transient_fault : TransientAttempt → Fault
  defect_fault : Defect → Fault

abbrev pub protocol_fault : ProtocolCode → Fault
protocol_fault code = defect_fault (protocol_defect code)

abbrev pub or_fault : {A : Type 0} → Result Defect A → Result Fault A
or_fault (ok a) = ok a
or_fault (err d) = err (defect_fault d)

-- `bool` is no count, though it is a subclass of `int`.
unfoldable pub int_or_none : Option Json → Option ℤ
int_or_none (some (int n)) = some n
int_or_none _ = none

unfoldable pub str_or_none : Option Json → Option String
str_or_none (some (str s)) = some s
str_or_none _ = none

-- `value or 0`, `value or ""`, `value or {}`
abbrev pub or_zero : Option ℤ → ℤ
or_zero n = get_or_else (pos 0) n

abbrev pub or_empty : Option String → String
or_empty s = get_or_else "" s

abbrev pub or_no_fields : Option Fields → Fields
or_no_fields fs = get_or_else end fs

-- `value or None`, for a text
abbrev pub nonempty : Option String → Option String
nonempty none = none
nonempty (some s) = if str_eq s "" then none else some s

-- `a or b`, for texts
abbrev pub first_text : Option String → Option String → Option String
first_text none b = b
first_text (some a) b = if str_eq a "" then b else some a

unfoldable pub validate_continuation :
    ContinuationArtifact → ModelRow → GenerateIntent → Result Defect (Unit {0})
validate_continuation artifact row intent =
    raise_if
      (not (eq_target artifact.target intent.target)
        || not (str_eq artifact.codec_id row.continuation_codec))
      (invalid_request codec_mismatch)

-- The output of a strict request; the parser's message is left out of the detail.
abbrev pub structured_of : String → Option Json → Result ExpectedModelFailure ResponseContent
structured_of text none = err (invalid_structured "structured output is not valid JSON")
structured_of text (some (obj payload)) = ok (structured_content payload text)
structured_of text (some _) =
    err (invalid_structured "structured output parsed to a value that is no JSON object")

abbrev pub final_content :
    Platform → OutputSpec → String → Result ExpectedModelFailure ResponseContent
final_content p text_output text = ok (text_content text [])
final_content p (strict_json_output name schema) text = structured_of text (p.loads_text text)

-- A turn that calls tools is intermediate: only a final answer has to be of the requested form.
unfoldable pub response_content :
    Platform → GenerateIntent → String → List ToolCall → Result ExpectedModelFailure ResponseContent
response_content p intent text [] = final_content p intent.output text
response_content p intent text (call ∷ calls) = ok (text_content text (call ∷ calls))
