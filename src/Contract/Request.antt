-- ===== src/Contract/Request.antt =====
-- What a caller asks for: messages, tools, output, intents and the continuation artifact.
use llm_calling.Base.{
  ℕ, String, Bool, true, false, List, str_eq, Result, ok, err, ◌>>=◌, ◌>>◌, raise_if,
}
use llm_calling.Base.Int.{ℤ}
use llm_calling.Contract.{ProviderTarget, Presence, Defect, value_error}
use llm_calling.Json.{Fields, Object, freeze_json_object}

pub record PromptBlock : Type 0 where
  pub text : String

pub record ImageBlock : Type 0 where
  pub media_type : String
  pub bytes : List ℕ

-- Tool arguments come from a strict JSON parse only.
pub record ToolCall : Type 0 where
  pub id : String
  pub name : String
  pub arguments : Fields

pub record CanonicalTool : Type 0 where
  pub name : String
  pub description : String
  pub parameters : Fields

pub data ToolChoice : Type 0 where
  auto no_choice : ToolChoice

pub data OutputSpec : Type 0 where
  text_output : OutputSpec
  strict_json_output : (name : String) → (schema : Fields) → OutputSpec

abbrev pub is_strict : OutputSpec → Bool
is_strict text_output = false
is_strict (strict_json_output _ _) = true

pub record ContinuationArtifact : Type 0 where
  pub target : ProviderTarget
  pub codec_id : String
  pub opaque_payload : Fields

-- `ContinuationArtifact(...)`: the codec has a name, and the payload, any mapping, is frozen.
-- `JsonValueError` is a `ValueError`.
unfoldable pub continuation_artifact :
    ProviderTarget → String → Object → Result Defect ContinuationArtifact
continuation_artifact target codec_id payload = do
  raise_if (str_eq codec_id "") value_error
  frozen ← elim (freeze_json_object payload) [ ok fs ↦ ok fs | err e ↦ err value_error ]
  ok (record { target = target; codec_id = codec_id; opaque_payload = frozen })

pub data UserBlock : Type 0 where
  prompt : PromptBlock → UserBlock
  image : ImageBlock → UserBlock

pub record ToolResultMessage : Type 0 where
  pub call_id : String
  pub output : String
  pub is_error : Bool

pub data PromptMessage : Type 0 where
  system_message : List PromptBlock → PromptMessage
  user_message : List UserBlock → PromptMessage
  assistant_message : String → List ToolCall → Presence ContinuationArtifact → PromptMessage
  tool_result_message : ToolResultMessage → PromptMessage

pub record GenerateIntent : Type 0 where
  pub target : ProviderTarget
  pub messages : List PromptMessage
  pub max_output_tokens : ℤ
  pub reasoning : String
  pub tools : List CanonicalTool
  pub tool_choice : ToolChoice
  pub output : OutputSpec
  pub provider_options : Fields

pub record ContinueGeneration : Type 0 where
  pub continuation : ContinuationArtifact
  pub tool_results : List ToolResultMessage

pub data ProviderRequest : Type 0 where
  fresh : GenerateIntent → ProviderRequest
  continue : ContinueGeneration → ProviderRequest
