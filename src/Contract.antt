-- ===== src/Contract.antt =====
-- The value vocabulary of the provider lane (provider_runtime/types.py and errors.py): providers,
-- targets, absence and defects. `Presence` is `Option`: `Present` is `some`, `Absent` is `none`.
pub mod Request
pub mod Outcome
pub mod Stream
pub mod Usage
use llm_calling.Base.{String, ◌≡◌, ◌↔◌, Bool, true, false, ◌&&◌, Option, none, some, arith, str_eq}

pub data ProviderName : Type 0 where
  openai anthropic gemini deepseek xai : ProviderName

abbrev pub eq_provider : ProviderName → ProviderName → Bool
eq_provider openai openai = true
eq_provider anthropic anthropic = true
eq_provider gemini gemini = true
eq_provider deepseek deepseek = true
eq_provider xai xai = true
eq_provider _ _ = false

pub eq_provider_iff : (p q : ProviderName) → (eq_provider p q ≡ true) ↔ (p ≡ q)
eq_provider_iff openai q = ground arith
eq_provider_iff anthropic q = ground arith
eq_provider_iff gemini q = ground arith
eq_provider_iff deepseek q = ground arith
eq_provider_iff xai q = ground arith

pub record ProviderTarget : Type 0 where
  pub provider : ProviderName
  pub model : String

-- The dataclass equality of `ProviderTarget`.
abbrev pub eq_target : ProviderTarget → ProviderTarget → Bool
eq_target a b = eq_provider a.provider b.provider && str_eq a.model b.model

pub data EngineId : Type 0 where
  openai_responses openai_chat anthropic_messages gemini_generate : EngineId

abbrev pub Presence {ℓ} : Type ℓ → Type ℓ
Presence A = Option A

-- The places where `InvalidRequest` is raised; the text of the message is left out.
pub data Reason : Type 0 where
  bad_reasoning_key no_reasoning_rows undeclared_reasoning : Reason
  no_streaming no_tools tools_with_strict_output no_image_input : Reason
  unknown_ref unknown_target : Reason
  payload_too_large encoding_too_large : Reason
  empty_codec not_json_text bad_field_set bad_schema_version bad_target target_mismatch : Reason
  codec_mismatch payload_not_object payload_outside_domain not_canonical : Reason
  initial_message_kind prefix_does_not_fit : Reason
  native_omitted native_mismatched json_out_needs_text : Reason
  other_current_model generation_envelope other_definition no_pending_turn : Reason
  not_pending_results no_pending_calls results_mismatch payload_malformed : Reason
  pending_calls_malformed pending_ids : Reason
  thinking_tool_choice option_collision native_calls_malformed native_turn_differs : Reason

-- The codes of the `ProtocolDefect`s that the runtime raises, and those of an engine.
pub data ProtocolCode : Type 0 where
  missing_terminal_event stream_refusal_arm invalid_structured_output : ProtocolCode
  malformed_usage malformed_tool_call unknown_finish_reason malformed_envelope : ProtocolCode
  missing_model missing_choices missing_message malformed_json : ProtocolCode
  unparseable_error_body inband_provider_error invalid_embedding_response other_code : ProtocolCode

-- What is raised and is no product failure: the `RuntimeDefect` hierarchy, and Python's own errors.
pub data Defect : Type 0 where
  invalid_request : Reason → Defect
  protocol_defect : ProtocolCode → Defect
  credential_rejected : Defect
  credential_missing : ProviderName → Defect
  registry_invalid quota_exhausted unclassified_provider_error : Defect
  assertion_error value_error key_error index_error type_error overflow_error : Defect

-- `RuntimeDefect.origin`; `none` for an error that is no `RuntimeDefect`.
pub data FailureOrigin : Type 0 where
  intent plan budget transport provider_http : FailureOrigin
  provider_stream provider_response tool_arguments : FailureOrigin

unfoldable pub origin : Defect → Option FailureOrigin
origin (invalid_request _) = some intent
origin (protocol_defect _) = some provider_response
origin credential_rejected = some provider_http
origin (credential_missing _) = some transport
origin registry_invalid = some intent
origin quota_exhausted = some provider_http
origin unclassified_provider_error = some provider_http
origin assertion_error = none
origin value_error = none
origin key_error = none
origin index_error = none
origin type_error = none
origin overflow_error = none
