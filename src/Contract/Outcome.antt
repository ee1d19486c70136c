-- ===== src/Contract/Outcome.antt =====
-- The attempt trace, billability, call metadata, failures and terminal outcomes.
-- Durations and clock readings are whole numbers of the smallest unit; a duration that the source
-- checks to be finite and not negative is one by its type.
use llm_calling.Base.{ℕ, String, Bool, List, ltb, Result, ok, ◌>>◌, raise_if}
use llm_calling.Contract.{ProviderName, Presence, Defect, value_error}
use llm_calling.Contract.Request.{ToolCall, ContinuationArtifact}
use llm_calling.Contract.Usage.{TokenUsage}
use llm_calling.Json.{Fields}

pub data TransientCause : Type 0 where
  provider_rate_limit : Presence ℕ → TransientCause
  provider_timeout provider_http_unavailable transport_unavailable : TransientCause
  provider_stream_interrupted : (partial_output : Bool) → TransientCause

pub data AttemptSignal : Type 0 where
  transient : TransientCause → AttemptSignal
  final_attempt : AttemptSignal

pub record AttemptRecord : Type 0 where
  pub attempt : ℕ
  pub signal : AttemptSignal
  pub status_code : Presence ℕ
  pub started_at_ms : ℕ
  pub ended_at_ms : ℕ

-- `AttemptRecord(...)` with `__post_init__`.
unfoldable pub attempt_record : ℕ → AttemptSignal → Presence ℕ → ℕ → ℕ → Result Defect AttemptRecord
attempt_record attempt signal status_code started ended = do
  raise_if (ltb attempt 1) value_error
  raise_if (ltb ended started) value_error
  ok (record {
    attempt = attempt;
    signal = signal;
    status_code = status_code;
    started_at_ms = started;
    ended_at_ms = ended;
  })

pub data Billability : Type 0 where
  not_dispatched possibly_billable confirmed_non_billable : Billability

pub record CallMeta : Type 0 where
  pub provider : ProviderName
  pub model : String
  pub provider_request_id : Presence String
  pub usage : Presence TokenUsage
  pub attempt_trace : List AttemptRecord
  pub billability : Billability
  pub native_reasoning : Presence String
  pub registry_revision : String

-- Details of a failure are the provider's text.
pub data ExpectedModelFailure : Type 0 where
  provider_context_too_large : ExpectedModelFailure
  invalid_tool_arguments : String → ExpectedModelFailure
  invalid_structured : String → ExpectedModelFailure
  continuation_too_large : ExpectedModelFailure
  transient_exhausted : (attempts : ℕ) → (cause : TransientCause) → ExpectedModelFailure

pub data ResponseContent : Type 0 where
  text_content : String → List ToolCall → ResponseContent
  structured_content : Fields → String → ResponseContent

pub record ResponsePayload : Type 0 where
  pub content : ResponseContent
  pub continuation : Presence ContinuationArtifact

pub data IncompleteReason : Type 0 where
  max_output_tokens content_filter_partial : IncompleteReason

pub data IncompleteStatus : Type 0 where
  provider_incomplete refused_status : IncompleteStatus

-- The arm of an outcome, without the metadata that every arm carries.
pub data Arm : Type 0 where
  succeeded : ResponsePayload → Arm
  refused : String → Arm
  incomplete : IncompleteReason → IncompleteStatus → Presence String → Arm
  cancelled : Arm
  failed : ExpectedModelFailure → Arm

-- `CallOutcome`: `Succeeded | Refused | Incomplete | Cancelled | Failed`, each with its `meta`.
pub record CallOutcome : Type 0 where
  pub meta : CallMeta
  pub arm : Arm
