-- ===== src/Contract/Stream.antt =====
-- The events that an engine yields, and the envelope that the runtime owns.
use llm_calling.Base.{ℕ, String}
use llm_calling.Contract.Outcome.{CallOutcome}
use llm_calling.Contract.Request.{ToolCall, ContinuationArtifact}
use llm_calling.Contract.Usage.{TokenUsage}

pub data CodecStreamEvent : Type 0 where
  stream_start : CodecStreamEvent
  text_delta : String → CodecStreamEvent
  tool_call_start : (call_id : String) → (name : String) → CodecStreamEvent
  tool_call_delta : (call_id : String) → (arguments_delta : String) → CodecStreamEvent
  tool_call_done : ToolCall → CodecStreamEvent
  continuation_delta : ContinuationArtifact → CodecStreamEvent
  usage_event : TokenUsage → CodecStreamEvent
  terminal_event : CallOutcome → CodecStreamEvent

pub record RuntimeStreamEvent : Type 0 where
  pub seq : ℕ
  pub event : CodecStreamEvent
