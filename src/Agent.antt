-- ===== src/Agent.antt =====
-- The agent lane (provider_runtime/agent_runtime): the identity of a native session and what the
-- session handle and the event stream raise.
pub mod Sessions
pub mod Scope
pub mod Turns
pub mod Events
pub mod Terminal
use llm_calling.Base.{String, Bool, true, false, ◌&&◌, str_eq}

pub data Backend : Type 0 where
  codex claude : Backend

pub data AgentTransport : Type 0 where
  sdk : AgentTransport

-- `AgentSessionRef`; the schema version has one value.
pub record AgentSessionRef : Type 0 where
  pub backend : Backend
  pub transport : AgentTransport
  pub native_session_id : String
  pub profile_key : String
  pub state_root_fingerprint : String
  pub cwd_fingerprint : String

abbrev pub eq_backend : Backend → Backend → Bool
eq_backend codex codex = true
eq_backend claude claude = true
eq_backend _ _ = false

abbrev pub eq_transport : AgentTransport → AgentTransport → Bool
eq_transport sdk sdk = true

-- The dataclass equality of `AgentSessionRef`.
unfoldable pub eq_ref : AgentSessionRef → AgentSessionRef → Bool
eq_ref a b =
    eq_backend a.backend b.backend
    && eq_transport a.transport b.transport
    && str_eq a.native_session_id b.native_session_id
    && str_eq a.profile_key b.profile_key
    && str_eq a.state_root_fingerprint b.state_root_fingerprint
    && str_eq a.cwd_fingerprint b.cwd_fingerprint

-- The places where the session handle, the event stream and the terminal value raise.
pub data AgentError : Type 0 where
  mismatched_backend mismatched_transport mismatched_profile : AgentError
  mismatched_state_root mismatched_directory : AgentError
  relative_path : AgentError
  incomplete_session_ref duplicate_session_ref : AgentError
  session_unavailable concurrent_turn inactive_turn_end : AgentError
  event_after_terminal unknown_event_kind missing_terminal : AgentError
  failure_missing failure_unexpected evidence_mismatch : AgentError
  empty_diagnostic duplicate_diagnostic : AgentError
