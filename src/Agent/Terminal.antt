-- ===== src/Agent/Terminal.antt =====
-- The terminal value of a turn (agent_runtime/events.py): `AgentTerminal` and its checks.
pub mod Accepts
use llm_calling.Base.{
  String, Bool, false, not, ◌||◌, Option, none, some, List, [], ◌∷◌, str_eq, is_some, any, Result,
  ok, err, raise_if, ◌>>◌,
}
use llm_calling.Agent.{
  AgentSessionRef, eq_ref, AgentError, failure_missing, failure_unexpected, evidence_mismatch,
  empty_diagnostic, duplicate_diagnostic,
}
use llm_calling.Contract.{Presence}
use llm_calling.Contract.Usage.{TokenUsage}
use llm_calling.Json.{Json}

pub data AgentFailureCause : Type 0 where
  backend_failed turn_timeout output_limit_exceeded : AgentFailureCause
  approval_unanswered output_schema_violation : AgentFailureCause

pub data AgentTerminalFailure : Type 0 where
  quota_exhausted : AgentTerminalFailure
  agent_failure : AgentFailureCause → AgentTerminalFailure

pub data AgentTerminalStatus : Type 0 where
  succeeded_status failed_status cancelled_status : AgentTerminalStatus

-- The session that the evidence names: native evidence names one, and a local stop does where its
-- submission has a turn.
pub data Evidence : Type 0 where
  native_evidence : AgentSessionRef → Evidence
  local_stop : Option AgentSessionRef → Evidence

-- Raw structured output is a frozen JSON value.
pub record AgentTerminal : Type 0 where
  pub status : AgentTerminalStatus
  pub failure : Option AgentTerminalFailure
  pub final_text : String
  pub session : AgentSessionRef
  pub evidence : Evidence
  pub raw_structured_output : Option Json
  pub usage : Presence TokenUsage
  pub diagnostics : List String

abbrev pub check_failure :
    AgentTerminalStatus → Option AgentTerminalFailure → Result AgentError (Unit {0})
check_failure failed_status none = err failure_missing
check_failure failed_status (some _) = ok tt
check_failure succeeded_status f = raise_if (is_some f) failure_unexpected
check_failure cancelled_status f = raise_if (is_some f) failure_unexpected

unfoldable pub names_other : AgentSessionRef → Evidence → Bool
names_other session (native_evidence r) = not (eq_ref r session)
names_other session (local_stop none) = false
names_other session (local_stop (some r)) = not (eq_ref r session)

-- `len(diagnostics) != len(set(diagnostics))`
unfoldable pub has_duplicates : List String → Bool
has_duplicates [] = false
has_duplicates (d ∷ ds) = any (str_eq d) ds || has_duplicates ds

-- `AgentTerminal(...)` with `__post_init__`.
unfoldable pub agent_terminal : AgentTerminal → Result AgentError AgentTerminal
agent_terminal t = do
  check_failure t.status t.failure
  raise_if (names_other t.session t.evidence) evidence_mismatch
  raise_if (any (str_eq "") t.diagnostics) empty_diagnostic
  raise_if (has_duplicates t.diagnostics) duplicate_diagnostic
  ok t
