-- ===== src/Examples/Agents.antt =====
-- A session with two turns, and a stream of events.
use llm_calling.Base.{
  ℕ, ◌+◌, ◌≡◌, refl, ◌↔◌, true, false, none, some, List, [], ◌∷◌, str_eq, if◌then◌else◌, ok, err,
}
use llm_calling.Agent.{codex, sdk, AgentSessionRef, relative_path}
use llm_calling.Agent.Events.{
  agent_text, agent_tool_use, agent_terminal_event, Frame, frame, validate_event_stream, Grammar,
  validate_event_stream-Grammar,
}
use llm_calling.Agent.Scope.{IsInScope, validate_session_ref-ok_iff}
use llm_calling.Agent.Sessions.{
  Fingerprint, validate_session_ref, AgentSession, new_session, complete_ref, begin_turn,
  begin_close, end_turn, Call, call_complete_ref, call_begin_turn, call_begin_close, call_end_turn,
  Reaches,
}
use llm_calling.Agent.Terminal.{
  quota_exhausted, failed_status, native_evidence, AgentTerminal, agent_terminal,
}
use llm_calling.Agent.Terminal.Accepts.{IsTerminalValue, agent_terminal-ok_iff}
use llm_calling.Agent.Turns.{
  begins, ends, completions, active_turns, Reaches-balance, Reaches-closed, Reaches-ref,
}

abbrev own_ref : AgentSessionRef
own_ref = record {
  backend = codex;
  transport = sdk;
  native_session_id = "s1";
  profile_key = "default";
  state_root_fingerprint = "00";
  cwd_fingerprint = "01";
}

abbrev calls : List Call
calls =
    call_begin_turn
    ∷ call_complete_ref own_ref
    ∷ call_end_turn
    ∷ call_begin_turn
    ∷ call_begin_close
    ∷ []

abbrev after_calls : AgentSession
after_calls = record { ref = some own_ref; turn_active = true; closed = true }

calls-Reaches : Reaches (new_session none) calls after_calls
unfolding begin_turn complete_ref end_turn begin_close
calls-Reaches = (_, refl, (_, refl, (_, refl, (_, refl, (_, refl, refl)))))

Reaches-balance_example :
    begins calls + active_turns (new_session none) ≡ ends calls + active_turns after_calls
Reaches-balance_example = Reaches-balance calls (new_session none) after_calls calls-Reaches

abbrev idle_session : AgentSession
idle_session = record after_calls { turn_active = false }

late_calls-Reaches : Reaches after_calls (call_end_turn ∷ call_begin_close ∷ []) idle_session
unfolding end_turn begin_close
late_calls-Reaches = (_, refl, (_, refl, refl))

Reaches-closed_example :
    (idle_session.closed ≡ true) × (begins (call_end_turn ∷ call_begin_close ∷ []) ≡ 0)
Reaches-closed_example =
    Reaches-closed (call_end_turn ∷ call_begin_close ∷ []) after_calls idle_session
      late_calls-Reaches refl

Reaches-ref_example :
    (idle_session.ref ≡ some own_ref) × (completions (call_end_turn ∷ call_begin_close ∷ []) ≡ 0)
Reaches-ref_example =
    Reaches-ref (call_end_turn ∷ call_begin_close ∷ []) after_calls idle_session own_ref
      late_calls-Reaches refl

abbrev source : List (Frame ℕ ℕ)
source = frame (agent_text 1) ∷ frame (agent_tool_use 2) ∷ frame (agent_terminal_event 0) ∷ []

validate_event_stream-Grammar_example :
    Grammar source (validate_event_stream source).sent (validate_event_stream source).ending
validate_event_stream-Grammar_example = validate_event_stream-Grammar source

abbrev terminal_value : AgentTerminal
terminal_value = record {
  status = failed_status;
  failure = some quota_exhausted;
  final_text = "";
  session = own_ref;
  evidence = native_evidence own_ref;
  raw_structured_output = none;
  usage = none;
  diagnostics = "quota" ∷ [];
}

agent_terminal-ok_iff_example :
    (agent_terminal terminal_value ≡ ok terminal_value) ↔ IsTerminalValue terminal_value
agent_terminal-ok_iff_example = agent_terminal-ok_iff terminal_value

abbrev directories : Fingerprint
directories path = if str_eq path "/work" then ok "01" else err relative_path

validate_session_ref-ok_iff_example :
    (validate_session_ref directories own_ref codex sdk "default" "00" "/work" true ≡ ok tt)
    ↔ IsInScope directories own_ref codex sdk "default" "00" "/work" true
validate_session_ref-ok_iff_example =
    validate_session_ref-ok_iff directories own_ref codex sdk "default" "00" "/work" true
