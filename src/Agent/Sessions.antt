-- ===== src/Agent/Sessions.antt =====
-- The session handle (agent_runtime/sessions.py). Each method's critical section holds the lock, so
-- what the threads of a process do to a handle is a sequence of calls.
use llm_calling.Base.{
  String, ◌≡◌, Bool, true, false, not, Option, none, some, List, [], ◌∷◌, str_eq, if◌then◌else◌,
  is_some, Result, ok, err, ◌>>=◌, raise_if, ◌>>◌,
}
use llm_calling.Agent.{
  Backend, AgentTransport, AgentSessionRef, eq_backend, eq_transport, AgentError,
  mismatched_backend, mismatched_transport, mismatched_profile, mismatched_state_root,
  mismatched_directory, incomplete_session_ref, duplicate_session_ref, session_unavailable,
  concurrent_turn, inactive_turn_end,
}

-- `fingerprint_path(cwd)`, or the error for a relative path.
abbrev pub Fingerprint : Type 0
Fingerprint = String → Result AgentError String

abbrev pub check_directory :
    Fingerprint → AgentSessionRef → String → Bool → Result AgentError (Unit {0})
check_directory fingerprint_path ref cwd false = ok tt
check_directory fingerprint_path ref cwd true = do
  own ← fingerprint_path cwd
  raise_if (not (str_eq ref.cwd_fingerprint own)) mismatched_directory

unfoldable pub validate_session_ref :
    Fingerprint
    → AgentSessionRef
    → Backend
    → AgentTransport
    → (profile_key state_root_fingerprint cwd : String) → (cwd_scopes_sessions : Bool)
    → Result AgentError (Unit {0})
validate_session_ref fingerprint_path ref b t profile_key state_root cwd scoped = do
  raise_if (not (eq_backend ref.backend b)) mismatched_backend
  raise_if (not (eq_transport ref.transport t)) mismatched_transport
  raise_if (not (str_eq ref.profile_key profile_key)) mismatched_profile
  raise_if (not (str_eq ref.state_root_fingerprint state_root)) mismatched_state_root
  check_directory fingerprint_path ref cwd scoped

-- The fields of `AgentSession`.
pub record AgentSession : Type 0 where
  pub ref : Option AgentSessionRef
  pub turn_active : Bool
  pub closed : Bool

-- `AgentSession(ref)`
abbrev pub new_session : Option AgentSessionRef → AgentSession
new_session ref = record { ref = ref; turn_active = false; closed = false }

abbrev present_ref : Option AgentSessionRef → Result AgentError AgentSessionRef
present_ref none = err incomplete_session_ref
present_ref (some r) = ok r

-- The property `ref`.
unfoldable pub session_ref : AgentSession → Result AgentError AgentSessionRef
session_ref s = present_ref s.ref

unfoldable pub complete_ref : AgentSessionRef → AgentSession → Result AgentError AgentSession
complete_ref r s = do raise_if (is_some s.ref) duplicate_session_ref; ok (record s { ref = some r })

unfoldable pub begin_turn : AgentSession → Result AgentError AgentSession
begin_turn s = do
  raise_if s.closed session_unavailable
  raise_if s.turn_active concurrent_turn
  ok (record s { turn_active = true })

-- The handle after it is closed, and whether a turn was active.
unfoldable pub begin_close : AgentSession → AgentSession × Bool
begin_close s = if s.closed then (s, s.turn_active) else (record s { closed = true }, s.turn_active)

unfoldable pub end_turn : AgentSession → Result AgentError AgentSession
end_turn s = do
  raise_if (not s.turn_active) inactive_turn_end
  ok (record s { turn_active = false })

-- The calls that change a handle.
pub data Call : Type 0 where
  call_complete_ref : AgentSessionRef → Call
  call_begin_turn call_begin_close call_end_turn : Call

abbrev pub perform : Call → AgentSession → Result AgentError AgentSession
perform (call_complete_ref r) s = complete_ref r s
perform call_begin_turn s = begin_turn s
perform call_begin_close s = ok (begin_close s).0
perform call_end_turn s = end_turn s

-- `s` becomes `s'` by the calls of a list that succeeded, in their order. A call that raises leaves
-- the handle as it was, and is left out of the list.
abbrev pub Reaches : AgentSession → List Call → AgentSession → Type 0
Reaches s [] s' = s ≡ s'
Reaches s (c ∷ cs) s' = (m : AgentSession) × (perform c s ≡ ok m) × Reaches m cs s'
