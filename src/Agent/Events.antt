-- ===== src/Agent/Events.antt =====
-- The grammar of an agent's event stream (agent_runtime/events.py): `validate_event_stream`.
-- `P` is the data of an event and `T` that of a terminal.
use llm_calling.Base.{◌≡◌, refl, ap, Bool, true, false, List, [], ◌∷◌, ◌++◌, All, Result, ok, err}
use llm_calling.Agent.{AgentError, event_after_terminal, unknown_event_kind, missing_terminal}

pub data AgentEvent (P T : Type 0) : Type 0 where
  agent_text agent_tool_use agent_usage agent_permission_request : P → AgentEvent P T
  agent_native agent_tool_call agent_message agent_input_recorded : P → AgentEvent P T
  agent_terminal_event : T → AgentEvent P T

-- What the source yields: an event, or a value of no known kind.
pub data Frame (P T : Type 0) : Type 0 where
  frame : AgentEvent P T → Frame P T
  unknown_frame : Frame P T

-- The events that the generator yielded, and how it ended: with the terminal that it yielded last,
-- or with an error.
pub record Validated (P T : Type 0) : Type 0 where
  pub sent : List (AgentEvent P T)
  pub ending : Result AgentError T

module _ {P T : Type 0} where
  abbrev send : AgentEvent P T → Validated P T → Validated P T
  send e v = record { sent = e ∷ v.sent; ending = v.ending }

  -- The loop once the terminal is held back.
  unfoldable pub hold : T → List (Frame P T) → Validated P T
  hold t [] = record { sent = agent_terminal_event t ∷ []; ending = ok t }
  hold t (_ ∷ _) = record { sent = []; ending = err event_after_terminal }

  unfoldable pub validate_event_stream : List (Frame P T) → Validated P T
  unfolding hold
  validate_event_stream [] = record { sent = []; ending = err missing_terminal }
  validate_event_stream (unknown_frame ∷ rest) = record {
    sent = [];
    ending = err unknown_event_kind;
  }
  validate_event_stream (frame (agent_terminal_event t) ∷ rest) = hold t rest
  validate_event_stream (frame (agent_text p) ∷ rest) =
      send (agent_text p) (validate_event_stream rest)
  validate_event_stream (frame (agent_tool_use p) ∷ rest) =
      send (agent_tool_use p) (validate_event_stream rest)
  validate_event_stream (frame (agent_usage p) ∷ rest) =
      send (agent_usage p) (validate_event_stream rest)
  validate_event_stream (frame (agent_permission_request p) ∷ rest) =
      send (agent_permission_request p) (validate_event_stream rest)
  validate_event_stream (frame (agent_native p) ∷ rest) =
      send (agent_native p) (validate_event_stream rest)
  validate_event_stream (frame (agent_tool_call p) ∷ rest) =
      send (agent_tool_call p) (validate_event_stream rest)
  validate_event_stream (frame (agent_message p) ∷ rest) =
      send (agent_message p) (validate_event_stream rest)
  validate_event_stream (frame (agent_input_recorded p) ∷ rest) =
      send (agent_input_recorded p) (validate_event_stream rest)

  abbrev pub is_agent_terminal : AgentEvent P T → Bool
  is_agent_terminal (agent_terminal_event _) = true
  is_agent_terminal _ = false

  abbrev pub Plain : AgentEvent P T → Type 0
  Plain e = is_agent_terminal e ≡ false

  -- A list of events of known kinds, as frames.
  abbrev pub frames : List (AgentEvent P T) → List (Frame P T)
  frames [] = []
  frames (e ∷ es) = frame e ∷ frames es

  -- How the grammar of a stream ends it.
  abbrev pub Grammar : List (Frame P T) → List (AgentEvent P T) → Result AgentError T → Type 0
  Grammar source sent (ok t) =
      (before : List (AgentEvent P T)) × (sent ≡ before ++ agent_terminal_event t ∷ [])
      × (source ≡ frames sent)
      × All Plain before
  Grammar source sent (err d) =
      (rest : List (Frame P T)) × (source ≡ frames sent ++ rest) × All Plain sent

  Grammar-send :
      (e : AgentEvent P T) (source : List (Frame P T)) (sent : List (AgentEvent P T))
      (ending : Result AgentError T)
      → Plain e
      → Grammar source sent ending
      → Grammar (frame e ∷ source) (e ∷ sent) ending
  Grammar-send e source sent (ok t) plain (before, s, f, h) =
      (e ∷ before, ap (λ xs. e ∷ xs) s, ap (λ xs. frame e ∷ xs) f, (plain, h))
  Grammar-send e source sent (err d) plain (rest, f, h) =
      (rest, ap (λ xs. frame e ∷ xs) f, (plain, h))

  hold-Grammar :
      (t : T) (rest : List (Frame P T))
      → Grammar (frame (agent_terminal_event t) ∷ rest) (hold t rest).sent (hold t rest).ending
  unfolding hold
  hold-Grammar t [] = ([], refl, refl, tt)
  hold-Grammar t (f ∷ rest) = (frame (agent_terminal_event t) ∷ f ∷ rest, refl, tt)

  -- A stream that ends well yielded all the events of its source, of which the last is the terminal
  -- and the only one. A stream that raised yielded a prefix of its source, without any terminal.
  pub validate_event_stream-Grammar :
      (source : List (Frame P T))
      → Grammar source (validate_event_stream source).sent (validate_event_stream source).ending
  unfolding validate_event_stream
  validate_event_stream-Grammar [] = ([], refl, tt)
  validate_event_stream-Grammar (unknown_frame ∷ rest) = (unknown_frame ∷ rest, refl, tt)
  validate_event_stream-Grammar (frame (agent_terminal_event t) ∷ rest) = hold-Grammar t rest
  validate_event_stream-Grammar (frame (agent_text p) ∷ rest) =
      Grammar-send (agent_text p) rest _ _ refl (validate_event_stream-Grammar rest)
  validate_event_stream-Grammar (frame (agent_tool_use p) ∷ rest) =
      Grammar-send (agent_tool_use p) rest _ _ refl (validate_event_stream-Grammar rest)
  validate_event_stream-Grammar (frame (agent_usage p) ∷ rest) =
      Grammar-send (agent_usage p) rest _ _ refl (validate_event_stream-Grammar rest)
  validate_event_stream-Grammar (frame (agent_permission_request p) ∷ rest) =
      Grammar-send (agent_permission_request p) rest _ _ refl (validate_event_stream-Grammar rest)
  validate_event_stream-Grammar (frame (agent_native p) ∷ rest) =
      Grammar-send (agent_native p) rest _ _ refl (validate_event_stream-Grammar rest)
  validate_event_stream-Grammar (frame (agent_tool_call p) ∷ rest) =
      Grammar-send (agent_tool_call p) rest _ _ refl (validate_event_stream-Grammar rest)
  validate_event_stream-Grammar (frame (agent_message p) ∷ rest) =
      Grammar-send (agent_message p) rest _ _ refl (validate_event_stream-Grammar rest)
  validate_event_stream-Grammar (frame (agent_input_recorded p) ∷ rest) =
      Grammar-send (agent_input_recorded p) rest _ _ refl (validate_event_stream-Grammar rest)
