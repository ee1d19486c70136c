-- ===== src/Engines/Chat/Frames.antt =====
-- `OpenAIChatEngine.stream`: the events of one attempt, over the chunks that the openai package
-- parsed and what ended them.
use llm_calling.Base.{
  String, Bool, true, false, ◌||◌, Option, none, some, List, [], ◌∷◌, ◌++◌, str_eq, if◌then◌else◌,
  is_some, Result, ok, err, str_append,
}
use llm_calling.Continuation.{mapping_of}
use llm_calling.Contract.{malformed_envelope, malformed_json, Defect}
use llm_calling.Contract.Outcome.{
  TransientCause, provider_timeout, provider_http_unavailable, transport_unavailable,
  possibly_billable, ExpectedModelFailure,
}
use llm_calling.Contract.Stream.{
  CodecStreamEvent, stream_start, text_delta, tool_call_done, usage_event,
}
use llm_calling.Contract.Usage.{TokenUsage}
use llm_calling.Engines.{
  Fault, transient_fault, defect_fault, protocol_fault, str_or_none, or_empty, nonempty, first_text,
}
use llm_calling.Engines.Chat.{Served}
use llm_calling.Engines.Chat.Calls.{
  ToolDelta, Slots, apply, FinishedToolCall, Finish, finished, bad_arguments, bad_call,
  finish_calls,
}
use llm_calling.Engines.Chat.Errors.{classify_inband_error}
use llm_calling.Engines.Chat.Usage.{fold_usage, usage_from_raw}
use llm_calling.Json.{Json, Fields}
use llm_calling.Platform.{Platform}

pub record ChoiceDelta : Type 0 where
  pub tool_calls : List ToolDelta
  pub content : Option Json
  pub reasoning_content : Option Json

pub record Choice : Type 0 where
  pub delta : Option ChoiceDelta
  pub finish_reason : Option Json
  pub usage : Option Json

-- A chunk with its first choice; `usage` is there if it is a `CompletionUsage`.
pub record Chunk : Type 0 where
  pub id : Option Json
  pub model : Option Json
  pub choice : Option Choice
  pub usage : Option Fields

pub data StreamFrame : Type 0 where
  chunk : Chunk → StreamFrame
  no_chunk : StreamFrame

-- How the iteration over the chunks ends: by itself, or with an exception.
pub data Cut : Type 0 where
  runs_out timed_out disconnected bad_json : Cut
  api_error : Option Json → Cut

-- The variables of the loop, and the events that were yielded.
pub record Reading : Type 0 where
  pub semantic : Bool
  pub request_id : Option String
  pub model : Option String
  pub finish_reason : Option String
  pub text : String
  pub reasoning : String
  pub slots : Slots
  pub finished_calls : List FinishedToolCall
  pub failure : Option ExpectedModelFailure
  pub raw_usage : Option Fields
  pub sent : List CodecStreamEvent

-- After the request was accepted: the envelope opens.
abbrev pub opened_reading : Reading
opened_reading = record {
  semantic = false;
  request_id = none;
  model = none;
  finish_reason = none;
  text = "";
  reasoning = "";
  slots = [];
  finished_calls = [];
  failure = none;
  raw_usage = none;
  sent = stream_start ∷ [];
}

-- `yield event` with `semantic = True`, for each event.
abbrev pub yield_all : List CodecStreamEvent → Reading → Reading
yield_all [] r = r
yield_all (event ∷ events) r = record r { sent = r.sent ++ event ∷ events; semantic = true }

-- A part of the loop's body: it goes on, breaks out of the loop, or raises.
pub data Flow : Type 0 where
  goes : Reading → Flow
  breaks : Reading → Flow
  fails : Fault → Reading → Flow

abbrev pub then_go : Flow → (Reading → Flow) → Flow
then_go (goes r) rest = rest r
then_go (breaks r) rest = breaks r
then_go (fails f r) rest = fails f r

-- `interrupted(cause)`
abbrev pub interrupted : TransientCause → Reading → Fault
interrupted cause r = transient_fault (record {
  cause = cause;
  status_code = some 200;
  provider_request_id = r.request_id;
  billability = possibly_billable;
})

module _ (p : Platform) (provider : Served) where
  abbrev pub report_usage : Result Defect TokenUsage → Reading → Flow
  report_usage (ok u) r = goes (yield_all (usage_event u ∷ []) r)
  report_usage (err d) r = fails (defect_fault d) r

  abbrev pub known_usage : Option Fields → Reading → Flow
  known_usage none r = goes r
  known_usage (some raw) r =
      report_usage (usage_from_raw provider raw) (record r { raw_usage = some raw })

  abbrev pub choice_usage : Option Choice → Option Fields
  choice_usage none = none
  choice_usage (some c) = mapping_of c.usage

  -- The usage is new if the frame has any: `folded is not raw_usage`.
  unfoldable pub read_usage : Chunk → Reading → Flow
  read_usage c r =
      let own = choice_usage c.choice in
      if is_some own || is_some c.usage
      then known_usage (fold_usage (fold_usage r.raw_usage own) c.usage) r
      else goes r

  abbrev pub text_events : String → List CodecStreamEvent
  text_events text = if str_eq text "" then [] else text_delta text ∷ []

  unfoldable pub read_delta : Option ChoiceDelta → Reading → Reading
  read_delta none r = r
  read_delta (some d) r =
      let (slots, events) = apply d.tool_calls r.slots in
      let text = or_empty (str_or_none d.content) in
      let told = yield_all (text_events text) (yield_all events r) in
      record told {
        slots = slots;
        text = str_append r.text text;
        reasoning = str_append r.reasoning (or_empty (str_or_none d.reasoning_content));
      }

  abbrev pub done_events : List FinishedToolCall → List CodecStreamEvent
  done_events [] = []
  done_events (call ∷ calls) = tool_call_done call.tool_call ∷ done_events calls

  abbrev pub close_calls : Finish → Reading → Flow
  close_calls (finished calls) r =
      goes (yield_all (done_events calls) (record r { finished_calls = calls }))
  close_calls (bad_arguments f) r = breaks (record r { failure = some f })
  close_calls (bad_call d) r = fails (defect_fault d) r

  -- The first terminal frame decides.
  unfoldable pub read_finish : Option String → Option String → Reading → Flow
  read_finish none known r = goes r
  read_finish (some reason) (some known) r = goes r
  read_finish (some reason) none r =
      if str_eq reason "error"
      then fails (interrupted provider_http_unavailable r) r
      else close_calls (finish_calls p r.slots) (record r { finish_reason = some reason })

  abbrev pub read_choice : Option Choice → Reading → Flow
  read_choice none r = goes r
  read_choice (some c) r =
      let after = read_delta c.delta r in
      read_finish (str_or_none c.finish_reason) after.finish_reason after

  unfoldable pub read_frame : StreamFrame → Reading → Flow
  read_frame no_chunk r = fails (protocol_fault malformed_envelope) r
  read_frame (chunk c) r =
      let named = record r {
        request_id = first_text r.request_id (nonempty (str_or_none c.id));
        model = first_text r.model (nonempty (str_or_none c.model));
      } in
      then_go (read_usage c named) (read_choice c.choice)

  abbrev pub raise_cause : Result Fault TransientCause → Reading → Flow
  raise_cause (ok cause) r = fails (interrupted cause r) r
  raise_cause (err f) r = fails f r

  abbrev pub cut : Cut → Reading → Flow
  cut runs_out r = goes r
  cut timed_out r = fails (interrupted provider_timeout r) r
  cut disconnected r = fails (interrupted transport_unavailable r) r
  cut bad_json r = fails (protocol_fault malformed_json) r
  cut (api_error body) r = raise_cause (classify_inband_error p body) r

  -- `async for chunk in api_stream`
  unfoldable pub read_frames : List StreamFrame → Cut → Reading → Flow
  read_frames [] c r = cut c r
  read_frames (f ∷ fs) c r = then_go (read_frame f r) (read_frames fs c)
